-- ===== src/Space/Relink.antt =====
-- `relink` of td_claim.c: the chunk before, or the header, is made to point elsewhere.
use mathlib.Core.List.{append_assoc}
use sdbm_tree.Common.{
  ℕ, ◌+◌, ◌≤◌, ◌<◌, ◌≡◌, refl, sym, subst, ap, ◌∙◌, ◌⊎◌, inr, true, false, List, [], ◌∷◌, ◌++◌,
  arith, ◌==◌, word_mod, word_bytes,
}
use sdbm_tree.Types.{Td, Memory}
use sdbm_tree.Machine.{ok}
use sdbm_tree.Memory.{slice, blit}
use sdbm_tree.Memory.Laws.{slice-blit_outside}
use sdbm_tree.Io.{td_write_uint}
use sdbm_tree.Io.Codec.{IsWord}
use sdbm_tree.Io.Frame.{td_write-ok}
use sdbm_tree.Space.{relink}
use sdbm_tree.Space.Chain.{link_at, link_at_self, link_at-other}
use sdbm_tree.Space.Free.{
  Free, FreeIn, Linked, Beside, BesideAll, Disjoint, last_of, BesideAll-append, Disjoint-middle,
  Linked-append, Linked-split, SameHeads, Linked-same,
}

-- The `k` bytes at `a` are apart from the chunks.
abbrev pub AwayFree : ℕ → ℕ → List Free → Type 0
AwayFree a k [] = Unit {0}
AwayFree a k (f ∷ fs) = ((a + k ≤ f.ptr) ⊎ (f.ptr + f.size ≤ a)) × AwayFree a k fs

pub AwayFree-append :
    (a k : ℕ) (xs ys : List Free) → AwayFree a k (xs ++ ys) → AwayFree a k xs × AwayFree a k ys
AwayFree-append a k [] ys h = (tt, h)
AwayFree-append a k (x ∷ xs) ys h = let r = AwayFree-append a k xs ys h.1 in ((h.0, r.0), r.1)

-- The memories agree on the words outside the `n` bytes at `a`.
abbrev pub Agree : Memory → Memory → ℕ → ℕ → Type 0
Agree m k a n = (p : ℕ) → (p + 4 ≤ a) ⊎ (a + n ≤ p) → link_at k p ≡ link_at m p

-- What changes within a chunk leaves the heads of the chunks beside it.
pub SameHeads-Agree :
    (limit : ℕ) (m k : Memory) (a n : ℕ) (c : Free) (p q : ℕ) (xs : List Free)
    → Agree m k a n
    → c.ptr ≤ a
    → a + n ≤ c.ptr + c.size
    → BesideAll c xs
    → Linked limit m p xs q
    → SameHeads m k xs
SameHeads-Agree limit m k a n c p q [] same lo hi beside h = tt
SameHeads-Agree limit m k a n c p q (x ∷ xs) same lo hi beside (e, at, h) =
    let room = at.room in
    (
      same x.ptr (ground arith),
      same (x.ptr + 4) (ground arith),
      SameHeads-Agree limit m k a n c (link_at m x.ptr) q xs same lo hi beside.1 h,
    )

-- A list that is not empty has a last element.
snoc : (f : Free) (fs : List Free) → (xs : List Free) × (l : Free) × (f ∷ fs ≡ xs ++ (l ∷ []))
snoc f [] = ([], f, refl)
snoc f (g ∷ fs) = let (xs, l, e) = snoc g fs in (f ∷ xs, l, ap (λ k. f ∷ k) e)

pub last_of-snoc : (d : ℕ) (xs : List Free) (l : Free) → last_of d (xs ++ (l ∷ [])) ≡ l.ptr
last_of-snoc d [] l = refl
last_of-snoc d (x ∷ xs) l = last_of-snoc x.ptr xs l

-- The btree after `relink`: the chain `pre` goes on to `tail`.
pub record Relinked (td td' : Td) (pre tail : List Free) : Type 0 where
  pub linked : Linked td.header.size td'.mem td'.header.off_e (pre ++ tail) 0
  pub state :
      td' ≡ record td { header = record (td.header) { off_e = td'.header.off_e }; mem = td'.mem }
  pub outside : (a k : ℕ) → AwayFree a k pre → slice td'.mem a k ≡ slice td.mem a k

module _ (td : Td) (word : td.header.size < word_mod) (c : Free) (q : ℕ) (w : IsWord q)
    (tail : List Free) (goes_on : Linked td.header.size td.mem q tail 0) where
  relink_behind :
      (xs : List Free) (l : Free)
      → Linked td.header.size td.mem td.header.off_e (xs ++ (l ∷ [])) c.ptr
      → Disjoint ((xs ++ (l ∷ [])) ++ tail)
      → Beside c l
      → 16 ≤ c.size
      → (td' : Td) × (relink c.ptr l.ptr q td ≡ ok tt td') × Relinked td td' (xs ++ (l ∷ [])) tail
  unfolding relink td_write_uint
  relink_behind xs l h d beside room =
      let (p, before, (e, at, to)) =
        Linked-split td.header.size td.mem td.header.off_e c.ptr xs (l ∷ []) h in
      let d' : Disjoint (xs ++ (l ∷ tail)) = subst Disjoint (append_assoc xs (l ∷ []) tail) d in
      let (l_xs, l_tail, rest) = Disjoint-middle xs l tail d' in
      let m' = blit td.mem l.ptr (word_bytes q) in
      let agree : Agree td.mem m' l.ptr 4 =
        λ p apart. link_at-other td.mem l.ptr q p (ground arith) in
      let same_xs =
        SameHeads-Agree td.header.size td.mem m' l.ptr 4 l td.header.off_e p xs agree (omega arith)
          (omega (arith, at.room)) l_xs before in
      let same_tail =
        SameHeads-Agree td.header.size td.mem m' l.ptr 4 l q 0 tail agree (omega arith)
          (omega (arith, at.room)) l_tail goes_on in
      let at' : FreeIn td.header.size m' l = record {
        low = at.low;
        room = at.room;
        high = at.high;
        size_eq = agree (l.ptr + 4) (inr (omega arith)) ∙ at.size_eq;
      } in
      let differ : (l.ptr == c.ptr) ≡ false = ground (arith, at.room) in
      (
        record td { mem = m' },
        rw
            (
              differ,
              td_write-ok td l.ptr (word_bytes q)
                  (record { low = at.low; high = omega (arith, at.room, at.high); word = word }),
            )
            refl,
        record {
          linked =
              Linked-append td.header.size m' td.header.off_e q 0 (xs ++ (l ∷ [])) tail
                (Linked-append td.header.size m' td.header.off_e p q xs (l ∷ [])
                  (Linked-same td.header.size td.mem m' td.header.off_e p xs same_xs before)
                  (e, at', link_at_self td.mem l.ptr q w))
                (Linked-same td.header.size td.mem m' q 0 tail same_tail goes_on);
          state = refl;
          outside = λ a k away.
              let r = AwayFree-append a k xs (l ∷ []) away in
              slice-blit_outside td.mem l.ptr (word_bytes q) a k (ground (arith, at.room, r.1.0));
        },
      )

  -- `relink` with the chunk before `c`, or `c` itself where it is the first.
  pub relink-Relinked :
      (pre : List Free)
      → Linked td.header.size td.mem td.header.off_e pre c.ptr
      → Disjoint (pre ++ tail)
      → BesideAll c pre
      → 16 ≤ c.size
      → (td' : Td) × (relink c.ptr (last_of c.ptr pre) q td ≡ ok tt td') × Relinked td td' pre tail
  unfolding relink
  relink-Relinked [] h d beside room =
      let first : (c.ptr == c.ptr) ≡ true = ground arith in
      (
        record td { header = record (td.header) { off_e = q } },
        rw first refl,
        record { linked = goes_on; state = refl; outside = λ a k away. refl },
      )
  relink-Relinked (f ∷ fs) h d beside room =
      let (xs, l, e) = snoc f fs in
      let b = BesideAll-append c xs (l ∷ []) (subst (BesideAll c) e beside) in
      let (td', run, r) =
        relink_behind xs l (subst (λ k. Linked td.header.size td.mem td.header.off_e k c.ptr) e h)
          (subst (λ k. Disjoint (k ++ tail)) e d) b.1.0 room in
      (
        td',
        ap (λ k. relink c.ptr k q td) (ap (last_of c.ptr) e ∙ last_of-snoc c.ptr xs l) ∙ run,
        subst (λ k. Relinked td td' k tail) (sym e) r,
      )
