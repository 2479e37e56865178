-- ===== src/Space/Scan.antt =====
-- The first loop of td_claim_ (td_claim.c): the search of the free chunks.
use mathlib.Core.List.{append_assoc, append-nil}
use sdbm_tree.Common.{
  ℕ, zero, suc, ◌<◌, ◌≡◌, refl, sym, subst, ap, ◌∙◌, ◌⊎◌, inl, inr, Bool, true, false, List, [],
  ◌∷◌, ◌++◌, arith, length, length-append, ◌==◌, word_mod, Bool-cases, sub32,
}
use sdbm_tree.Types.{Td, Chunkhead}
use sdbm_tree.Machine.{Run, ok}
use sdbm_tree.Io.{td_read_chunkhead}
use sdbm_tree.Io.Codec.{IsWord}
use sdbm_tree.Io.Frame.{chunk_at, td_read_chunkhead-ok}
use sdbm_tree.Space.{Fitrec, Scanned, perfect, table, enter, scan, relink, drop_empty}
use sdbm_tree.Space.Chain.{link_at}
use sdbm_tree.Space.Free.{
  Free, Linked, Disjoint, first_ptr, last_of, Disjoint-middle, Linked-append, Linked-first,
  next-chunk_at, size-chunk_at,
}
use sdbm_tree.Space.Relink.{Relinked, relink-Relinked, last_of-snoc}
use sdbm_tree.Space.Fit.{
  Usable, AllUnfit, AllUnfit-snoc, AllPick, AllPick-snoc, Entered, enter-Entered,
}

-- A perfect fit, which is taken out of the list.
pub record Hit (td : Td) (ps : List Free) (s : ℕ) (run : Run Scanned) : Type 0 where
  pub pre : List Free
  pub chunk : Free
  pub post : List Free
  pub split : ps ≡ pre ++ (chunk ∷ post)
  pub size_eq : chunk.size ≡ s
  pub after : Td
  pub run_eq :
      run
      ≡ ok (perfect chunk.ptr) (record after {
        header = record (after.header) { nempties = sub32 after.header.nempties 1 };
      })
  pub relinked : Relinked td after pre post

-- The table, with nothing changed; it is empty only where no chunk serves.
pub record Listed (td : Td) (ps : List Free) (contiguous : Bool) (s : ℕ) (run : Run Scanned)
    : Type 0 where
  pub fits : List Fitrec
  pub run_eq : run ≡ ok (table fits) td
  pub picks : AllPick ps contiguous s fits
  pub none_fits : fits ≡ [] → AllUnfit contiguous s ps

module _ (td : Td) (word : td.header.size < word_mod) (ps : List Free) (contiguous : Bool) (s : ℕ)
    (apart : Disjoint ps) where
  -- The runs of a round.
  module _ (fuel ptr last : ℕ) (fits fits' : List Fitrec) (h : Chunkhead)
      (some : (ptr == 0) ≡ false) (reads : td_read_chunkhead ptr td ≡ ok h td)
      (enters : enter contiguous s ptr last h fits ≡ fits') where
    scan-hit :
        (td' : Td)
        → (s == h.size) ≡ true
        → relink ptr last h.next td ≡ ok tt td'
        → scan (suc fuel) contiguous s ptr last fits td
          ≡ ok (perfect ptr) (record td' {
            header = record (td'.header) { nempties = sub32 td'.header.nempties 1 };
          })
    unfolding scan drop_empty
    scan-hit td' e r = rw (some, reads, e, r) refl

    scan-full :
        (s == h.size) ≡ false
        → (length fits' == 8) ≡ true
        → scan (suc fuel) contiguous s ptr last fits td ≡ ok (table fits') td
    unfolding scan
    scan-full e f = rw (some, reads, enters, e, f) refl

    scan-next :
        (s == h.size) ≡ false
        → (length fits' == 8) ≡ false
        → scan (suc fuel) contiguous s ptr last fits td ≡ scan fuel contiguous s h.next ptr fits' td
    unfolding scan
    scan-next e f = rw (some, reads, enters, e, f) refl

  -- The table after a round, for a chunk that is no perfect fit.
  abbrev Grown : List Free → Free → List Fitrec → Type 0
  Grown pre c fits' =
      AllPick ps contiguous s fits' × (fits' ≡ [] → AllUnfit contiguous s (pre ++ (c ∷ [])))

  grow :
      (pre : List Free) (c : Free) (post : List Free) (last : ℕ) (fits fits' : List Fitrec)
      (h : Chunkhead)
      → ps ≡ pre ++ (c ∷ post)
      → h.next ≡ first_ptr post
      → h.size ≡ c.size
      → last ≡ last_of c.ptr pre
      → (h.size ≡ s → ⊥)
      → AllPick ps contiguous s fits
      → (fits ≡ [] → AllUnfit contiguous s pre)
      → Entered contiguous s c.ptr last h fits fits'
      → Grown pre c fits'
  grow pre c post last fits fits' h split next size lst no_hit picks unfit
        (inl (r, e, a, b, d, f, u)) =
      (
        subst (AllPick ps contiguous s) (sym e) (
            AllPick-snoc ps contiguous s fits r picks (record {
              pre = pre;
              chunk = c;
              post = post;
              split = split;
              ptr_eq = a;
              nxt_eq = b ∙ next;
              siz_eq = d ∙ size;
              lst_eq = f ∙ lst;
              usable = subst (Usable contiguous s) size u;
            })),
        λ z. absurd (omega (arith, ap length (sym e ∙ z), length-append {0} fits (r ∷ []))),
      )
  grow pre c post last fits fits' h split next size lst no_hit picks unfit (inr (e, u)) = (
    subst (AllPick ps contiguous s) (sym e) picks,
    λ z.
        AllUnfit-snoc contiguous s pre c (unfit (sym e ∙ z))
          (λ k. no_hit (size ∙ k), λ k. u (subst (Usable contiguous s) (sym size) k)),
  )

  abbrev pub Found : Run Scanned → Type 0
  Found run = Hit td ps s run ⊎ Listed td ps contiguous s run

  pub scan-Found :
      (fuel ptr last : ℕ) (fits : List Fitrec) (pre post : List Free)
      → length post < fuel
      → ps ≡ pre ++ post
      → Linked td.header.size td.mem td.header.off_e pre ptr
      → Linked td.header.size td.mem ptr post 0
      → last ≡ last_of ptr pre
      → AllPick ps contiguous s fits
      → (fits ≡ [] → AllUnfit contiguous s pre)
      → Found (scan fuel contiguous s ptr last fits td)
  unfolding scan
  scan-Found zero ptr last fits pre post few split before behind lst picks unfit =
      absurd (omega arith)
  scan-Found (suc fuel) ptr last fits pre [] few split before behind lst picks unfit =
      let e : (ptr == 0) ≡ true = ground (arith, behind) in
      inr (record {
        fits = fits;
        run_eq = rw e refl;
        picks = picks;
        none_fits = λ z. subst (AllUnfit contiguous s) (sym (split ∙ append-nil pre)) (unfit z);
      })
  scan-Found (suc fuel) ptr last fits pre (c ∷ post) few split before (e, at, behind) lst picks
        unfit =
      subst (λ k. Found (scan (suc fuel) contiguous s k last fits td)) (sym e)
        (elim (Bool-cases (s == h.size)) [
          | inl hit ↦
              let (c_pre, c_post, rest) = Disjoint-middle pre c post (subst Disjoint split apart) in
              let q_eq = Linked-first td.header.size td.mem (link_at td.mem c.ptr) post behind in
              let (td', run, r) =
                relink-Relinked td word c (link_at td.mem c.ptr) (link_IsWord post behind) post
                  behind pre (subst (Linked td.header.size td.mem td.header.off_e pre) e before)
                  rest c_pre at.room in
              inl (record {
                pre = pre;
                chunk = c;
                post = post;
                split = split;
                size_eq = sym size ∙ ground (arith, hit);
                after = td';
                run_eq = scan-hit fuel c.ptr last fits fits' h some reads refl td' hit (
                    ap (λ k. relink c.ptr k h.next td) lst'
                    ∙ ap (λ k. relink c.ptr (last_of c.ptr pre) k td) next
                    ∙ run);
                relinked = r;
              })
          | inr miss ↦
              let (picks', unfit') =
                grow pre c post last fits fits' h split
                  (next ∙ Linked-first td.header.size td.mem (link_at td.mem c.ptr) post behind)
                  size lst' (λ k. ground (arith, miss)) picks unfit
                  (enter-Entered contiguous s c.ptr last h fits (omega (arith, at.room, size))
                    (omega (arith, at.high, size, word))) in
              elim (Bool-cases (length fits' == 8)) [
                | inl full ↦ inr (record {
                  fits = fits';
                  run_eq = scan-full fuel c.ptr last fits fits' h some reads refl miss full;
                  picks = picks';
                  none_fits = λ z. absurd (full_not_empty z full);
                })
                | inr free ↦
                    subst Found
                      (sym (scan-next fuel c.ptr last fits fits' h some reads refl miss free))
                      (subst (λ k. Found (scan fuel contiguous s k c.ptr fits' td)) (sym next)
                        (scan-Found fuel (link_at td.mem c.ptr) c.ptr fits' (pre ++ (c ∷ [])) post
                          (omega arith) (split ∙ sym (append_assoc pre (c ∷ []) post))
                          (Linked-append td.header.size td.mem td.header.off_e c.ptr
                            (link_at td.mem c.ptr) pre (c ∷ [])
                            (subst (Linked td.header.size td.mem td.header.off_e pre) e before)
                            (refl, at, refl))
                          behind (sym (last_of-snoc (link_at td.mem c.ptr) pre c)) picks' unfit'))
              ]
        ])
    where
      h : Chunkhead
      h = chunk_at td.mem c.ptr

      fits' : List Fitrec
      fits' = enter contiguous s c.ptr last h fits

      some : (c.ptr == 0) ≡ false
      some = ground (arith, at.low)

      reads : td_read_chunkhead c.ptr td ≡ ok h td
      reads =
          td_read_chunkhead-ok td c.ptr
            (record { low = at.low; high = omega (arith, at.room, at.high); word = word })

      next : h.next ≡ link_at td.mem c.ptr
      next = next-chunk_at td.mem c.ptr

      size : h.size ≡ c.size
      size = size-chunk_at td.mem c.ptr ∙ at.size_eq

      lst' : last ≡ last_of c.ptr pre
      lst' = lst ∙ ap (λ k. last_of k pre) e

      link_IsWord :
          (xs : List Free)
          → Linked td.header.size td.mem (link_at td.mem c.ptr) xs 0
          → IsWord (link_at td.mem c.ptr)
      link_IsWord [] l = omega (arith, l)
      link_IsWord (x ∷ xs) (l, at_x, l') = omega (arith, l, at_x.high, at_x.room, word)

      full_not_empty : fits' ≡ [] → (length fits' == 8) ≡ true → ⊥
      full_not_empty z f = ground (arith, ap length z)
