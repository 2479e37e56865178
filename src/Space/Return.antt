-- ===== src/Space/Return.antt =====
-- td_yield on the list of free chunks, and td_claim after it.
use sdbm_tree.Common.{
  ℕ, ◌+◌, ◌≤◌, ◌<◌, ◌≡◌, ◌⊎◌, refl, sym, subst, ◌∙◌, inl, inr, Bool, false, List, [], ◌∷◌, none,
  arith, length, word_mod, word_bytes,
}
use sdbm_tree.Types.{Td, wipedeleted, has_flag, Memory}
use sdbm_tree.Machine.{ok}
use sdbm_tree.Memory.{slice}
use sdbm_tree.Memory.Laws.{slice-blit_outside}
use sdbm_tree.Io.Codec.{IsWord}
use sdbm_tree.Space.{td_yield, td_claim, td_align}
use sdbm_tree.Space.Chain.{link_at_self, link_at-other, yielded, td_yield-ok}
use sdbm_tree.Space.Free.{Free, FreeIn, Linked, BesideAll, Linked-same}
use sdbm_tree.Space.Relink.{Agree, SameHeads-Agree}
use sdbm_tree.Space.Hold.{FreeAt, Claimed}
use sdbm_tree.Space.Grant.{td_claim-Claimed}

first_IsWord :
    (limit : ℕ) (m : Memory) (p : ℕ) (xs : List Free)
    → limit < word_mod
    → Linked limit m p xs 0
    → IsWord p
first_IsWord limit m p [] word l = omega (arith, l)
first_IsWord limit m p (x ∷ xs) word (l, at, l') = omega (arith, l, at.high, at.room, word)

module _ (td : Td) (c : Free) (ps : List Free) (f : FreeAt td ps)
    (keep : has_flag td.header.flags wipedeleted ≡ false) (at : FreeIn td.header.size td.mem c)
    (beside : BesideAll c ps) (short : length ps + 1 < word_mod) where
  pub yielded-FreeAt : FreeAt (yielded td c.ptr) (c ∷ ps)
  yielded-FreeAt =
      let first = first_IsWord td.header.size td.mem td.header.off_e ps f.word f.linked in
      let agree : Agree td.mem (yielded td c.ptr).mem c.ptr 4 =
        λ q apart. link_at-other td.mem c.ptr td.header.off_e q (ground (arith, apart)) in
      record {
        word = f.word;
        linked = (
          refl,
          record {
            low = at.low;
            room = at.room;
            high = at.high;
            size_eq = agree (c.ptr + 4) (inr (omega arith)) ∙ at.size_eq;
          },
          subst (λ j. Linked td.header.size (yielded td c.ptr).mem j ps 0)
              (sym (link_at_self td.mem c.ptr td.header.off_e first))
              (Linked-same td.header.size td.mem (yielded td c.ptr).mem td.header.off_e 0 ps
                (SameHeads-Agree td.header.size td.mem (yielded td c.ptr).mem c.ptr 4 c
                  td.header.off_e 0 ps agree (omega arith) (omega (arith, at.room)) beside f.linked)
                f.linked),
        );
        disjoint = (beside, f.disjoint);
        count = omega (arith, f.count, short);
      }

  -- td_yield of a chunk beside the free ones, behind the header and within the resource, with its size
  -- in its second word, where TDFLG_WIPEDELETED is off and the count of the free chunks does not wrap:
  -- it returns with no error, the chunk is the first of the free list, which is well-formed again, and
  -- no byte outside its first word changes.
  pub td_yield-FreeAt :
      (td' : Td) × (td_yield c.ptr td ≡ ok tt td')
      × FreeAt td' (c ∷ ps)
      × ((a n : ℕ) → (a + n ≤ c.ptr) ⊎ (c.ptr + 4 ≤ a) → slice td'.mem a n ≡ slice td.mem a n)
  td_yield-FreeAt = (
    yielded td c.ptr,
    td_yield-ok td c.ptr f.word at.low (omega (arith, at.room, at.high)) keep,
    yielded-FreeAt,
    λ a n apart.
        slice-blit_outside td.mem c.ptr (word_bytes td.header.off_e) a n (ground (arith, apart)),
  )

  -- After td_yield of a chunk beside the free ones, behind the header and within the resource, with its
  -- size in its second word, where TDFLG_WIPEDELETED is off, the count of the free chunks does not wrap
  -- and they are not more than the resource has bytes: a td_claim of as many bytes as the chunk has,
  -- if td_align leaves that size, returns with no error also where the resource cannot be extended,
  -- and what it grants is from the free chunks.
  pub td_yield-td_claim :
      (contiguous : Bool)
      → td_align td.header.align c.size ≡ c.size
      → length ps + 1 ≤ td.header.size
      → td.extend ≡ none
      → (td' : Td) × (td_yield c.ptr td ≡ ok tt td')
        × ((off : ℕ) × (given : ℕ) × (td'' : Td) × (td_claim contiguous c.size td'
              ≡ ok (off, given) td'')
            × Claimed td' td'' (c ∷ ps) contiguous c.size off given)
  td_yield-td_claim contiguous aligned few fixed = (
    yielded td c.ptr,
    td_yield-ok td c.ptr f.word at.low (omega (arith, at.room, at.high)) keep,
    elim (td_claim-Claimed (yielded td c.ptr) (c ∷ ps) contiguous c.size yielded-FreeAt
        (omega (arith, few)) fixed) [
          | inl (off, given, td'', run, claim) ↦ (
            off,
            given,
            td'',
            run,
            subst (λ s. Claimed (yielded td c.ptr) td'' (c ∷ ps) contiguous s off given) aligned
                claim,
          )
          | inr (run, unfit) ↦ absurd (unfit.0.0 (sym aligned))
        ],
  )
