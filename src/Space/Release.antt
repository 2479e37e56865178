-- ===== src/Space/Release.antt =====
-- td_yield_all on the list of free chunks: the chunks of a value, linked as free ones are.
use sdbm_tree.Common.{
  ℕ, zero, suc, ◌+◌, ◌≤◌, ◌<◌, ◌≡◌, refl, ap, ◌∙◌, List, [], ◌∷◌, ◌++◌, arith, length, word_mod,
  word_bytes, true, false, ◌==◌,
}
use sdbm_tree.Types.{Td, wipedeleted, has_flag}
use sdbm_tree.Machine.{ok}
use sdbm_tree.Memory.{slice}
use sdbm_tree.Memory.Laws.{slice-blit_outside}
use sdbm_tree.Space.{td_yield_all, yield_loop}
use sdbm_tree.Space.Chain.{link_at, link_at-other, yielded, uncounted, yield_loop-round}
use sdbm_tree.Space.Free.{
  Free, FreeIn, Linked, Disjoint, Disjoint-insert, BesideAll-append, Linked-same,
}
use sdbm_tree.Space.Relink.{AwayFree, Agree, SameHeads-Agree}
use sdbm_tree.Space.Hold.{FreeAt}
use sdbm_tree.Space.Return.{yielded-FreeAt}

-- The free chunks with others in front, the last one first.
abbrev pub released : List Free → List Free → List Free
released [] ps = ps
released (v ∷ vs) ps = released vs (v ∷ ps)

-- The state with another free list, other counts of chunks, and other bytes.
abbrev pub respaced : Td → Td → Td
respaced td td' = record td {
  header = record (td.header) {
    off_e = td'.header.off_e;
    nempties = td'.header.nempties;
    nchunks = td'.header.nchunks;
  };
  mem = td'.mem;
}

-- The chunks `vs` were given back, and no byte outside them has changed.
pub record Released (td td' : Td) (vs free_after : List Free) : Type 0 where
  pub free : FreeAt td' free_after
  pub state : td' ≡ respaced td td'
  pub outside : (a k : ℕ) → AwayFree a k vs → slice td'.mem a k ≡ slice td.mem a k

pub yield-Released :
    (td : Td) (v : Free) (ps : List Free)
    → FreeAt td ps
    → has_flag td.header.flags wipedeleted ≡ false
    → FreeIn td.header.size td.mem v
    → Disjoint (v ∷ ps)
    → length ps + 1 < word_mod
    → Released td (yielded td v.ptr) (v ∷ []) (v ∷ ps)
yield-Released td v ps f keep at d short = record {
  free = yielded-FreeAt td v ps f keep at d.0 short;
  state = refl;
  outside = λ a k away.
      let here = away.0 in
      slice-blit_outside td.mem v.ptr (word_bytes td.header.off_e) a k
        (ground (arith, here, at.room));
}

yield_loop-Released :
    (fuel : ℕ) (td : Td) (ptr : ℕ) (vs ps : List Free)
    → length vs < fuel
    → FreeAt td ps
    → has_flag td.header.flags wipedeleted ≡ false
    → Linked td.header.size td.mem ptr vs 0
    → Disjoint (vs ++ ps)
    → length ps + length vs < word_mod
    → (td' : Td) × (yield_loop fuel ptr td ≡ ok tt td') × Released td td' vs (released vs ps)
unfolding yield_loop
yield_loop-Released zero td ptr vs ps h f keep l d short = absurd (omega arith)
yield_loop-Released (suc fuel) td ptr [] ps h f keep l d short =
    let e : (ptr == 0) ≡ true = ground (arith, l) in
    (td, rw e refl, record { free = f; state = refl; outside = λ a k away. refl })
yield_loop-Released (suc fuel) td ptr (v ∷ vs) ps h f keep (e, at, l) d short =
    let td1 = uncounted (yielded td v.ptr) in
    let beside = BesideAll-append v vs ps d.0 in
    let agree : Agree td.mem td1.mem v.ptr 4 =
      λ q apart. link_at-other td.mem v.ptr td.header.off_e q (ground (arith, apart)) in
    let one = yielded-FreeAt td v ps f keep at beside.1 (omega (arith, short)) in
    let (td', run, r) =
      yield_loop-Released fuel td1 (link_at td.mem v.ptr) vs (v ∷ ps) (omega arith)
        (record {
          word = one.word;
          linked = one.linked;
          disjoint = one.disjoint;
          count = one.count;
        })
        keep
        (Linked-same td.header.size td.mem td1.mem (link_at td.mem v.ptr) 0 vs
          (SameHeads-Agree td.header.size td.mem td1.mem v.ptr 4 v (link_at td.mem v.ptr) 0 vs agree
            (omega arith) (omega (arith, at.room)) beside.0 l)
          l)
        (Disjoint-insert vs v ps beside.0 beside.1 d.1) (omega (arith, short)) in
    (
      td',
      ap (λ k. yield_loop (suc fuel) k td) e
          ∙ yield_loop-round fuel td v.ptr f.word at.low (omega (arith, at.room, at.high)) keep
          ∙ run,
      record {
        free = r.free;
        state = r.state;
        outside = λ a k away.
            let here = away.0 in
            r.outside a k away.1
            ∙ slice-blit_outside td.mem v.ptr (word_bytes td.header.off_e) a k
                (ground (arith, here, at.room));
      },
    )

pub td_yield_all-Released :
    (td : Td) (ptr : ℕ) (vs ps : List Free)
    → length vs ≤ td.header.size
    → FreeAt td ps
    → has_flag td.header.flags wipedeleted ≡ false
    → Linked td.header.size td.mem ptr vs 0
    → Disjoint (vs ++ ps)
    → length ps + length vs < word_mod
    → (td' : Td) × (td_yield_all ptr td ≡ ok tt td') × Released td td' vs (released vs ps)
unfolding td_yield_all
td_yield_all-Released td ptr vs ps few f keep l d short =
    yield_loop-Released (td.header.size + 1) td ptr vs ps (omega arith) f keep l d short
