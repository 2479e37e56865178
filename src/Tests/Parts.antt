-- ===== src/Tests/Parts.antt =====
-- The theorems on the other parts, at concrete inputs.
use sdbm_tree.Space.Return.{td_yield-FreeAt, td_yield-td_claim}
use sdbm_tree.Space.Hold.{FreeAt, Claimed}
use sdbm_tree.Space.Grant.{td_claim-Claimed}
use sdbm_tree.Space.Fit.{AllUnfit}
use sdbm_tree.Space.Free.{Free, FreeIn}
use sdbm_tree.Common.{
  ℕ, ◌%◌, ◌≤◌, ◌<◌, ◌≡◌, ◌↔◌, refl, inl, inr, List, [], ◌∷◌, Option, none, some, Bool, true, false,
  arith, take, ◌⊎◌, ◌+◌, if◌then◌else◌,
}
use sdbm_tree.Types.{Td, Error, Header}
use sdbm_tree.Types.Cmp.{less, equal}
use sdbm_tree.Types.Error.{lock_error, space}
use sdbm_tree.Machine.{ok, err}
use sdbm_tree.Memory.{blit, slice}
use sdbm_tree.Io.{td_write_header, td_read_header}
use sdbm_tree.Io.Codec.{HeaderWords}
use sdbm_tree.Io.Stored.{Laid, td_write_header-td_read_header}
use sdbm_tree.Compare.{td_compare}
use sdbm_tree.Compare.Order.{flip, td_compare_order, td_compare-partial}
use sdbm_tree.Sort.{td_qsort}
use sdbm_tree.Sort.Laws.{IsSorted, occurrences, td_qsort_sorts}
use sdbm_tree.Space.{td_align, td_yield_all, td_claim, td_yield}
use sdbm_tree.Space.Align.{td_align-least}
use sdbm_tree.Space.Chain.{Giving, GivenBack, td_yield_all-GivenBack}
use sdbm_tree.Balance.{td_log2}
use sdbm_tree.Balance.Log2.{HasBits, td_log2-bits}
use sdbm_tree.Lock.{locked, td_lock}
use sdbm_tree.Lock.Bracket.{
  LeavesLock, entered, outcome, asked, refused_or, released_or, locked-answers, td_lock-refused,
}
use sdbm_tree.Db.{td_get_locked}
use sdbm_tree.Tests.Samples.{btree}
use sdbm_tree.Init.{td_init}
use sdbm_tree.Tests.{machine}

abbrev key_a : List ℕ
key_a = 97 ∷ []

abbrev key_ab : List ℕ
key_ab = 97 ∷ (98 ∷ [])

abbrev key_b : List ℕ
key_b = 98 ∷ []

td_compare_order_example :
    ((td_compare key_a key_ab false ≡ equal) ↔ (key_a ≡ key_ab))
    × (td_compare key_ab key_a false ≡ flip (td_compare key_a key_ab false))
    × (td_compare key_a key_ab false ≡ less
        → td_compare key_ab key_b false ≡ less
        → td_compare key_a key_b false ≡ less)
td_compare_order_example = td_compare_order key_a key_ab key_b

td_compare-partial_example :
    (td_compare key_a key_ab true ≡ equal) ↔ ((1 ≤ 2) × (take 1 key_ab ≡ key_a))
td_compare-partial_example = td_compare-partial key_a key_ab

td_qsort_sorts_example :
    IsSorted (td_qsort (3 ∷ (1 ∷ (2 ∷ (1 ∷ [])))))
    × ((a : ℕ)
        → occurrences a (td_qsort (3 ∷ (1 ∷ (2 ∷ (1 ∷ [])))))
          ≡ occurrences a (3 ∷ (1 ∷ (2 ∷ (1 ∷ [])))))
td_qsort_sorts_example = td_qsort_sorts (3 ∷ (1 ∷ (2 ∷ (1 ∷ []))))

td_align-least_example : (td_align 8 13 % 8 ≡ 0) × (13 ≤ td_align 8 13) × (td_align 8 13 < 21)
td_align-least_example = td_align-least 8 13 (inr (omega arith))

td_log2-bits_example : HasBits 9 (td_log2 9)
td_log2-bits_example = td_log2-bits 9 (omega arith)

-- A lock callback that grants the lock and refuses its release.
abbrev keeping : Bool → Option Error
keeping b = if b then none else some lock_error

abbrev kept : Td
kept = record btree { lock = some keeping }

-- A search for "b".
locked-answers_example :
    (outcome (locked (td_get_locked key_b none 0) kept)
      ≡ refused_or (asked (some keeping) 0 true) (
          released_or
            (asked (some keeping) 0 false)
            (outcome (td_get_locked key_b none 0 (entered kept)))))
    × LeavesLock kept (locked (td_get_locked key_b none 0) kept)
unfolding machine
locked-answers_example = locked-answers kept (omega arith) (td_get_locked key_b none 0) (refl, refl)

abbrev refusing : Bool → Option Error
refusing b = some lock_error

abbrev refused : Td
refused = record (td_init (λ a. 0)) { lock = some refusing }

td_lock-refused_example :
    (td_lock refused ≡ err lock_error (record refused { locked = 1 }))
    × (td_lock (record refused { locked = 1 }) ≡ ok tt (record refused { locked = 2 }))
unfolding machine
td_lock-refused_example = td_lock-refused refused refusing lock_error refl refl refl

-- The chunks of a value at 100 and 200, and a free chunk at 44.
abbrev holding : Td
holding =
    let td = td_init (λ a. 0) in
    record td {
      header = record (td.header) { size = 300; off_e = 44; nempties = 1; nchunks = 2 };
      mem = blit td.mem 100 (200 ∷ []);
    }

giving : Giving holding 100 (100 ∷ (200 ∷ [])) (44 ∷ [])
unfolding machine
giving = record {
  word = omega arith;
  keep = refl;
  off_e = omega arith;
  chunks = (refl, omega arith, omega arith, (refl, omega arith, omega arith, refl));
  free = (refl, omega arith, omega arith, refl);
  spread = ((inl (omega arith), tt), (tt, tt));
  away = ((inr (omega arith), tt), ((inr (omega arith), tt), tt));
  empties = omega arith;
  counted = omega arith;
  counted_word = omega arith;
}

td_yield_all-GivenBack_example :
    (td' : Td) × (td_yield_all 100 holding ≡ ok tt td')
    × GivenBack holding td' (100 ∷ (200 ∷ [])) (44 ∷ [])
td_yield_all-GivenBack_example =
    td_yield_all-GivenBack holding 100 (100 ∷ (200 ∷ [])) (44 ∷ []) (omega arith) giving

abbrev some_header : Header
some_header = record (holding.header) { magic0 = 116; flags = 128; top = 44; align = 8 }

some_header-HeaderWords : HeaderWords some_header
unfolding machine
some_header-HeaderWords = record {
  flags = omega arith;
  size = omega arith;
  align = omega arith;
  top = omega arith;
  level = omega arith;
  off_e = omega arith;
  scn = omega arith;
  nentries = omega arith;
  nempties = omega arith;
  nchunks = omega arith;
}

td_write_header-td_read_header_example :
    (td' : Td) × (td_write_header (record holding { header = some_header }) ≡ ok tt td')
    × (td_read_header (record td' { header = holding.header }) ≡ ok tt td')
    × Laid td' some_header
    × ((p n : ℕ) → 44 ≤ p → slice td'.mem p n ≡ slice holding.mem p n)
td_write_header-td_read_header_example =
    td_write_header-td_read_header (record holding { header = some_header }) holding.header
      some_header-HeaderWords (omega arith) (omega arith)

-- Free chunks of 16 bytes at 44 and of 40 bytes at 60, and a chunk of 40 bytes at 100 in use.
abbrev freed : Td
freed = record holding {
  header = record (holding.header) { size = 140; off_e = 44; nempties = 2; align = 1 };
  mem =
      blit
        (blit (blit (λ a. 0) 44 (60 ∷ (0 ∷ (0 ∷ (0 ∷ (16 ∷ (0 ∷ (0 ∷ (0 ∷ []))))))))) 60
          (0 ∷ (0 ∷ (0 ∷ (0 ∷ (40 ∷ (0 ∷ (0 ∷ (0 ∷ [])))))))))
        104 (40 ∷ []);
}

abbrev free_chunks : List Free
free_chunks = record { ptr = 44; size = 16 } ∷ (record { ptr = 60; size = 40 } ∷ [])

freed-FreeAt : FreeAt freed free_chunks
unfolding machine
freed-FreeAt = record {
  word = omega arith;
  linked = (
    refl,
    record { low = omega arith; room = omega arith; high = omega arith; size_eq = refl },
    (
      refl,
      record { low = omega arith; room = omega arith; high = omega arith; size_eq = refl },
      refl,
    ),
  );
  disjoint = ((inl (omega arith), tt), (tt, tt));
  count = refl;
}

td_claim-Claimed_example :
    ((off : ℕ) × (given : ℕ) × (td' : Td) × (td_claim true 20 freed ≡ ok (off, given) td')
      × Claimed freed td' free_chunks true (td_align 1 20) off given)
    ⊎ ((td_claim true 20 freed ≡ err space freed) × AllUnfit true (td_align 1 20) free_chunks)
unfolding td_init
td_claim-Claimed_example =
    td_claim-Claimed freed free_chunks true 20 freed-FreeAt (omega arith) refl

abbrev in_use : Free
in_use = record { ptr = 100; size = 40 }

in_use-FreeIn : FreeIn freed.header.size freed.mem in_use
unfolding machine
in_use-FreeIn = record { low = omega arith; room = omega arith; high = omega arith; size_eq = refl }

td_yield-FreeAt_example :
    (td' : Td) × (td_yield 100 freed ≡ ok tt td')
    × FreeAt td' (in_use ∷ free_chunks)
    × ((a n : ℕ) → (a + n ≤ 100) ⊎ (104 ≤ a) → slice td'.mem a n ≡ slice freed.mem a n)
unfolding machine
td_yield-FreeAt_example =
    td_yield-FreeAt freed in_use free_chunks freed-FreeAt refl in_use-FreeIn
      (inr (omega arith), (inr (omega arith), tt)) (omega arith)

td_yield-td_claim_example :
    (td' : Td) × (td_yield 100 freed ≡ ok tt td')
    × ((off : ℕ) × (given : ℕ) × (td'' : Td) × (td_claim true 40 td' ≡ ok (off, given) td'')
        × Claimed td' td'' (in_use ∷ free_chunks) true 40 off given)
unfolding machine
td_yield-td_claim_example =
    td_yield-td_claim freed in_use free_chunks freed-FreeAt refl in_use-FreeIn
      (inr (omega arith), (inr (omega arith), tt)) (omega arith) true refl (omega arith) refl
