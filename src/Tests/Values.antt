-- ===== src/Tests/Values.antt =====
-- The theorems on values, on a chain of one chunk.
use mathlib.Core.Bool.{false≢true}
use sdbm_tree.Common.{ℕ, ◌+◌, ◌≤◌, ◌≡◌, ◌⊎◌, refl, inr, [], ◌∷◌, ◌++◌, true, some, arith}
use sdbm_tree.Types.{Td, alloctdt}
use sdbm_tree.Machine.{ok}
use sdbm_tree.Memory.{slice, blit}
use sdbm_tree.Tdt.{Tdt, empty, bytes_of}
use sdbm_tree.Init.{td_init}
use sdbm_tree.Value.{td_store_valuechunk, td_read_value}
use sdbm_tree.Value.Chunks.{Chunk, ChunkAt}
use sdbm_tree.Value.Read.{Allocates, td_read_value-contents}
use sdbm_tree.Value.Store.{extent, td_store_valuechunk-td_read_value}
use sdbm_tree.Tests.{machine}

-- The chunk at 100: no next one, 17 bytes with its head, one reference.
abbrev valued : Td
valued =
    let td = td_init (
      blit (λ a. 0) 100
        (0 ∷ 0 ∷ 0 ∷ 0 ∷ 17 ∷ 0 ∷ 0 ∷ 0 ∷ 0 ∷ 0 ∷ 0 ∷ 0 ∷ 1 ∷ 0 ∷ 0 ∷ 0 ∷ 120 ∷ [])) in
    record td { header = record (td.header) { size = 200 }; realloc = some (λ n. true) }

abbrev last_chunk : Chunk
last_chunk = record { ptr = 100; bytes = 120 ∷ [] }

abbrev new_chunk : Chunk
new_chunk = record { ptr = 60; bytes = 121 ∷ (122 ∷ []) }

last_chunk-ChunkAt : ChunkAt valued alloctdt last_chunk 0
unfolding machine
last_chunk-ChunkAt = record {
  low = omega arith;
  high = omega arith;
  word = omega arith;
  size_eq = refl;
  next_eq = refl;
  bytes_eq = refl;
  sum = λ on. absurd (false≢true on);
}

valued-Allocates : Allocates valued
unfolding td_init
valued-Allocates = record { realloc = λ n. true; is_set = refl; gives = λ n. refl }

td_read_value-contents_example :
    (v : Tdt) × (td_read_value 100 empty alloctdt valued ≡ ok v valued) × (bytes_of v ≡ 120 ∷ [])
unfolding machine
td_read_value-contents_example =
    td_read_value-contents valued valued-Allocates alloctdt last_chunk [] refl
      (last_chunk-ChunkAt, tt) (omega arith) (omega arith)

td_store_valuechunk-td_read_value_example :
    (td' : Td) × (td_store_valuechunk 60 100 (121 ∷ (122 ∷ [])) 1 alloctdt valued ≡ ok tt td')
    × ((a n : ℕ)
        → (a + n ≤ 60) ⊎ (60 + extent new_chunk ≤ a)
        → slice td'.mem a n ≡ slice valued.mem a n)
    × ((v : Tdt) × (td_read_value 60 empty alloctdt td' ≡ ok v td')
        × (bytes_of v ≡ (121 ∷ (122 ∷ [])) ++ (120 ∷ [])))
unfolding machine
td_store_valuechunk-td_read_value_example =
    td_store_valuechunk-td_read_value valued alloctdt 1 new_chunk (last_chunk ∷ []) valued-Allocates
      (record { low = omega arith; high = omega arith; word = omega arith }) (omega arith)
      (omega arith) refl (last_chunk-ChunkAt, tt) (inr (omega arith), tt) (omega arith)
      (omega arith)
