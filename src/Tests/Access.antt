-- ===== src/Tests/Access.antt =====
-- The theorems on containers, streams, keys of td_push and the resource's bounds, at concrete inputs.
use sdbm_tree.Db.Increase.{AllZero, td_increase_key-none}
use sdbm_tree.Db.{td_increase_key}
use sdbm_tree.Common.{
  ℕ, ◌+◌, ◌%◌, ◌≤◌, ◌<◌, ◌≡◌, ◌⊎◌, List, [], ◌∷◌, ◌++◌, none, some, arith, length, take, drop,
  replicate, ◌↔◌,
}
use sdbm_tree.Types.{Td}
use sdbm_tree.Types.Error.{bounds}
use sdbm_tree.Machine.{ok, err, out_of_fuel}
use sdbm_tree.Io.{td_read, td_write}
use sdbm_tree.Io.Bounds.{Wrote, td_write-td_read, td_write-wraps}
use sdbm_tree.Tdt.{Tdt, bytes_of}
use sdbm_tree.Tdt.Extra.{tdt_append, tdt_prepend, tdt_insert, tdt_shift}
use sdbm_tree.Tdt.Contents.{Roomy, tdt_append-contents, tdt_insert-contents, tdt_prepend-tdt_insert}
use sdbm_tree.Tdt.Shifted.{tdt_shift-tdt_prepend}
use sdbm_tree.Stream.{bytes, Writer, td_store_value_stream, td_read_value_stream_write_chunk}
use sdbm_tree.Stream.Empty.{td_store_value_stream-hangs}
use sdbm_tree.Stream.Written.{Takes, td_read_value_stream_write_chunk-writes}
use sdbm_tree.Tests.Samples.{btree}

abbrev two : List ℕ
two = 1 ∷ (2 ∷ [])

abbrev four : List ℕ
four = 1 ∷ (2 ∷ (3 ∷ (4 ∷ [])))

td_write-td_read_example :
    ((btree.header.size < 50 + length two) × (td_write 50 two btree ≡ err bounds btree))
    ⊎ ((50 + length two ≤ btree.header.size)
        × ((td' : Td) × (td_write 50 two btree ≡ ok tt td')
            × Wrote btree td' 50 two
            × (td_read 50 (length two) td' ≡ ok two td')))
td_write-td_read_example = td_write-td_read btree 50 two (omega arith)

td_write-wraps_example :
    (td' : Td) × (td_write 4294967294 four btree ≡ ok tt td') × Wrote btree td' 4294967294 four
td_write-wraps_example =
    td_write-wraps btree 4294967294 four (omega arith) (omega arith) (omega arith) (omega arith)

abbrev letters : Tdt
letters = record { mem = some (97 ∷ (98 ∷ (0 ∷ []))); size = 2 }

letters-Roomy : Roomy (replicate 8 255) letters (length two)
letters-Roomy = record { filled = omega arith; enough = omega arith; word = omega arith }

tdt_append-contents_example :
    bytes_of (tdt_append (replicate 8 255) letters two) ≡ bytes_of letters ++ two
tdt_append-contents_example = tdt_append-contents (replicate 8 255) letters two letters-Roomy

tdt_insert-contents_example :
    bytes_of (tdt_insert (replicate 8 255) letters (some 1) two)
    ≡ take (1 % 2) (bytes_of letters) ++ (two ++ drop (1 % 2) (bytes_of letters))
tdt_insert-contents_example =
    tdt_insert-contents (replicate 8 255) letters two letters-Roomy 1 (omega arith)

tdt_prepend-tdt_insert_example :
    tdt_prepend (replicate 8 255) letters two ≡ tdt_insert (replicate 8 255) letters (some 0) two
tdt_prepend-tdt_insert_example =
    tdt_prepend-tdt_insert (replicate 8 255) letters two letters-Roomy (omega arith)

tdt_shift-tdt_prepend_example :
    bytes_of (tdt_shift [] (tdt_prepend (replicate 8 255) letters two) 2 0 none) ≡ bytes_of letters
tdt_shift-tdt_prepend_example =
    tdt_shift-tdt_prepend (replicate 8 255) [] letters two letters-Roomy (omega arith) (omega arith)

td_store_value_stream-hangs_example :
    td_store_value_stream 9 [] (bytes [] ∷ []) 1 0 btree ≡ out_of_fuel
td_store_value_stream-hangs_example = td_store_value_stream-hangs 9 1 [] 1 0 btree

-- Every call takes one byte.
abbrev one_by_one : Writer
one_by_one written chunk = 1

one_by_one-Takes : Takes one_by_one
one_by_one-Takes written b chunk = (omega arith, omega arith)

td_read_value_stream_write_chunk-writes_example :
    td_read_value_stream_write_chunk one_by_one [] four btree ≡ ok four btree
td_read_value_stream_write_chunk-writes_example =
    td_read_value_stream_write_chunk-writes one_by_one [] four btree one_by_one-Takes

td_increase_key-none_example : (td_increase_key (0 ∷ (0 ∷ [])) ≡ none) ↔ AllZero (0 ∷ (0 ∷ []))
td_increase_key-none_example = td_increase_key-none (0 ∷ (0 ∷ []))
