-- ===== src/Tests.antt =====
-- Runs of the model at concrete inputs; the theorems at concrete inputs are in the children.
pub mod Samples
pub mod Trees
pub mod Cursors
pub mod Updates
pub mod Backends
pub mod Values
pub mod Access
pub mod Parts
use sdbm_tree.Common.{ℕ, ◌≡◌, refl, true, List, [], ◌∷◌, Option, none, some}
use sdbm_tree.Common
use sdbm_tree.Types
use sdbm_tree.Types.{Td, Header}
use sdbm_tree.Machine
use sdbm_tree.Machine.{Run, Cmd, Command, ok, and_then, ◌>>=◌, ◌>>◌, pure}
use sdbm_tree.Memory
use sdbm_tree.Io
use sdbm_tree.Compare
use sdbm_tree.Checksum
use sdbm_tree.Sort
use sdbm_tree.Space
use sdbm_tree.Tdt
use sdbm_tree.Value
use sdbm_tree.Search
use sdbm_tree.Balance
use sdbm_tree.Defrag
use sdbm_tree.Update
use sdbm_tree.Lock
use sdbm_tree.Db
use sdbm_tree.Init
use sdbm_tree.Verify
use sdbm_tree.Cursor

-- Everything that a run computes with.
unfoldable pub machine : Unit {0}
unfolding Machine.check2 Types.has_flag Memory.slice Memory.blit Io.td_read Io.td_write
    Io.encode_chunkhead Io.decode_chunkhead Io.encode_keyhead Io.decode_keyhead Io.encode_header
    Io.decode_header Io.td_read_header Io.td_write_header Io.td_read_uint Io.td_write_uint
    Io.td_read_chunkhead Io.td_write_chunkhead Io.td_read_keyhead Io.td_write_keyhead Compare.memcmp
    Compare.or_else Compare.td_compare Checksum.fnv Checksum.td_checksum_create
    Checksum.td_checksum_verify Sort.split Sort.qsort_fuel Sort.td_qsort Space.td_align
    Space.zero_loop Space.td_yield_set_zero Space.td_yield Space.yield_loop Space.td_yield_all
    Space.td_claim_fit Space.relink Space.drop_empty Space.enter Space.scan Space.choose
    Space.use_chunk Space.claim_scanned Space.td_claim_ Space.td_extend Space.granted_or_space
    Space.claim_extending Space.td_claim Tdt.bytes_of Tdt.overlay Tdt.regrown Tdt.is_null Tdt.is_set
    Tdt.reallocating Tdt.realloc_succeeds Tdt.key_room Tdt.td_read_keydata Value.checksum_field
    Value.count_chunk Value.td_store_valuechunk Value.td_store_empty_value Value.step_back
    Value.td_store_chunk_nocopy Value.gather Value.fill_front Value.td_store_chunk_copy
    Value.td_store_chunk Value.store_loop Value.backwards Value.total_size Value.td_store_value
    Value.grow Value.read_loop Value.td_read_value Value.td_unlink_value Search.to_min Search.to_max
    Search.td_iterate_to_min Search.td_iterate_to_max Search.next_round Search.previous_round
    Search.next_loop Search.previous_loop Search.td_path_next Search.td_path_previous
    Search.td_iterate_compare Search.first_match Search.to_key Search.td_iterate_to_key
    Search.td_iterate Balance.redirect Balance.td_rotate_left Balance.td_rotate_right
    Balance.rebalance_child Balance.rebalance_node Balance.td_rebalance_node Balance.log2_loop
    Balance.td_log2 Balance.td_rebalance Defrag.collect Defrag.link Defrag.td_sort_empties_from
    Defrag.sort_loop Defrag.td_sort_empties Defrag.merge_loop Defrag.td_merge_empties
    Defrag.td_defrag Update.td_put_new Update.td_put_replace Update.put_at_match Update.put_at
    Update.td_put_key Update.give_back Update.td_put_locked_key Update.td_put_keys_for_value
    Update.td_put_keys_locked Update.read_into Update.replacement Update.relink_parent
    Update.td_del_pathhead Update.td_del_one Update.del_rest Update.td_del_locked Lock.answer
    Lock.lock_with Lock.unlock_with Lock.td_lock Lock.td_unlock Lock.bracket Db.td_get_locked
    Db.td_get Db.td_put Db.td_put_vec Db.td_put_keys Db.td_del Db.td_rmw_locked Db.td_rmw
    Db.td_pop_locked Db.td_pop Db.increase_from_end Db.td_increase_key Db.increased
    Db.td_push_locked Db.td_push Db.td_wipe_locked Db.td_wipe Init.td_init Init.td_init_create
    Init.td_init_create_sparse Init.header_of_resource Init.is_equal Init.td_init2 Init.td_init_mem
    Verify.valuenode_loop Verify.td_verify_valuenode Verify.verify_keynode Verify.td_verify_keynode
    Verify.td_verify Cursor.tdc_init_locked Cursor.tdc_init Cursor.path_size Cursor.td_path_valid
    Cursor.iterate_to_min Cursor.iterate_to_max Cursor.path_next Cursor.path_previous
    Cursor.tdc_first_locked Cursor.tdc_first Cursor.tdc_last_locked Cursor.tdc_last Cursor.current
    Cursor.tdc_get_locked Cursor.tdc_get Cursor.tdc_nxt_locked Cursor.tdc_nxt Cursor.tdc_prv_locked
    Cursor.tdc_prv Cursor.settle Cursor.tdc_mov_locked Cursor.tdc_mov Cursor.tdc_del_locked
    Cursor.get_before_del Cursor.tdc_del Cursor.tdc_rpl_locked Cursor.tdc_rpl
machine = tt

-- A btree in 300 bytes of zeros.
abbrev fresh : Run (Unit {0})
fresh = Init.td_init_mem 0 (λ a. 0) 300

after : {A : Type 0} → Cmd A → Run A
after c = and_then fresh (λ _. c)

abbrev got : {A : Type 0} → Run A → Option A
got (ok a td) = some a
got (Run.err e td) = none
got Run.out_of_fuel = none

abbrev session : Cmd Db.Got
session = do
  Db.td_put (98 ∷ []) (1 ∷ 2 ∷ []) 0
  Db.td_put (97 ∷ []) (3 ∷ []) 0
  Db.td_get (97 ∷ []) (some (Tdt.array 5)) 0

run1 :
    got (after session)
    ≡ some (record {
      key = none;
      value = some (record { mem = some (3 ∷ 0 ∷ 0 ∷ 0 ∷ 0 ∷ []); size = 1 });
    })
unfolding machine after
run1 = refl
