-- ===== src/Update.antt =====
-- Changes of the tree: td_put_new.c, td_put_replace.c, td_put_key.c, td_put_locked_key.c,
-- td_put_keys.c, td_del_pathhead.c and td_del.c.
pub mod Hang
pub mod Unlink
pub mod Room
pub mod New
pub mod Link
pub mod Settle
pub mod Insert
pub mod Put
pub mod Refuse
pub mod Lookup
pub mod Give
pub mod Delete
pub mod Seek
pub mod Remove
pub mod Revalue
pub mod Overwrite
use sdbm_tree.Common.{
  ℕ, zero, suc, ◌+◌, ◌%◌, true, List, [], ◌∷◌, Option, none, some, ◌==◌, if◌then◌else◌, length,
  add32, sub32, bit_or,
}
use sdbm_tree.Types.{
  Keyhead, StackElt, keyhead_size, duplkeys, nooverwrite, deleteall, partial, has_flag,
}
use sdbm_tree.Types.Cmp.{less, equal, more}
use sdbm_tree.Types.Error.{notfound, dup, struct_error}
use sdbm_tree.Machine.{Cmd, Command, fail, stuck, pure, get, modify_header, on_result, ◌>>=◌, ◌>>◌}
use sdbm_tree.Io.{td_write, td_read_header, td_write_header, td_write_keyhead}
use sdbm_tree.Space.{td_claim, td_yield, td_yield_all}
use sdbm_tree.Tdt.{Tdt}
use sdbm_tree.Value.{checksum_field, td_store_value, td_read_value, td_unlink_value}
use sdbm_tree.Search.{KeyPath, path_init, td_iterate, td_iterate_to_min}
use sdbm_tree.Balance.{td_rebalance}
use sdbm_tree.Defrag.{td_defrag}

-- The offset of the new key node.
unfoldable pub td_put_new : List ℕ → (valueptr previous next flags : ℕ) → Cmd ℕ
td_put_new key valueptr previous next flags = do
  td ← get
  (keyptr, size) ← td_claim true (add32 keyhead_size (length key))
  td_write_keyhead keyptr (record {
    value = valueptr;
    size = size;
    scn = td.header.scn;
    checksum = checksum_field flags key;
    next = next;
    previous = previous;
  })
  td_write (add32 keyptr keyhead_size) key
  modify_header (λ h. record h { nentries = add32 h.nentries 1; scn = add32 h.scn 1 })
  pure keyptr

unfoldable pub td_put_replace : (valueptr keyptr : ℕ) → Keyhead → Cmd Keyhead
td_put_replace valueptr keyptr keyhead = do
  td_yield_all keyhead.value
  td_write_keyhead keyptr (record keyhead { value = valueptr })
  pure (record keyhead { value = valueptr })

-- td_put_key at a node that holds the key.
unfoldable pub put_at_match : List ℕ → (valueptr flags : ℕ) → StackElt → Command
put_at_match key valueptr flags head =
    if has_flag flags duplkeys
    then (if head.keyhead.previous == 0
        then (do
          ptr ← td_put_new key valueptr 0 0 flags
          td_write_keyhead head.ptr (record (head.keyhead) { previous = ptr }))
        else (do
          ptr ← td_put_new key valueptr 0 head.keyhead.next flags
          td_write_keyhead head.ptr (record (head.keyhead) { next = ptr })))
    else if has_flag flags nooverwrite
    then fail dup
    else (do td_put_replace valueptr head.ptr head.keyhead; pure tt)

-- td_put_key at the node where the search ended.
unfoldable pub put_at : List ℕ → (valueptr flags : ℕ) → StackElt → Command
put_at key valueptr flags head = elim head.cmp [
  | equal ↦ put_at_match key valueptr flags head
  | less ↦ do
    ptr ← td_put_new key valueptr 0 0 flags
    td_write_keyhead head.ptr (record (head.keyhead) { previous = ptr })
  | more ↦ do
    ptr ← td_put_new key valueptr 0 0 flags
    td_write_keyhead head.ptr (record (head.keyhead) { next = ptr })
]

unfoldable pub td_put_key : List ℕ → (valueptr flags : ℕ) → Command
td_put_key key valueptr flags = do
  td ← get
  if td.header.top == 0
      then (do ptr ← td_put_new key valueptr 0 0 flags; modify_header (λ h. record h { top = ptr }))
      else (do
        path ← td_iterate (path_init td.header.top) key 0
        put_at key valueptr flags path.head)
  td_write_header
  td_rebalance

-- The value is given back when its key cannot be put.
unfoldable pub give_back : Command → ℕ → Command
give_back store valueptr td = on_result (store td) pure (λ e. do td_yield_all valueptr; fail e)

unfoldable pub td_put_locked_key : List ℕ → List (List ℕ) → ℕ → Command
td_put_locked_key key value flags = do
  td_read_header
  valueptr ← td_store_value value 1 flags
  give_back (td_put_key key valueptr flags) valueptr

unfoldable pub td_put_keys_for_value : (valueoffset flags : ℕ) → List (List ℕ) → Command
td_put_keys_for_value valueoffset flags [] = pure tt
td_put_keys_for_value valueoffset flags (key ∷ keys) = do
  td_put_key key valueoffset flags
  td_put_keys_for_value valueoffset flags keys

unfoldable pub td_put_keys_locked : List ℕ → ℕ → List (List ℕ) → Command
td_put_keys_locked value flags keys = do
  valueoffset ← td_store_value (value ∷ []) (length keys) flags
  give_back (td_put_keys_for_value valueoffset flags keys) valueoffset

-- An optional output: what `if (value) …` fills.
unfoldable pub read_into : Option Tdt → (Tdt → Cmd Tdt) → Cmd (Option Tdt)
read_into none read = pure none
read_into (some t) read = do t' ← read t; pure (some t')

-- The node that takes the place of the one at the head of the path.
unfoldable pub replacement : Keyhead → Cmd ℕ
replacement keyhead =
    if keyhead.previous == 0
    then pure keyhead.next
    else if keyhead.next == 0
    then pure keyhead.previous
    else do
      sub ← td_iterate_to_min (path_init keyhead.next)
      td_write_keyhead sub.head.ptr (record (sub.head.keyhead) { previous = keyhead.previous })
      pure keyhead.next

-- The parent on the path, or the header, is made to point to the replacement.
unfoldable pub relink_parent : List StackElt → ℕ → Command
relink_parent [] child = modify_header (λ h. record h { top = child })
relink_parent (parent ∷ below) child = elim parent.cmp [
  | less ↦ td_write_keyhead parent.ptr (record (parent.keyhead) { previous = child })
  | more ↦ td_write_keyhead parent.ptr (record (parent.keyhead) { next = child })
  | equal ↦ fail struct_error
]

unfoldable pub td_del_pathhead : KeyPath → Option Tdt → ℕ → Cmd (Option Tdt)
td_del_pathhead path value flags = do
  value' ← read_into value (λ t. td_read_value path.head.keyhead.value t flags)
  child ← replacement path.head.keyhead
  relink_parent path.below child
  modify_header (λ h. record h { nentries = sub32 h.nentries 1 })
  td_unlink_value path.head.keyhead.value
  td_yield path.head.ptr
  td_rebalance
  modify_header (λ h. record h { scn = add32 h.scn 1 })
  td ← get
  if td.header.scn % 8 == 0 then td_defrag else pure tt
  td_write_header
  pure value'

unfoldable pub td_del_one : List ℕ → Option Tdt → ℕ → Cmd (Option Tdt)
td_del_one key value flags = do
  td_read_header
  td ← get
  if td.header.top == 0 then fail notfound else do
    path ← td_iterate (path_init td.header.top) key flags
    elim path.head.cmp [
      | equal ↦ td_del_pathhead path value flags
      | less ↦ fail notfound
      | more ↦ fail notfound
    ]

-- The loop of TDFLG_DELETEALL, after its first deletion.
unfoldable pub del_rest : ℕ → List ℕ → Option Tdt → ℕ → Cmd (Option Tdt)
del_rest zero key value flags = stuck
del_rest (suc fuel) key value flags = λ td.
    on_result (td_del_one key value flags td) (λ value'. del_rest fuel key value' flags)
      (λ e. elim e [ notfound ↦ pure value | other ↦ fail other ])

unfoldable pub td_del_locked : List ℕ → Option Tdt → ℕ → Cmd (Option Tdt)
td_del_locked key value flags =
    if has_flag flags deleteall
    then (do
      value' ← td_del_one key value (bit_or flags partial)
      td ← get
      del_rest (td.header.size + 1) key value' (bit_or flags partial))
    else td_del_one key value flags
