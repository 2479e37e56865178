-- ===== src/Db.antt =====
-- The functions of td.h that work on a whole btree: td_get.c, td_put.c, td_put_vec.c,
-- td_put_keys.c, td_del.c, td_rmw.c, td_pop.c, td_push.c, td_wipe.c and td_verify.c.
pub mod Increase
use mathlib.Core.List.{reverse}
use mathlib.Core.Option
use sdbm_tree.Common.{
  ℕ, ◌+◌, ◌%◌, not, List, [], ◌∷◌, Option, none, some, leb, ◌==◌, if◌then◌else◌, replicate, sub32,
  bit_or,
}
use sdbm_tree.Types.{
  StackElt, Error, header_size, chunkhead_size, wipedeleted, exact, allockey, has_flag,
}
use sdbm_tree.Types.Cmp.{less, equal, more}
use sdbm_tree.Types.Error.{notfound, overflow}
use sdbm_tree.Machine.{Cmd, Command, fail, pure, get, modify_header, ◌>>=◌, ◌>>◌}
use sdbm_tree.Io.{td_read_header, td_write_header, td_write_chunkhead}
use sdbm_tree.Space.{td_yield_set_zero}
use sdbm_tree.Tdt.{Tdt, empty, array, bytes_of, td_read_keydata}
use sdbm_tree.Value.{td_store_value, td_read_value}
use sdbm_tree.Search.{path_init, td_iterate, td_iterate_to_min, td_iterate_to_max}
use sdbm_tree.Update.{
  td_put_new, td_put_replace, td_put_locked_key, td_put_keys_locked, td_del_pathhead, td_del_locked,
  read_into,
}
use sdbm_tree.Lock.{locked}

-- `flags |= td->header.flags`
abbrev pub with_flags : {A : Type 0} → ℕ → (ℕ → Cmd A) → Cmd A
with_flags flags body td = body (bit_or flags td.header.flags) td

-- The containers that td_get fills; the key only if TDFLG_ALLOCKEY asks for it.
pub record Got : Type 0 where
  pub key : Option Tdt
  pub value : Option Tdt

get_at : StackElt → Option Tdt → ℕ → Cmd Got
get_at head value flags = do
  value' ← read_into value (λ t. td_read_value head.keyhead.value t flags)
  key' ←
      read_into (if has_flag flags allockey then some empty else none)
        (λ t. td_read_keydata head.ptr head.keyhead t 0)
  pure (record { key = key'; value = value' })

unfoldable pub td_get_locked : List ℕ → Option Tdt → ℕ → Cmd Got
unfolding get_at
td_get_locked key value flags = do
  td_read_header
  td ← get
  if td.header.top == 0 then fail notfound else do
    path ← td_iterate (path_init td.header.top) key flags
    if not (has_flag flags exact) then get_at path.head value flags else elim path.head.cmp [
      | equal ↦ get_at path.head value flags
      | less ↦ fail notfound
      | more ↦ fail notfound
    ]

unfoldable pub td_get : List ℕ → Option Tdt → ℕ → Cmd Got
td_get key value flags = with_flags flags (λ f. locked (td_get_locked key value f))

unfoldable pub td_put : List ℕ → List ℕ → ℕ → Command
td_put key value flags = with_flags flags (λ f. locked (td_put_locked_key key (value ∷ []) f))

unfoldable pub td_put_vec : List ℕ → List (List ℕ) → ℕ → Command
td_put_vec key value flags = with_flags flags (λ f. locked (td_put_locked_key key value f))

unfoldable pub td_put_keys : List ℕ → ℕ → List (List ℕ) → Command
td_put_keys value flags keys = with_flags flags (λ f. locked (td_put_keys_locked value f keys))

unfoldable pub td_del : List ℕ → Option Tdt → ℕ → Cmd (Option Tdt)
td_del key value flags = with_flags flags (λ f. locked (td_del_locked key value f))

-- What the callback of td_rmw returns, with the value as it leaves it.
pub record Modified : Type 0 where
  pub result : Option Error
  pub value : Tdt

store_modified : StackElt → ℕ → Modified → Cmd (Option Tdt)
store_modified head flags m = elim m.result [
  | none ↦ do
    valueptr ← td_store_value (bytes_of m.value ∷ []) 1 flags
    td_put_replace valueptr head.ptr head.keyhead
    td_write_header
    pure (some m.value)
  | some e ↦ elim e [ notfound ↦ do td_write_header; pure (some m.value) | other ↦ fail other ]
]

rmw_at : StackElt → List ℕ → Option Tdt → ℕ → Option (List ℕ → Tdt → Modified) → Cmd (Option Tdt)
rmw_at head key none flags callback = pure none
rmw_at head key (some t) flags none = do
  t' ← td_read_value head.keyhead.value t flags
  pure (some t')
rmw_at head key (some t) flags (some callback) = do
  t' ← td_read_value head.keyhead.value t flags
  store_modified head flags (callback key t')

unfoldable pub td_rmw_locked :
    List ℕ → Option Tdt → ℕ → Option (List ℕ → Tdt → Modified) → Cmd (Option Tdt)
unfolding rmw_at store_modified
td_rmw_locked key value flags callback = do
  td_read_header
  td ← get
  if td.header.top == 0 then fail notfound else do
    path ← td_iterate (path_init td.header.top) key 0
    elim path.head.cmp [
      | equal ↦ rmw_at path.head key value flags callback
      | less ↦ fail notfound
      | more ↦ fail notfound
    ]

unfoldable pub td_rmw :
    List ℕ → Option Tdt → ℕ → Option (List ℕ → Tdt → Modified) → Cmd (Option Tdt)
td_rmw key value flags callback =
    with_flags flags (λ f. locked (td_rmw_locked key value f callback))

unfoldable pub td_pop_locked : Option Tdt → Option Tdt → ℕ → Cmd Got
td_pop_locked key value flags = do
  td_read_header
  td ← get
  if td.header.top == 0 then fail notfound else do
    path ← td_iterate_to_min (path_init td.header.top)
    key' ← read_into key (λ t. td_read_keydata path.head.ptr path.head.keyhead t flags)
    value' ← td_del_pathhead path value flags
    pure (record { key = key'; value = value' })

unfoldable pub td_pop : Option Tdt → Option Tdt → ℕ → Cmd Got
td_pop key value flags = locked (td_pop_locked key value flags)

-- The loop of td_increase_key, from the last byte on: `(keydata[i])++ != 0` tests the old byte.
unfoldable pub increase_from_end : List ℕ → Option (List ℕ)
increase_from_end [] = none
increase_from_end (b ∷ rest) =
    if b == 0 then Option.map (λ r. 1 ∷ r) (increase_from_end rest) else some ((b + 1) % 256 ∷ rest)

unfoldable pub td_increase_key : List ℕ → Option (List ℕ)
td_increase_key key = Option.map reverse (increase_from_end (reverse key))

unfoldable pub increased : Option (List ℕ) → Cmd (List ℕ)
increased none = fail overflow
increased (some key) = pure key

unfoldable pub td_push_locked : List ℕ → Command
td_push_locked value = do
  td ← get
  if td.header.top == 0
      then (do
        valueptr ← td_store_value (value ∷ []) 1 0
        keyptr ← td_put_new (replicate 16 0) valueptr 0 0 0
        modify_header (λ h. record h { top = keyptr }))
      else (do
        path ← td_iterate_to_max (path_init td.header.top)
        old ← td_read_keydata path.head.ptr path.head.keyhead (array 16) 0
        key ← increased (td_increase_key (bytes_of old))
        valueptr ← td_store_value (value ∷ []) 1 0
        td_put_new key valueptr path.head.ptr 0 0
        pure tt)
  td_write_header

unfoldable pub td_push : List ℕ → Command
td_push value = locked (td_push_locked value)

unfoldable pub td_wipe_locked : Command
td_wipe_locked = do
  td ← get
  if leb (header_size + chunkhead_size) td.header.size
      then (do
        modify_header (λ h. record h {
          off_e = header_size;
          scn = 0;
          nentries = 0;
          nempties = 1;
          nchunks = 1;
        })
        td_write_chunkhead header_size (record {
          next = 0;
          size = sub32 td.header.size header_size;
          checksum = 0;
          refcount = 0;
        })
        if has_flag td.header.flags wipedeleted then td_yield_set_zero header_size else pure tt)
      else modify_header
          (λ h. record h { off_e = 0; scn = 0; nentries = 0; nempties = 0; nchunks = 0 })
  td_write_header

unfoldable pub td_wipe : Command
td_wipe = locked td_wipe_locked
