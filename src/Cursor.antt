-- ===== src/Cursor.antt =====
-- Cursors: tdc_init.c, tdc_first.c, tdc_last.c, tdc_get_locked.c, tdc_get.c, tdc_nxt.c, tdc_prv.c,
-- tdc_mov.c, tdc_del.c and tdc_rpl.c. The state of a cursor after an error is modelled where a
-- function ends with TDERR_NOTFOUND and resets the path; after other errors it is not.
pub mod Read
pub mod Walk
use sdbm_tree.Common.{
  ℕ, true, false, not, Option, none, some, List, [], ◌∷◌, ◌==◌, if◌then◌else◌, leb, bit_and, bit_or,
}
use sdbm_tree.Types.{Td, Cmp, partial, exact, has_flag, td_maxdepth}
use sdbm_tree.Types.Cmp.{less, equal, more}
use sdbm_tree.Types.Error.{inval, notfound, struct_error}
use sdbm_tree.Machine.{Cmd, Command, fail, pure, get, ◌>>=◌, ◌>>◌}
use sdbm_tree.Io.{td_read_header}
use sdbm_tree.Tdt.{Tdt, td_read_keydata}
use sdbm_tree.Value.{td_read_value}
use sdbm_tree.Search.{
  KeyPath, Moved, moved, exhausted, size_of, path_init, td_iterate, td_iterate_to_min,
  td_iterate_to_max, td_path_next, td_path_previous,
}
use sdbm_tree.Update.{read_into, td_put_replace, td_del_pathhead}
use sdbm_tree.Lock.{td_lock, bracket, locked}
use sdbm_tree.Db.{Got, with_flags}

-- struct tdc, without the btree that it points to. A path of size 0 is `none`.
pub record Tdc : Type 0 where
  pub scn : ℕ
  pub path : Option KeyPath

-- What a cursor function gave, with the cursor; or TDERR_NOTFOUND, with the cursor it left.
pub data Stepped (A : Type 0) : Type 0 where
  at : Tdc → A → Stepped A
  off_end : Tdc → Stepped A

unfoldable pub tdc_init_locked : Cmd Tdc
tdc_init_locked = do
  td_read_header
  td ← get
  if td.header.top == 0 then pure (record { scn = td.header.scn; path = none }) else do
    path ← td_iterate_to_min (path_init td.header.top)
    pure (record { scn = td.header.scn; path = some path })

unfoldable pub tdc_init : Cmd Tdc
tdc_init = locked tdc_init_locked

-- The size of any struct path; it is 0 after memset and where a cursor is off the end.
unfoldable pub path_size : Option KeyPath → ℕ
path_size none = 0
path_size (some path) = size_of path

-- TD_PATH_VALID on any struct path. What follows it works on the head, which a path of size 0 does
-- not have.
unfoldable pub td_path_valid : Option KeyPath → Cmd KeyPath
td_path_valid path =
    if path_size path == 0
    then fail struct_error
    else if leb td_maxdepth (path_size path)
    then fail struct_error
    else elim path [ none ↦ fail struct_error | some path' ↦ pure path' ]

-- td_iterate_to_min on any struct path.
unfoldable pub iterate_to_min : Option KeyPath → Cmd KeyPath
iterate_to_min path = do path' ← td_path_valid path; td_iterate_to_min path'

unfoldable pub iterate_to_max : Option KeyPath → Cmd KeyPath
iterate_to_max path = do path' ← td_path_valid path; td_iterate_to_max path'

-- td_path_next on any struct path: with size 0 its loop is not entered.
unfoldable pub path_next : Option KeyPath → Cmd Moved
path_next none = pure exhausted
path_next (some path) = td_path_next path

unfoldable pub path_previous : Option KeyPath → Cmd Moved
path_previous none = pure exhausted
path_previous (some path) = td_path_previous path

-- The path is cleared, and the value of TD_PATH_INIT is not stored.
unfoldable pub tdc_first_locked : Cmd Tdc
tdc_first_locked = do
  path ← iterate_to_min none
  td ← get
  pure (record { scn = td.header.scn; path = some path })

unfoldable pub tdc_first : Cmd Tdc
tdc_first = locked tdc_first_locked

unfoldable pub tdc_last_locked : Cmd Tdc
tdc_last_locked = do
  path ← iterate_to_max none
  td ← get
  pure (record { scn = td.header.scn; path = some path })

unfoldable pub tdc_last : Cmd Tdc
tdc_last = locked tdc_last_locked

-- The tests of tdc_get_locked; the path that a cursor at a node has.
unfoldable pub current : Tdc → Cmd KeyPath
current tdc = do
  td_read_header
  td ← get
  if not (tdc.scn == td.header.scn) then fail inval else elim tdc.path [
    | none ↦ fail notfound
    | some path ↦ elim path.head.cmp [
      | equal ↦ pure path
      | less ↦ fail struct_error
      | more ↦ fail struct_error
    ]
  ]

unfoldable pub tdc_get_locked : Tdc → (key value : Option Tdt) → ℕ → Cmd Got
tdc_get_locked tdc key value flags = do
  path ← current tdc
  key' ← read_into key (λ t. td_read_keydata path.head.ptr path.head.keyhead t flags)
  value' ← read_into value (λ t. td_read_value path.head.keyhead.value t flags)
  pure (record { key = key'; value = value' })

unfoldable pub tdc_get : Tdc → (key value : Option Tdt) → ℕ → Cmd Got
tdc_get tdc key value flags = locked (tdc_get_locked tdc key value flags)

abbrev pub moved_to : Tdc → KeyPath → Tdc
moved_to tdc path = record tdc { path = some path }

abbrev pub cleared : Tdc → Tdc
cleared tdc = record tdc { path = none }

unfoldable pub tdc_nxt_locked : Tdc → (key value : Option Tdt) → ℕ → Cmd (Tdc × Got)
tdc_nxt_locked tdc key value flags = do
  got ← tdc_get_locked tdc key value flags
  r ← path_next tdc.path
  elim r [ moved path' ↦ pure (moved_to tdc path', got) | exhausted ↦ pure (cleared tdc, got) ]

unfoldable pub tdc_nxt : Tdc → (key value : Option Tdt) → ℕ → Cmd (Tdc × Got)
tdc_nxt tdc key value flags = locked (tdc_nxt_locked tdc key value flags)

unfoldable pub tdc_prv_locked : Tdc → (key value : Option Tdt) → ℕ → Cmd (Stepped Got)
tdc_prv_locked tdc key value flags = do
  got ← tdc_get_locked tdc key value flags
  r ← path_previous tdc.path
  elim r [
    | moved path' ↦ pure (at (moved_to tdc path') got)
    | exhausted ↦ pure (off_end (cleared tdc))
  ]

unfoldable pub tdc_prv : Tdc → (key value : Option Tdt) → ℕ → Cmd (Stepped Got)
tdc_prv tdc key value flags = locked (tdc_prv_locked tdc key value flags)

-- The head of the path counts as a match.
abbrev pub settled : KeyPath → KeyPath
settled path = record path { head = record (path.head) { cmp = equal } }

-- On a mismatch: TDERR_NOTFOUND if the match must be exact, else the key that was found.
unfoldable pub settle : Tdc → KeyPath → ℕ → Stepped (Unit {0})
settle tdc path flags =
    if has_flag flags exact then off_end (cleared tdc) else at (moved_to tdc (settled path)) tt

unfoldable pub tdc_mov_locked : Tdc → List ℕ → ℕ → Cmd (Stepped (Unit {0}))
tdc_mov_locked tdc key flags = do
  td_read_header
  td ← get
  if td.header.top == 0
      then fail notfound
      else if not (tdc.scn == td.header.scn)
      then fail inval
      else do
        path ← td_iterate (path_init td.header.top) key (bit_and flags partial)
        elim path.head.cmp [
          | equal ↦ pure (at (moved_to tdc path) tt)
          | less ↦ pure (settle tdc path flags)
          | more ↦ pure (settle tdc path flags)
        ]

-- The second call is td_lock, as in the source.
unfoldable pub tdc_mov : Tdc → List ℕ → ℕ → Cmd (Stepped (Unit {0}))
tdc_mov tdc key flags = with_flags flags (λ f. bracket td_lock (tdc_mov_locked tdc key f))

-- The heads that td_del_pathhead changes in the cursor's path are not kept: the scn has changed,
-- and every function but tdc_init, tdc_first and tdc_last tests it first.
unfoldable pub tdc_del_locked : Tdc → Command
tdc_del_locked tdc = elim tdc.path [
  | none ↦ fail notfound
  | some path ↦ do td_del_pathhead path none 0; pure tt
]

-- Without containers only the header is read before.
unfoldable pub get_before_del : Tdc → (key value : Option Tdt) → ℕ → Cmd Got
get_before_del tdc none none flags = do td_read_header; pure (record { key = none; value = none })
get_before_del tdc none (some v) flags = tdc_get_locked tdc none (some v) flags
get_before_del tdc (some k) value flags = tdc_get_locked tdc (some k) value flags

-- The second call is td_lock, as in the source.
unfoldable pub tdc_del : Tdc → (key value : Option Tdt) → ℕ → Cmd Got
tdc_del tdc key value flags =
    with_flags flags
      λ f. bracket td_lock (do got ← get_before_del tdc key value f; tdc_del_locked tdc; pure got)

-- `value` is only tested for being there.
unfoldable pub tdc_rpl_locked : Tdc → Option (List ℕ) → Cmd Tdc
tdc_rpl_locked tdc value = do
  path ← current tdc
  elim value [
    | none ↦ pure tdc
    | some v ↦ do
      keyhead ← td_put_replace path.head.keyhead.value path.head.ptr path.head.keyhead
      pure (moved_to tdc (record path { head = record (path.head) { keyhead = keyhead } }))
  ]

unfoldable pub tdc_rpl : Tdc → Option (List ℕ) → Cmd Tdc
tdc_rpl tdc value = locked (tdc_rpl_locked tdc value)
