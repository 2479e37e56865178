-- ===== src/Search.antt =====
-- Paths down the tree: TD_PATH_INIT and TD_PATH_VALID (td_types.h), td_iterate.c,
-- td_iterate_compare.c, td_iterate_to_{key,min,max}.c, td_path_next.c and td_path_previous.c.
use sdbm_tree.Common.{
  ℕ, zero, suc, ◌+◌, Bool, List, [], ◌∷◌, ltb, leb, ◌==◌, if◌then◌else◌, length, sub32,
}
use sdbm_tree.Types.{Keyhead, StackElt, keyhead_size, td_maxdepth, td_maxpath, partial, has_flag}
use sdbm_tree.Types.Cmp.{less, equal, more}
use sdbm_tree.Types.Error.{inval, struct_error}
use sdbm_tree.Machine.{Cmd, Command, fail, stuck, pure, get, put, ◌>>=◌, ◌>>◌}
use sdbm_tree.Io.{td_read_keyhead}
use sdbm_tree.Tdt.{array, bytes_of, td_read_keydata}

-- struct path with at least one element: its head, and the elements below it, the nearest first.
-- What lies in the array above the head is written before it is read, so it is not kept.
pub record KeyPath : Type 0 where
  pub head : StackElt
  pub below : List StackElt

abbrev pub null_keyhead : Keyhead
null_keyhead = record { value = 0; size = 0; scn = 0; checksum = 0; next = 0; previous = 0 }

-- A stack element that `++(path->head)` reaches.
abbrev pub at_ptr : ℕ → StackElt
at_ptr ptr = record { ptr = ptr; keyhead = null_keyhead; cmp = equal }

-- TD_PATH_INIT
abbrev pub path_init : ℕ → KeyPath
path_init ptr = record { head = at_ptr ptr; below = [] }

abbrev pub size_of : KeyPath → ℕ
size_of path = suc (length path.below)

-- The test of TD_PATH_VALID. (A path with no element fails it too.)
abbrev pub path_valid : List StackElt → Command
path_valid below = if leb td_maxdepth (suc (length below)) then fail struct_error else pure tt

abbrev pub push : StackElt → List StackElt → ℕ → KeyPath
push elt below ptr = record { head = at_ptr ptr; below = elt ∷ below }

-- The recursions below end at TD_MAXDEPTH levels, so that much fuel is never used up.
unfoldable pub to_min : ℕ → StackElt → List StackElt → Cmd KeyPath
to_min zero elt below = stuck
to_min (suc fuel) elt below = do
  path_valid below
  keyhead ← td_read_keyhead elt.ptr
  if keyhead.previous == 0
      then pure (record { head = record elt { keyhead = keyhead; cmp = equal }; below = below })
      else do
        let elt' = record elt { keyhead = keyhead; cmp = less }
        path_valid (elt' ∷ below)
        to_min fuel (at_ptr keyhead.previous) (elt' ∷ below)

unfoldable pub to_max : ℕ → StackElt → List StackElt → Cmd KeyPath
to_max zero elt below = stuck
to_max (suc fuel) elt below = do
  path_valid below
  keyhead ← td_read_keyhead elt.ptr
  if keyhead.next == 0
      then pure (record { head = record elt { keyhead = keyhead; cmp = equal }; below = below })
      else do
        let elt' = record elt { keyhead = keyhead; cmp = more }
        path_valid (elt' ∷ below)
        to_max fuel (at_ptr keyhead.next) (elt' ∷ below)

unfoldable pub td_iterate_to_min : KeyPath → Cmd KeyPath
td_iterate_to_min path = to_min td_maxdepth path.head path.below

unfoldable pub td_iterate_to_max : KeyPath → Cmd KeyPath
td_iterate_to_max path = to_max td_maxdepth path.head path.below

-- TDERR_NOTFOUND from the two functions below leaves the path with no element.
pub data Moved : Type 0 where
  moved : KeyPath → Moved
  exhausted : Moved

-- One round of the loop, with `pop` for its end, which leaves the head out. The fourth case of
-- `cmp` in the source does not arise: every store of it writes -1, 0 or 1.
unfoldable pub next_round : StackElt → List StackElt → Cmd Moved → Cmd Moved
next_round elt below pop = elim elt.cmp [
  | less ↦ pure (moved (record { head = record elt { cmp = equal }; below = below }))
  | equal ↦
      if elt.keyhead.next == 0
      then pop
      else if ltb (suc (length below)) td_maxpath
      then (do
        path ← td_iterate_to_min (push (record elt { cmp = more }) below elt.keyhead.next)
        pure (moved path))
      else fail inval
  | more ↦ pop
]

unfoldable pub previous_round : StackElt → List StackElt → Cmd Moved → Cmd Moved
previous_round elt below pop = elim elt.cmp [
  | more ↦ pure (moved (record { head = record elt { cmp = equal }; below = below }))
  | equal ↦
      if elt.keyhead.previous == 0
      then pop
      else if ltb (suc (length below)) td_maxpath
      then (do
        path ← td_iterate_to_max (push (record elt { cmp = less }) below elt.keyhead.previous)
        pure (moved path))
      else fail inval
  | less ↦ pop
]

unfoldable pub next_loop : StackElt → List StackElt → Cmd Moved
next_loop elt [] = next_round elt [] (pure exhausted)
next_loop elt (parent ∷ below) = next_round elt (parent ∷ below) (next_loop parent below)

unfoldable pub previous_loop : StackElt → List StackElt → Cmd Moved
previous_loop elt [] = previous_round elt [] (pure exhausted)
previous_loop elt (parent ∷ below) =
    previous_round elt (parent ∷ below) (previous_loop parent below)

unfoldable pub td_path_next : KeyPath → Cmd Moved
td_path_next path = next_loop path.head path.below

unfoldable pub td_path_previous : KeyPath → Cmd Moved
td_path_previous path = previous_loop path.head path.below

unfoldable pub td_iterate_compare : StackElt → List ℕ → Bool → Cmd StackElt
td_iterate_compare elt key part = do
  cmpkey ← td_read_keydata elt.ptr elt.keyhead (array (sub32 elt.keyhead.size keyhead_size)) 0
  td ← get
  pure (record elt { cmp = td.compare key (bytes_of cmpkey) part })

-- The loop on a match: back to the first of the keys that match. `path` is `orig_path`.
unfoldable pub first_match : ℕ → KeyPath → List ℕ → Bool → Cmd KeyPath
first_match zero path key part = stuck
first_match (suc fuel) path key part = do
  r ← td_path_previous path
  elim r [
    | exhausted ↦ pure path
    | moved before ↦ do
      elt ← td_iterate_compare before.head key part
      elim elt.cmp [
        | equal ↦ first_match fuel (record before { head = elt }) key part
        | less ↦ pure path
        | more ↦ pure path
      ]
  ]

unfoldable pub to_key : ℕ → StackElt → List StackElt → List ℕ → Bool → Cmd KeyPath
to_key zero elt below key part = stuck
to_key (suc fuel) elt below key part = do
  path_valid below
  keyhead ← td_read_keyhead elt.ptr
  elt' ← td_iterate_compare (record elt { keyhead = keyhead }) key part
  td ← get
  elim elt'.cmp [
    | less ↦ if keyhead.previous == 0 then pure (record { head = elt'; below = below }) else do
      path_valid (elt' ∷ below)
      to_key fuel (at_ptr keyhead.previous) (elt' ∷ below) key part
    | more ↦
        if keyhead.next == 0
        then pure (record { head = elt'; below = below })
        else do path_valid (elt' ∷ below); to_key fuel (at_ptr keyhead.next) (elt' ∷ below) key part
    | equal ↦ first_match (td.header.size + 1) (record { head = elt'; below = below }) key part
  ]

unfoldable pub td_iterate_to_key : KeyPath → List ℕ → ℕ → Cmd KeyPath
td_iterate_to_key path key flags =
    to_key td_maxdepth path.head path.below key (has_flag flags partial)

unfoldable pub td_iterate : KeyPath → List ℕ → ℕ → Cmd KeyPath
td_iterate path key flags = do
  path' ← td_iterate_to_key path key flags
  td ← get
  put (record td {
    maxdepth = if ltb td.maxdepth (size_of path') then size_of path' else td.maxdepth;
  })
  pure path'
