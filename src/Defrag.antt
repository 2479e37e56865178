-- ===== src/Defrag.antt =====
-- td_defrag.c: the free chunks are sorted by offset and neighbours joined, up to a level.
use sdbm_tree.Common.{
  ℕ, zero, suc, ◌+◌, ◌-◌, List, [], ◌∷◌, ◌++◌, ltb, ◌==◌, ◌&&◌, ◌||◌, not, if◌then◌else◌, length,
  add32, sub32, mul32,
}
use sdbm_tree.Types.{Chunkhead, max_defraglevel}
use sdbm_tree.Machine.{Cmd, Command, stuck, pure, get, modify_header, ◌>>=◌, ◌>>◌}
use sdbm_tree.Io.{td_read_uint, td_write_uint, td_read_chunkhead, td_write_chunkhead}
use sdbm_tree.Sort.{td_qsort}

-- A run of free chunks, and the one behind it.
pub record Taken : Type 0 where
  pub list : List ℕ
  pub last : ℕ

-- `list[length++] = ptr; …` while there is room for `left` more.
unfoldable pub collect : (left ptr last : ℕ) → List ℕ → Cmd Taken
collect zero ptr last list = pure (record { list = list; last = last })
collect (suc left) ptr last list =
    if ptr == 0
    then pure (record { list = list; last = last })
    else do next ← td_read_uint ptr; collect left next next (list ++ ptr ∷ [])

-- The chunks of the list are linked in its order, the last of them to `last`.
unfoldable pub link : List ℕ → ℕ → Command
link [] last = pure tt
link (p ∷ []) last = td_write_uint p last
link (p ∷ (q ∷ r)) last = do td_write_uint p q; link (q ∷ r) last

abbrev pub first_of_list : List ℕ → ℕ
first_of_list [] = 0
first_of_list (p ∷ r) = p

unfoldable pub td_sort_empties_from : (level orig elt1 elt2 : ℕ) → Command
td_sort_empties_from level orig elt1 elt2 = do
  taken ← collect (level - 1) elt2 0 (elt1 ∷ [])
  let sorted = td_qsort taken.list
  if ltb (length taken.list) 2 then pure tt else do
    if orig == 0
        then modify_header (λ h. record h { off_e = first_of_list sorted })
        else td_write_uint orig (first_of_list sorted)
    link sorted taken.last

unfoldable pub sort_loop : (left level ptr orig : ℕ) → Command
sort_loop zero level ptr orig = pure tt
sort_loop (suc left) level ptr orig = if ptr == 0 then pure tt else do
  next ← td_read_uint ptr
  if not (next == 0) && ltb next ptr
      then td_sort_empties_from level orig ptr next
      else sort_loop left level next ptr

unfoldable pub td_sort_empties : ℕ → Command
td_sort_empties level = do
  td ← get
  if ltb level 2 || td.header.off_e == 0 then pure tt else sort_loop level level td.header.off_e 0

unfoldable pub merge_loop : (fuel level ptr1 : ℕ) → Chunkhead → ℕ → Command
merge_loop zero level ptr1 head1 ptr2 = stuck
merge_loop (suc fuel) level ptr1 head1 ptr2 = if (ptr2 == 0) || (level == 0) then pure tt else do
  head2 ← td_read_chunkhead ptr2
  let joined = record head1 { size = add32 head1.size head2.size; next = head2.next }
  if add32 ptr1 head1.size == ptr2
      then (do
        td_write_chunkhead ptr1 joined
        modify_header (λ h. record h { nempties = sub32 h.nempties 1 })
        merge_loop fuel (level - 1) ptr1 joined head2.next)
      else merge_loop fuel level ptr2 head2 head2.next

unfoldable pub td_merge_empties : ℕ → Command
td_merge_empties level = do
  td ← get
  let ptr1 = td.header.off_e
  if ptr1 == 0 then pure tt else do
    head1 ← td_read_chunkhead ptr1
    merge_loop (td.header.size + 1) level ptr1 head1 head1.next

unfoldable pub td_defrag : Command
td_defrag = do
  td ← get
  let level = mul32 td.header.nempties td.header.nempties
  let level' = if ltb max_defraglevel level then max_defraglevel else level
  if td.header.nempties == 0
      then pure tt
      else if ltb 2 level
      then (do td_sort_empties level'; td_merge_empties level')
      else pure tt
