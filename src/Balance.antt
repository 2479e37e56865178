-- ===== src/Balance.antt =====
-- td_rotate_left.c, td_rotate_right.c, td_rebalance_node.c and td_rebalance.c.
pub mod Log2
use sdbm_tree.Common.{ℕ, zero, suc, ◌+◌, ◌*◌, ◌/◌, ◌||◌, ltb, ◌==◌, if◌then◌else◌, add32}
use sdbm_tree.Types.{Keyhead, Td}
use sdbm_tree.Types.Error.{bounds, struct_error}
use sdbm_tree.Machine.{Cmd, Command, fail, stuck, pure, get, put, modify_header, ◌>>=◌, ◌>>◌}
use sdbm_tree.Io.{td_read_keyhead, td_write_keyhead, td_write_header}
use sdbm_tree.Search.{null_keyhead}

-- The parent, or the header, is made to point to `child` in place of `ptr`. The source has this
-- text in both rotations; the result is the parent as it then is.
unfoldable pub redirect : (parentptr : ℕ) → Keyhead → (ptr child : ℕ) → Cmd Keyhead
redirect parentptr parent ptr child =
    if parentptr == 0
    then (do modify_header (λ h. record h { top = child }); td_write_header; pure parent)
    else if parent.next == ptr
    then (do
      td_write_keyhead parentptr (record parent { next = child })
      pure (record parent { next = child }))
    else if parent.previous == ptr
    then (do
      td_write_keyhead parentptr (record parent { previous = child })
      pure (record parent { previous = child }))
    else fail struct_error

-- `parent` is not read where `parentptr` is 0.
unfoldable pub td_rotate_left : (parentptr : ℕ) → Keyhead → (ptr : ℕ) → Keyhead → Cmd Keyhead
td_rotate_left parentptr parent ptr node = if node.next == 0 then fail bounds else do
  let rightptr = node.next
  rightnode ← td_read_keyhead rightptr
  parent' ← redirect parentptr parent ptr rightptr
  td_write_keyhead rightptr (record rightnode { previous = ptr })
  td_write_keyhead ptr (record node { next = rightnode.previous })
  pure parent'

unfoldable pub td_rotate_right : (parentptr : ℕ) → Keyhead → (ptr : ℕ) → Keyhead → Cmd Keyhead
td_rotate_right parentptr parent ptr node = if node.previous == 0 then fail bounds else do
  let leftptr = node.previous
  leftnode ← td_read_keyhead leftptr
  parent' ← redirect parentptr parent ptr leftptr
  td_write_keyhead leftptr (record leftnode { next = ptr })
  td_write_keyhead ptr (record node { previous = leftnode.next })
  pure parent'

-- What td_rebalance_node hands back: `*weight`, and the parent as its rotation left it.
pub record Balanced : Type 0 where
  pub weight : ℕ
  pub parent : Keyhead

-- A child of `node`, if there is one.
unfoldable pub rebalance_child : (ℕ → Cmd Balanced) → Keyhead → ℕ → Cmd Balanced
rebalance_child rebalance node child =
    if child == 0 then pure (record { weight = 0; parent = node }) else rebalance child

-- The recursion of the source has no bound of its own; it goes down the tree.
unfoldable pub rebalance_node : ℕ → (parentptr : ℕ) → Keyhead → (ptr : ℕ) → Cmd Balanced
rebalance_node zero parentptr parent ptr = stuck
rebalance_node (suc fuel) parentptr parent ptr = do
  node ← td_read_keyhead ptr
  l ← rebalance_child (rebalance_node fuel ptr node) node node.previous
  r ← rebalance_child (rebalance_node fuel ptr l.parent) l.parent l.parent.next
  parent' ←
      if ltb (add32 r.weight 1) l.weight
      then td_rotate_right parentptr parent ptr r.parent
      else if ltb (add32 l.weight 1) r.weight
      then td_rotate_left parentptr parent ptr r.parent
      else pure parent
  pure (record { weight = add32 (add32 l.weight r.weight) 1; parent = parent' })

unfoldable pub td_rebalance_node : (parentptr : ℕ) → Keyhead → (ptr : ℕ) → Cmd Balanced
td_rebalance_node parentptr parent ptr td =
    rebalance_node (td.header.size + 1) parentptr parent ptr td

-- The rounds of `while (n) { n >>= 1; ++r; }`; a word takes at most 32.
unfoldable pub log2_loop : ℕ → (n r : ℕ) → ℕ
log2_loop zero n r = r
log2_loop (suc fuel) n r = let rest = log2_loop fuel (n / 2) (r + 1) in if n == 0 then r else rest

unfoldable pub td_log2 : ℕ → ℕ
unfolding log2_loop
td_log2 n = log2_loop 32 n 0

-- `depthfactor` is a whole number below 65, so its `double` is exact and halving it gives the
-- logarithm.
unfoldable pub td_rebalance : Command
td_rebalance = do
  td ← get
  let depth = td_log2 td.header.nentries
  if (td.header.top == 0) || (ltb td.header.nentries 2 || ltb td.maxdepth (depth * 2))
      then pure tt
      else do
        td_rebalance_node 0 null_keyhead td.header.top
        td' ← get
        put (record td' { maxdepth = depth })
