-- ===== src/Tree/Rebalance.antt =====
-- td_rebalance_node.c on a subtree in its place.
use sdbm_tree.Common.{
  ℕ, zero, suc, ◌+◌, ◌≤◌, ◌<◌, ◌≡◌, refl, sym, subst, ap, ap₂, ◌∙◌, ◌∷◌, ◌++◌, arith, ltb,
  if◌then◌else◌, add32, word_mod,
}
use sdbm_tree.Types.{Td, Keyhead}
use sdbm_tree.Machine.{ok, pure}
use sdbm_tree.Io.{td_read_keyhead}
use sdbm_tree.Balance.{
  rebalance_child, rebalance_node, td_rebalance_node, td_rotate_left, td_rotate_right,
}
use sdbm_tree.Tree.{
  Node, Tree, leaf, node, root, inorder, height, left_of, right_of, Frames, plug, FramesAt,
}
use sdbm_tree.Tree.Nodes.{read_head, points, is_zero}
use sdbm_tree.Tree.Separate.{Separated}
use sdbm_tree.Tree.Child.{set_child, parent_ptr, parent_head}
use sdbm_tree.Tree.Keep.{entry, entries, entries-node, entries-set_child}
use sdbm_tree.Tree.Spares.{Spares-refl, Spares-trans}
use sdbm_tree.Tree.Turn.{top_of, with_next, with_previous, PlacedAt}
use sdbm_tree.Tree.Entries.{Separated-entries, nodes, nodes-node, nodes-entries, set_child_self}
use sdbm_tree.Tree.Level.{Leaves, weighed, turn}

-- The same entries on both sides, and in the middle.
entries_sides :
    (l l' : Tree) (n n' : Node) (r r' t : Tree)
    → entry n' ≡ entry n
    → entries l' ≡ entries l
    → entries r' ≡ entries r
    → entries t ≡ entries (node l' n' r')
    → entries t ≡ entries (node l n r)
entries_sides l l' n n' r r' t e x y z =
    z
    ∙ entries-node l' n' r'
    ∙ ap₂ (λ a b. a ++ b) x (ap₂ (λ a b. a ∷ b) e y)
    ∙ sym (entries-node l n r)

-- The steps of a round put together.
round_run :
    (fuel parentptr ptr wl wr w : ℕ) (parent head h1 h2 parent' : Keyhead) (td td1 td2 td3 : Td)
    → td_read_keyhead ptr td ≡ ok head td
    → rebalance_child (rebalance_node fuel ptr head) head head.previous td ≡ ok (weighed wl h1) td1
    → rebalance_child (rebalance_node fuel ptr h1) h1 h1.next td1 ≡ ok (weighed wr h2) td2
    → (if ltb (add32 wr 1) wl
          then td_rotate_right parentptr parent ptr h2
          else if ltb (add32 wl 1) wr
          then td_rotate_left parentptr parent ptr h2
          else pure parent)
        td2
      ≡ ok parent' td3
    → add32 (add32 wl wr) 1 ≡ w
    → rebalance_node (suc fuel) parentptr parent ptr td ≡ ok (weighed w parent') td3
unfolding rebalance_node
round_run fuel parentptr ptr wl wr w parent head h1 h2 parent' td td1 td2 td3 a b c d e =
    rw (a, b, c, d, e) refl

-- td_rebalance_node goes on over a child of `n`, which may be missing.
module _ (fuel : ℕ)
    (again : (td : Td) (l : Tree) (n : Node) (r : Tree) (fs : Frames)
      → PlacedAt td (node l n r) fs
      → Separated (inorder (plug fs (node l n r)))
      → nodes (node l n r) < word_mod
      → height (node l n r) ≤ fuel
      → Leaves
          (weighed (nodes (node l n r)))
          td
          (node l n r)
          fs
          (rebalance_node fuel (parent_ptr fs) (parent_head fs) n.ptr)) where
  child :
      (td : Td) (t : Tree) (fs : Frames) (p : ℕ)
      → p ≡ root t
      → PlacedAt td t fs
      → Separated (inorder (plug fs t))
      → nodes t < word_mod
      → height t ≤ fuel
      → Leaves (weighed (nodes t)) td t fs (
          rebalance_child (rebalance_node fuel (parent_ptr fs) (parent_head fs)) (parent_head fs) p)
  unfolding rebalance_child
  child td leaf fs p e at s few low =
      let self = set_child_self td fs 0 at.1 in
      (
        leaf,
        td,
        rw (is_zero e) (ap (λ k. ok (weighed 0 (parent_head k)) td) (sym self)),
        (tt, subst (FramesAt td 0) (sym self) at.1, at.2 ∙ ap (top_of 0) (sym self)),
        refl,
        Spares-refl td (plug fs leaf),
      )
  child td (node l n r) fs p e at s few low =
      let (t', td', run, placed, same, spared) = again td l n r fs at s few low in
      (t', td', rw (e, points at.0.0 refl) run, placed, same, spared)

  -- A round of the recursion: the `previous` side, the `next` side and the rotation.
  round :
      (td : Td) (l : Tree) (n : Node) (r : Tree) (fs : Frames)
      → PlacedAt td (node l n r) fs
      → Separated (inorder (plug fs (node l n r)))
      → nodes (node l n r) < word_mod
      → height (node l n r) ≤ suc fuel
      → Leaves
          (weighed (nodes (node l n r)))
          td
          (node l n r)
          fs
          (rebalance_node (suc fuel) (parent_ptr fs) (parent_head fs) n.ptr)
  round td l n r fs ((at, p, q, at_l, at_r), at_fs, top) s few low =
      let count = nodes-node l n r in
      let fs_l = left_of n r ∷ fs in
      let (l', td1, run1, (at1, (at_n1, p1, q1, at_r1, at_fs1), top1), same1, spared1) =
        child td l fs_l n.head.previous p (at_l, (at, p, q, at_r, at_fs), top) s (omega arith)
          (omega arith) in
      let n1 = with_previous n (root l') in
      let whole1 = entries-set_child fs_l (root l') l' l same1 in
      let s1 = Separated-entries (plug fs_l l) (plug fs (node l' n1 r)) whole1 s in
      let fs_r = right_of l' n1 ∷ fs in
      let (r', td2, run2, (at2, (at_n2, p2, q2, at_l2, at_fs2), top2), same2, spared2) =
        child td1 r fs_r n1.head.next q1 (at_r1, (at_n1, p1, q1, at1, at_fs1), top1) s1
          (omega arith) (omega arith) in
      let n2 = with_next n1 (root r') in
      let whole2 = entries-set_child fs_r (root r') r' r same2 in
      let s2 = Separated-entries (plug fs_r r) (plug fs (node l' n2 r')) whole2 s1 in
      let (t', td3, run3, placed, same3, spared3) =
        turn td2 fs l' n2 r' (nodes l) (nodes r) (nodes-entries l l' same1)
          (nodes-entries r r' same2) ((at_n2, p2, q2, at_l2, at2), at_fs2, top2) s2 in
      let w : add32 (add32 (nodes l) (nodes r)) 1 ≡ nodes (node l n r) =
        omega (arith, count, few) in
      (
        t',
        td3,
        round_run fuel (parent_ptr fs) n.ptr (nodes l) (nodes r) (nodes (node l n r))
            (parent_head fs) n.head n1.head n2.head (parent_head (set_child fs (root t'))) td td1
            td2 td3 (read_head at) run1 run2 run3 w,
        placed,
        entries_sides l l' n n2 r r' t' (refl {a = entry n}) same1 same2 same3,
        Spares-trans td td1 td3 (plug fs (node l n r)) (plug fs (node l' n1 r)) whole1 spared1 (
            Spares-trans td1 td2 td3 (plug fs (node l' n1 r)) (plug fs (node l' n2 r')) whole2
              spared2 spared3),
      )

rebalance_node-Leaves :
    (fuel : ℕ) (td : Td) (l : Tree) (n : Node) (r : Tree) (fs : Frames)
    → PlacedAt td (node l n r) fs
    → Separated (inorder (plug fs (node l n r)))
    → nodes (node l n r) < word_mod
    → height (node l n r) ≤ fuel
    → Leaves
        (weighed (nodes (node l n r)))
        td
        (node l n r)
        fs
        (rebalance_node fuel (parent_ptr fs) (parent_head fs) n.ptr)
rebalance_node-Leaves zero td l n r fs at s few low = absurd (omega arith)
rebalance_node-Leaves (suc fuel) td l n r fs at s few low =
    round fuel
      (λ td' l' n' r' fs' at' s' few' low'.
        rebalance_node-Leaves fuel td' l' n' r' fs' at' s' few' low')
      td l n r fs at s few low

-- On a subtree in its place, in a resource whose nodes do not overlap, td_rebalance_node returns with
-- no error, and its weight is the number of nodes of the subtree. A subtree with the same offsets,
-- keys and values in the same order stands in the same place. Of the state only `top` and the bytes
-- of nodes and header may have changed. This holds where the nodes number less than 2 ^ 32, the
-- height is not above the size of the resource, and the header points to the top of the whole tree.
pub td_rebalance_node-Leaves :
    (td : Td) (l : Tree) (n : Node) (r : Tree) (fs : Frames)
    → PlacedAt td (node l n r) fs
    → Separated (inorder (plug fs (node l n r)))
    → nodes (node l n r) < word_mod
    → height (node l n r) ≤ td.header.size
    → Leaves
        (weighed (nodes (node l n r)))
        td
        (node l n r)
        fs
        (td_rebalance_node (parent_ptr fs) (parent_head fs) n.ptr)
unfolding td_rebalance_node
td_rebalance_node-Leaves td l n r fs at s few low =
    rebalance_node-Leaves (td.header.size + 1) td l n r fs at s few (omega arith)
