-- ===== src/Tree/Level.antt =====
-- The rotations of a round of td_rebalance_node.c, on a subtree in its place.
use sdbm_tree.Common.{
  ℕ, ◌<◌, ◌≡◌, refl, sym, subst, ap, ◌∙◌, inl, inr, arith, ltb, if◌then◌else◌, add32, Bool-cases,
  ltb→lt,
}
use sdbm_tree.Types.{Td, Keyhead}
use sdbm_tree.Machine.{Cmd, ok, pure}
use sdbm_tree.Balance.{Balanced, td_rotate_left, td_rotate_right}
use sdbm_tree.Tree.{Node, Tree, leaf, node, root, inorder, Frames, plug, FramesAt}
use sdbm_tree.Tree.Separate.{Separated}
use sdbm_tree.Tree.Child.{set_child, parent_ptr, parent_head}
use sdbm_tree.Tree.Keep.{entries}
use sdbm_tree.Tree.Spares.{Spares, Spares-refl}
use sdbm_tree.Tree.Turn.{
  top_of, with_next, with_previous, left_low, right_low, PlacedAt, entries-left_low,
  entries-right_low,
}
use sdbm_tree.Tree.Rotate.{
  left_rotated, right_rotated, left_rotated-Spares, right_rotated-Spares, td_rotate_left-turns,
  td_rotate_right-turns,
}
use sdbm_tree.Tree.Entries.{nodes, set_child_self}

-- A run on the subtree `t` in the frames `fs` that hands back `x` with the parent's head, and leaves a
-- subtree with the same entries in the same place, with all else left alone.
abbrev pub Leaves : {A : Type 0} → (Keyhead → A) → Td → Tree → Frames → Cmd A → Type 0
Leaves x td t fs run =
    (t' : Tree) × (td' : Td) × (run td ≡ ok (x (parent_head (set_child fs (root t')))) td')
    × PlacedAt td' t' (set_child fs (root t'))
    × (entries t' ≡ entries t)
    × Spares td td' (plug fs t)

abbrev pub weighed : ℕ → Keyhead → Balanced
weighed w parent = record { weight = w; parent = parent }

module _ (td : Td) (fs : Frames) where
  turn_right :
      (l : Tree) (n : Node) (r : Tree)
      → 0 < nodes l
      → PlacedAt td (node l n r) fs
      → Separated (inorder (plug fs (node l n r)))
      → Leaves
          (λ k. k)
          td
          (node l n r)
          fs
          (td_rotate_right (parent_ptr fs) (parent_head fs) n.ptr n.head)
  turn_right leaf n r some at s = absurd (omega arith)
  turn_right (node a m b) n r some at s =
      let (run, placed, same) = td_rotate_right-turns td a m b n r fs s at in
      (
        right_low a (with_next m n.ptr) b (with_previous n m.head.next) r,
        right_rotated td a m b n r fs,
        run,
        placed,
        entries-right_low a (with_next m n.ptr) b (with_previous n m.head.next) r
            ∙ sym (entries-left_low a m b n r),
        right_rotated-Spares td a m b n r fs,
      )

  turn_left :
      (l : Tree) (n : Node) (r : Tree)
      → 0 < nodes r
      → PlacedAt td (node l n r) fs
      → Separated (inorder (plug fs (node l n r)))
      → Leaves
          (λ k. k)
          td
          (node l n r)
          fs
          (td_rotate_left (parent_ptr fs) (parent_head fs) n.ptr n.head)
  turn_left l n leaf some at s = absurd (omega arith)
  turn_left l n (node a m b) some at s =
      let (run, placed, same) = td_rotate_left-turns td l n a m b fs s at in
      (
        left_low l (with_next n m.head.previous) a (with_previous m n.ptr) b,
        left_rotated td l n a m b fs,
        run,
        placed,
        entries-left_low l (with_next n m.head.previous) a (with_previous m n.ptr) b
            ∙ sym (entries-right_low l n a m b),
        left_rotated-Spares td l n a m b fs,
      )

  -- The rotation that td_rebalance_node chooses by the weights.
  pub turn :
      (l : Tree) (n : Node) (r : Tree) (wl wr : ℕ)
      → wl ≡ nodes l
      → wr ≡ nodes r
      → PlacedAt td (node l n r) fs
      → Separated (inorder (plug fs (node l n r)))
      → Leaves
          (λ k. k)
          td
          (node l n r)
          fs
          (if ltb (add32 wr 1) wl
            then td_rotate_right (parent_ptr fs) (parent_head fs) n.ptr n.head
            else if ltb (add32 wl 1) wr
            then td_rotate_left (parent_ptr fs) (parent_head fs) n.ptr n.head
            else pure (parent_head fs))
  turn l n r wl wr e e' at s = elim (Bool-cases (ltb (add32 wr 1) wl)) [
    | inl big ↦ rw big (turn_right l n r (omega (arith, ltb→lt (add32 wr 1) wl big, e)) at s)
    | inr small ↦ elim (Bool-cases (ltb (add32 wl 1) wr)) [
      | inl big ↦
          rw (small, big) (turn_left l n r (omega (arith, ltb→lt (add32 wl 1) wr big, e')) at s)
      | inr big ↦
          rw (small, big)
            (let self = set_child_self td fs n.ptr at.1 in
              (
                node l n r,
                td,
                ap (λ k. ok (parent_head k) td) (sym self),
                (
                  at.0,
                  subst (FramesAt td n.ptr) (sym self) at.1,
                  at.2 ∙ ap (top_of n.ptr) (sym self),
                ),
                refl,
                Spares-refl td (plug fs (node l n r)),
              ))
    ]
  ]
