-- ===== src/Tree/Previous.antt =====
-- td_iterate_to_max and td_path_previous over a tree.
use sdbm_tree.Common.{
  ℕ, zero, suc, ◌+◌, ◌≤◌, ◌<◌, ◌≡◌, refl, sym, subst, ap, ◌∙◌, [], ◌∷◌, Option, arith, length,
}
use sdbm_tree.Types.{Td, StackElt}
use sdbm_tree.Types.Cmp.{less, equal, more}
use sdbm_tree.Machine.{Cmd, ok, pure}
use sdbm_tree.Search.{
  Moved, exhausted, at_ptr, to_max, td_iterate_to_max, previous_round, previous_loop,
  td_path_previous,
}
use sdbm_tree.Tree.{Node, Tree, leaf, node, height, left_of, right_of, Frames, plug, elt_of, elts}
use sdbm_tree.Tree.Nodes.{read_head, points, is_zero}
use sdbm_tree.Tree.Zip.{
  Zip, zip, whole, pre, post, path_of, ZipAt, rightmost, climb_previous, previous_zip, moved_of,
  Backward, previous_zip-Backward, height-plug,
}
use sdbm_tree.Tree.Next.{path_is_valid, path_has_room}

module _ (td : Td) where
  pub to_max-rightmost :
      (fuel : ℕ) (l : Tree) (n : Node) (r : Tree) (fs : Frames)
      → ZipAt td (zip l n r fs)
      → height (node l n r) ≤ fuel
      → length (elts fs) + height (node l n r) < 128
      → to_max fuel (at_ptr n.ptr) (elts fs) td ≡ ok (path_of (rightmost l n r fs)) td
  unfolding to_max rightmost
  to_max-rightmost zero l n r fs at enough short = absurd (omega arith)
  to_max-rightmost (suc fuel) l n leaf fs (at, p, q, at_l, at_r, at_fs) enough short =
      rw (path_is_valid (suc (length (elts fs))) (omega arith), read_head at, is_zero q) refl
  to_max-rightmost (suc fuel) l n (node a m b) fs
        (at, p, q, at_l, (at_m, p_m, q_m, at_a, at_b), at_fs) enough short =
      rw
        (
          path_is_valid (suc (length (elts fs))) (omega arith),
          read_head at,
          points at_m q,
          path_is_valid (suc (suc (length (elts fs)))) (omega arith),
        )
        (ap (λ k. to_max fuel (at_ptr k) (elt_of n more ∷ elts fs) td) q
          ∙ to_max-rightmost fuel a m b (right_of l n ∷ fs)
              (at_m, p_m, q_m, at_a, at_b, (at, p, q, at_l, at_fs)) (omega arith) (omega arith))

  pub td_iterate_to_max-rightmost :
      (p : ℕ) (l : Tree) (n : Node) (r : Tree) (fs : Frames)
      → p ≡ n.ptr
      → ZipAt td (zip l n r fs)
      → length (elts fs) + height (node l n r) < 128
      → td_iterate_to_max (record { head = at_ptr p; below = elts fs }) td
        ≡ ok (path_of (rightmost l n r fs)) td
  unfolding td_iterate_to_max
  td_iterate_to_max-rightmost p l n r fs e at short =
      ap (λ k. to_max 128 (at_ptr k) (elts fs) td) e
      ∙ to_max-rightmost 128 l n r fs at (omega arith) short

  popped : Frames → Cmd Moved
  popped [] = pure exhausted
  popped (left_of n r ∷ fs) = previous_loop (elt_of n less) (elts fs)
  popped (right_of l n ∷ fs) = previous_loop (elt_of n more) (elts fs)

  previous_loop-round :
      (e : StackElt) (fs : Frames)
      → previous_loop e (elts fs) td ≡ previous_round e (elts fs) (popped fs) td
  unfolding previous_loop popped
  previous_loop-round e [] = refl
  previous_loop-round e (left_of n r ∷ fs) = refl
  previous_loop-round e (right_of l n ∷ fs) = refl

  popped-climb : (t : Tree) (fs : Frames) → popped fs td ≡ ok (moved_of (climb_previous t fs)) td
  unfolding popped climb_previous previous_round
  popped-climb t [] = refl
  popped-climb t (right_of l n ∷ fs) = previous_loop-round (elt_of n more) fs
  popped-climb t (left_of n r ∷ fs) =
      previous_loop-round (elt_of n less) fs ∙ popped-climb (node t n r) fs

  td_path_previous-previous_zip :
      (l : Tree) (n : Node) (r : Tree) (fs : Frames)
      → ZipAt td (zip l n r fs)
      → height (plug fs (node l n r)) < 128
      → td_path_previous (path_of (zip l n r fs)) td ≡ ok (moved_of (previous_zip l n r fs)) td
  unfolding td_path_previous previous_round previous_zip
  td_path_previous-previous_zip leaf n r fs (at, p, q, at_l, at_r, at_fs) short =
      previous_loop-round (elt_of n equal) fs ∙ rw (is_zero p) (popped-climb (node leaf n r) fs)
  td_path_previous-previous_zip (node a m b) n r fs
        (at, p, q, (at_m, p_m, q_m, at_a, at_b), at_r, at_fs) short =
      let room : length (elts fs) + height (node (node a m b) n r) < 128 =
        omega (arith, height-plug fs (node (node a m b) n r)) in
      previous_loop-round (elt_of n equal) fs
      ∙ rw
          (
            points at_m p,
            path_has_room (suc (length (elts fs))) (omega arith),
            td_iterate_to_max-rightmost n.head.previous a m b (left_of n r ∷ fs) p
                (at_m, p_m, q_m, at_a, at_b, (at, p, q, at_r, at_fs)) (omega arith),
          )
          refl

  -- td_path_previous at a node of a tree in the resource, of height below 128, returns with no error
  -- and leaves the state: it goes to the node before in order; before the first one the path is left
  -- empty.
  pub td_path_previous-Backward :
      (t : Tree) (z : Zip)
      → ZipAt td z
      → whole z ≡ t
      → height t < 128
      → (o : Option Zip) × (td_path_previous (path_of z) td ≡ ok (moved_of o) td)
        × Backward td t (pre z) (z.here ∷ post z) o
  td_path_previous-Backward t z at e short = (
    previous_zip z.left z.here z.right z.frames,
    td_path_previous-previous_zip z.left z.here z.right z.frames at
        (subst (λ k. height k < 128) (sym e) short),
    subst
        (λ k. Backward td k (pre z) (z.here ∷ post z) (previous_zip z.left z.here z.right z.frames))
        e (previous_zip-Backward td z.left z.here z.right z.frames at),
  )
