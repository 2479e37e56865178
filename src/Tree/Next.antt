-- ===== src/Tree/Next.antt =====
-- td_iterate_to_min and td_path_next over a tree.
use sdbm_tree.Common.{
  ℕ, zero, suc, ◌+◌, ◌≤◌, ◌<◌, ◌≡◌, refl, sym, subst, ap, ◌∙◌, [], ◌∷◌, ◌++◌, false, true, Option,
  arith, length, leb, ltb,
}
use sdbm_tree.Types.{Td, StackElt}
use sdbm_tree.Types.Cmp.{less, equal, more}
use sdbm_tree.Machine.{Cmd, ok, pure}
use sdbm_tree.Search.{
  Moved, exhausted, at_ptr, to_min, td_iterate_to_min, next_round, next_loop, td_path_next,
}
use sdbm_tree.Tree.{Node, Tree, leaf, node, height, left_of, right_of, Frames, plug, elt_of, elts}
use sdbm_tree.Tree.Nodes.{read_head, points, is_zero}
use sdbm_tree.Tree.Zip.{
  Zip, zip, whole, pre, post, path_of, ZipAt, leftmost, climb_next, next_zip, moved_of, Onward,
  next_zip-Onward, height-plug,
}

pub path_is_valid : (k : ℕ) → k < 128 → leb 128 k ≡ false
path_is_valid k h = ground arith

pub path_has_room : (k : ℕ) → k < 128 → ltb k 256 ≡ true
path_has_room k h = ground arith

module _ (td : Td) where
  -- The descent stays below the bound of a path, so it has enough fuel and meets no error.
  pub to_min-leftmost :
      (fuel : ℕ) (l : Tree) (n : Node) (r : Tree) (fs : Frames)
      → ZipAt td (zip l n r fs)
      → height (node l n r) ≤ fuel
      → length (elts fs) + height (node l n r) < 128
      → to_min fuel (at_ptr n.ptr) (elts fs) td ≡ ok (path_of (leftmost l n r fs)) td
  unfolding to_min leftmost
  to_min-leftmost zero l n r fs at enough short = absurd (omega arith)
  to_min-leftmost (suc fuel) leaf n r fs (at, p, q, at_l, at_r, at_fs) enough short =
      rw (path_is_valid (suc (length (elts fs))) (omega arith), read_head at, is_zero p) refl
  to_min-leftmost (suc fuel) (node a m b) n r fs
        (at, p, q, (at_m, p_m, q_m, at_a, at_b), at_r, at_fs) enough short =
      rw
        (
          path_is_valid (suc (length (elts fs))) (omega arith),
          read_head at,
          points at_m p,
          path_is_valid (suc (suc (length (elts fs)))) (omega arith),
        )
        (ap (λ k. to_min fuel (at_ptr k) (elt_of n less ∷ elts fs) td) p
          ∙ to_min-leftmost fuel a m b (left_of n r ∷ fs)
              (at_m, p_m, q_m, at_a, at_b, (at, p, q, at_r, at_fs)) (omega arith) (omega arith))

  pub td_iterate_to_min-leftmost :
      (p : ℕ) (l : Tree) (n : Node) (r : Tree) (fs : Frames)
      → p ≡ n.ptr
      → ZipAt td (zip l n r fs)
      → length (elts fs) + height (node l n r) < 128
      → td_iterate_to_min (record { head = at_ptr p; below = elts fs }) td
        ≡ ok (path_of (leftmost l n r fs)) td
  unfolding td_iterate_to_min
  td_iterate_to_min-leftmost p l n r fs e at short =
      ap (λ k. to_min 128 (at_ptr k) (elts fs) td) e
      ∙ to_min-leftmost 128 l n r fs at (omega arith) short

  -- What is left to do where the loop drops the head of the path.
  popped : Frames → Cmd Moved
  popped [] = pure exhausted
  popped (left_of n r ∷ fs) = next_loop (elt_of n less) (elts fs)
  popped (right_of l n ∷ fs) = next_loop (elt_of n more) (elts fs)

  next_loop-round :
      (e : StackElt) (fs : Frames)
      → next_loop e (elts fs) td ≡ next_round e (elts fs) (popped fs) td
  unfolding next_loop popped
  next_loop-round e [] = refl
  next_loop-round e (left_of n r ∷ fs) = refl
  next_loop-round e (right_of l n ∷ fs) = refl

  popped-climb : (t : Tree) (fs : Frames) → popped fs td ≡ ok (moved_of (climb_next t fs)) td
  unfolding popped climb_next next_round
  popped-climb t [] = refl
  popped-climb t (left_of n r ∷ fs) = next_loop-round (elt_of n less) fs
  popped-climb t (right_of l n ∷ fs) =
      next_loop-round (elt_of n more) fs ∙ popped-climb (node l n t) fs

  td_path_next-next_zip :
      (l : Tree) (n : Node) (r : Tree) (fs : Frames)
      → ZipAt td (zip l n r fs)
      → height (plug fs (node l n r)) < 128
      → td_path_next (path_of (zip l n r fs)) td ≡ ok (moved_of (next_zip l n r fs)) td
  unfolding td_path_next next_round next_zip
  td_path_next-next_zip l n leaf fs (at, p, q, at_l, at_r, at_fs) short =
      next_loop-round (elt_of n equal) fs ∙ rw (is_zero q) (popped-climb (node l n leaf) fs)
  td_path_next-next_zip l n (node a m b) fs (at, p, q, at_l, (at_m, p_m, q_m, at_a, at_b), at_fs)
        short =
      let room : length (elts fs) + height (node l n (node a m b)) < 128 =
        omega (arith, height-plug fs (node l n (node a m b))) in
      next_loop-round (elt_of n equal) fs
      ∙ rw
          (
            points at_m q,
            path_has_room (suc (length (elts fs))) (omega arith),
            td_iterate_to_min-leftmost n.head.next a m b (right_of l n ∷ fs) q
                (at_m, p_m, q_m, at_a, at_b, (at, p, q, at_l, at_fs)) (omega arith),
          )
          refl

  -- td_path_next at a node of a tree in the resource, of height below 128, returns with no error and
  -- leaves the state: it goes to the next node in order; behind the last one the path is left empty.
  pub td_path_next-Onward :
      (t : Tree) (z : Zip)
      → ZipAt td z
      → whole z ≡ t
      → height t < 128
      → (o : Option Zip) × (td_path_next (path_of z) td ≡ ok (moved_of o) td)
        × Onward td t (pre z ++ (z.here ∷ [])) (post z) o
  td_path_next-Onward t z at e short = (
    next_zip z.left z.here z.right z.frames,
    td_path_next-next_zip z.left z.here z.right z.frames at
        (subst (λ k. height k < 128) (sym e) short),
    subst
        (λ k.
          Onward td k (pre z ++ (z.here ∷ [])) (post z) (next_zip z.left z.here z.right z.frames))
        e (next_zip-Onward td z.left z.here z.right z.frames at),
  )
