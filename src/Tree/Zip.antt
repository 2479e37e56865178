-- ===== src/Tree/Zip.antt =====
-- A node in a tree, with what is before and behind it in order, and the steps to its neighbours.
use mathlib.Core.List.{append_assoc, append-nil}
use sdbm_tree.Common.{
  ℕ, ◌+◌, ◌≤◌, ◌≡◌, refl, sym, ◌∙◌, List, [], ◌∷◌, ◌++◌, Option, none, some, arith, length,
}
use sdbm_tree.Types.{Td}
use sdbm_tree.Types.Cmp.{equal}
use sdbm_tree.Search.{KeyPath, Moved, moved, exhausted}
use sdbm_tree.Tree.{
  Node, Tree, leaf, node, root, inorder, height, NodeAt, TreeAt, left_of, right_of, Frames, plug,
  elt_of, elts, before, behind, FramesAt,
}

pub record Zip : Type 0 where
  pub left : Tree
  pub here : Node
  pub right : Tree
  pub frames : Frames

abbrev pub zip : Tree → Node → Tree → Frames → Zip
zip l n r fs = record { left = l; here = n; right = r; frames = fs }

abbrev pub whole : Zip → Tree
whole z = plug z.frames (node z.left z.here z.right)

-- The nodes before and behind the one that is looked at.
abbrev pub pre : Zip → List Node
pre z = before z.frames ++ inorder z.left

abbrev pub post : Zip → List Node
post z = inorder z.right ++ behind z.frames

abbrev pub path_of : Zip → KeyPath
path_of z = record { head = elt_of z.here equal; below = elts z.frames }

abbrev pub ZipAt : Td → Zip → Type 0
ZipAt td z =
    NodeAt td z.here
    × (z.here.head.previous ≡ root z.left)
    × (z.here.head.next ≡ root z.right)
    × TreeAt td z.left
    × TreeAt td z.right
    × FramesAt td z.here.ptr z.frames

-- The first and the last node of a subtree.
unfoldable pub leftmost : Tree → Node → Tree → Frames → Zip
leftmost leaf n r fs = zip leaf n r fs
leftmost (node a m b) n r fs = leftmost a m b (left_of n r ∷ fs)

unfoldable pub rightmost : Tree → Node → Tree → Frames → Zip
rightmost l n leaf fs = zip l n leaf fs
rightmost l n (node a m b) fs = rightmost a m b (right_of l n ∷ fs)

-- The nearest node above that has the subtree on its `previous` side, or on its `next` side.
unfoldable pub climb_next : Tree → Frames → Option Zip
climb_next t [] = none
climb_next t (left_of n r ∷ fs) = some (zip t n r fs)
climb_next t (right_of l n ∷ fs) = climb_next (node l n t) fs

unfoldable pub climb_previous : Tree → Frames → Option Zip
climb_previous t [] = none
climb_previous t (right_of l n ∷ fs) = some (zip l n t fs)
climb_previous t (left_of n r ∷ fs) = climb_previous (node t n r) fs

-- The neighbours of a node, in order.
unfoldable pub next_zip : Tree → Node → Tree → Frames → Option Zip
next_zip l n leaf fs = climb_next (node l n leaf) fs
next_zip l n (node a m b) fs = some (leftmost a m b (right_of l n ∷ fs))

unfoldable pub previous_zip : Tree → Node → Tree → Frames → Option Zip
previous_zip leaf n r fs = climb_previous (node leaf n r) fs
previous_zip (node a m b) n r fs = some (rightmost a m b (left_of n r ∷ fs))

abbrev pub moved_of : Option Zip → Moved
moved_of none = exhausted
moved_of (some z) = moved (path_of z)

-- `o` is the neighbour of the hole of `fs` with `t` in it, which holds what is before the hole and
-- in it, in `seen`, and behind it, in `rest`.
abbrev pub Onward : Td → Tree → (seen rest : List Node) → Option Zip → Type 0
Onward td t seen rest none = rest ≡ []
Onward td t seen rest (some z) =
    ZipAt td z × (whole z ≡ t) × (pre z ≡ seen) × (rest ≡ z.here ∷ post z)

abbrev pub Backward : Td → Tree → (seen rest : List Node) → Option Zip → Type 0
Backward td t seen rest none = seen ≡ []
Backward td t seen rest (some z) =
    ZipAt td z × (whole z ≡ t) × (seen ≡ pre z ++ (z.here ∷ [])) × (post z ≡ rest)

module _ (td : Td) where
  pub leftmost-Onward :
      (l : Tree) (n : Node) (r : Tree) (fs : Frames)
      → ZipAt td (zip l n r fs)
      → Onward td
          (plug fs (node l n r))
          (before fs)
          (inorder l ++ (n ∷ (inorder r ++ behind fs)))
          (some (leftmost l n r fs))
  unfolding leftmost
  leftmost-Onward leaf n r fs at = (at, refl, append-nil (before fs), refl)
  leftmost-Onward (node a m b) n r fs (at, p, q, (at_m, p_m, q_m, at_a, at_b), at_r, at_fs) =
      rw (append_assoc (inorder a) (m ∷ inorder b) (n ∷ (inorder r ++ behind fs))) (
        leftmost-Onward a m b (left_of n r ∷ fs)
          (at_m, p_m, q_m, at_a, at_b, (at, p, q, at_r, at_fs)))

  pub climb_next-Onward :
      (t : Tree) (fs : Frames) (p : ℕ)
      → p ≡ root t
      → TreeAt td t
      → FramesAt td p fs
      → Onward td (plug fs t) (before fs ++ inorder t) (behind fs) (climb_next t fs)
  unfolding climb_next
  climb_next-Onward t [] p e at at_fs = refl
  climb_next-Onward t (left_of n r ∷ fs) p e at (at_n, q, q', at_r, at_fs) =
      ((at_n, q ∙ e, q', at, at_r, at_fs), refl, refl, refl)
  climb_next-Onward t (right_of l n ∷ fs) p e at (at_n, q, q', at_l, at_fs) =
      rw
        (
          append_assoc (before fs) (inorder l ++ (n ∷ [])) (inorder t),
          append_assoc (inorder l) (n ∷ []) (inorder t),
        )
        (climb_next-Onward (node l n t) fs n.ptr refl (at_n, q, q' ∙ e, at_l, at) at_fs)

  pub rightmost-Backward :
      (l : Tree) (n : Node) (r : Tree) (fs : Frames)
      → ZipAt td (zip l n r fs)
      → Backward td
          (plug fs (node l n r))
          (before fs ++ (inorder l ++ (n ∷ inorder r)))
          (behind fs)
          (some (rightmost l n r fs))
  unfolding rightmost
  rightmost-Backward l n leaf fs at =
      (at, refl, sym (append_assoc (before fs) (inorder l) (n ∷ [])), refl)
  rightmost-Backward l n (node a m b) fs (at, p, q, at_l, (at_m, p_m, q_m, at_a, at_b), at_fs) =
      rw
        (
          ← append_assoc (inorder l) (n ∷ []) (inorder a ++ (m ∷ inorder b)),
          ← append_assoc (before fs) (inorder l ++ (n ∷ [])) (inorder a ++ (m ∷ inorder b)),
        )
        (rightmost-Backward a m b (right_of l n ∷ fs)
          (at_m, p_m, q_m, at_a, at_b, (at, p, q, at_l, at_fs)))

  pub climb_previous-Backward :
      (t : Tree) (fs : Frames) (p : ℕ)
      → p ≡ root t
      → TreeAt td t
      → FramesAt td p fs
      → Backward td (plug fs t) (before fs) (inorder t ++ behind fs) (climb_previous t fs)
  unfolding climb_previous
  climb_previous-Backward t [] p e at at_fs = refl
  climb_previous-Backward t (right_of l n ∷ fs) p e at (at_n, q, q', at_l, at_fs) = (
    (at_n, q, q' ∙ e, at_l, at, at_fs),
    refl,
    sym (append_assoc (before fs) (inorder l) (n ∷ [])),
    refl,
  )
  climb_previous-Backward t (left_of n r ∷ fs) p e at (at_n, q, q', at_r, at_fs) =
      rw (← append_assoc (inorder t) (n ∷ inorder r) (behind fs))
        (climb_previous-Backward (node t n r) fs n.ptr refl (at_n, q ∙ e, q', at, at_r) at_fs)

  pub next_zip-Onward :
      (l : Tree) (n : Node) (r : Tree) (fs : Frames)
      → ZipAt td (zip l n r fs)
      → Onward td
          (plug fs (node l n r))
          (pre (zip l n r fs) ++ (n ∷ []))
          (post (zip l n r fs))
          (next_zip l n r fs)
  unfolding next_zip
  next_zip-Onward l n leaf fs (at, p, q, at_l, at_r, at_fs) =
      rw (append_assoc (before fs) (inorder l) (n ∷ []))
        (climb_next-Onward (node l n leaf) fs n.ptr refl (at, p, q, at_l, at_r) at_fs)
  next_zip-Onward l n (node a m b) fs (at, p, q, at_l, (at_m, p_m, q_m, at_a, at_b), at_fs) =
      rw
        (
          append_assoc (before fs) (inorder l) (n ∷ []),
          append_assoc (inorder a) (m ∷ inorder b) (behind fs),
        )
        (leftmost-Onward a m b (right_of l n ∷ fs)
          (at_m, p_m, q_m, at_a, at_b, (at, p, q, at_l, at_fs)))

  pub previous_zip-Backward :
      (l : Tree) (n : Node) (r : Tree) (fs : Frames)
      → ZipAt td (zip l n r fs)
      → Backward td
          (plug fs (node l n r))
          (pre (zip l n r fs))
          (n ∷ post (zip l n r fs))
          (previous_zip l n r fs)
  unfolding previous_zip
  previous_zip-Backward leaf n r fs (at, p, q, at_l, at_r, at_fs) =
      rw (append-nil (before fs))
        (climb_previous-Backward (node leaf n r) fs n.ptr refl (at, p, q, at_l, at_r) at_fs)
  previous_zip-Backward (node a m b) n r fs (at, p, q, (at_m, p_m, q_m, at_a, at_b), at_r, at_fs) =
      rightmost-Backward a m b (left_of n r ∷ fs)
        (at_m, p_m, q_m, at_a, at_b, (at, p, q, at_r, at_fs))

-- A path to a node of a tree is no longer than the tree is high.
pub height-plug : (fs : Frames) (t : Tree) → length (elts fs) + height t ≤ height (plug fs t)
height-plug [] t = omega arith
height-plug (left_of n r ∷ fs) t = omega (arith, height-plug fs (node t n r))
height-plug (right_of l n ∷ fs) t = omega (arith, height-plug fs (node l n t))
