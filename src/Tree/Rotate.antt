-- ===== src/Tree/Rotate.antt =====
-- td_rotate_left.c and td_rotate_right.c on a subtree in its place.
use sdbm_tree.Common.{◌≡◌, refl, sym, ◌∙◌, [], ◌∷◌, ◌++◌}
use sdbm_tree.Types.{Td, Keyhead}
use sdbm_tree.Machine.{ok}
use sdbm_tree.Balance.{td_rotate_left, td_rotate_right}
use sdbm_tree.Tree.{Node, Tree, node, inorder, left_of, right_of, Frames, plug, before, behind}
use sdbm_tree.Tree.Nodes.{read_head, points}
use sdbm_tree.Tree.Separate.{ApartFrom-append, Separated, NodeAt-Touches, wrote-Touches, wrote}
use sdbm_tree.Tree.Child.{
  set_child, parent_ptr, parent_head, redirected, writes, offset_IsWord, redirect-redirected,
}
use sdbm_tree.Tree.Keep.{
  Separated-Clear, before-set_child, behind-set_child, redirected-keeps, entries, entries-set_child,
}
use sdbm_tree.Tree.Spares.{Spares, Spares-trans, Spares-wrote, Spares-redirected}
use sdbm_tree.Tree.Turn.{
  top-redirected, with_next, with_previous, words_with_next, words_with_previous, left_low,
  right_low, entries-left_low, entries-right_low, PlacedAt, wrote_both, both-TreeAt, both-FramesAt,
  both-first, both-second,
}

module _ (td : Td) (a : Tree) (n : Node) (b : Tree) (m : Node) (c : Tree) (fs : Frames) where
  -- The state after the three writes of a rotation to the left, and to the right.
  abbrev pub left_rotated : Td
  left_rotated =
      wrote_both (redirected td fs m.ptr) m n (record (m.head) { previous = n.ptr })
        (record (n.head) { next = m.head.previous })

  abbrev pub right_rotated : Td
  right_rotated =
      wrote_both (redirected td fs n.ptr) n m (record (n.head) { next = m.ptr })
        (record (m.head) { previous = n.head.next })

  left_rotated-PlacedAt :
      Separated (inorder (plug fs (right_low a n b m c)))
      → PlacedAt td (right_low a n b m c) fs
      → PlacedAt left_rotated
          (left_low a (with_next n m.head.previous) b (with_previous m n.ptr) c)
          (set_child fs m.ptr)
  left_rotated-PlacedAt s (at, at_fs, top) =
      let cn = Separated-Clear a n (node b m c) fs s in
      let cm = Separated-Clear b m c (right_of a n ∷ fs) s in
      let up = ApartFrom-append m (before fs) (inorder a ++ (n ∷ [])) cm.front in
      let side = ApartFrom-append m (inorder a) (n ∷ []) up.1 in
      let low = ApartFrom-append n (inorder b) (m ∷ inorder c) cn.right in
      let w = offset_IsWord at.4.0 in
      let (kept, kept_fs) =
        redirected-keeps td (node a n (node b m c)) fs n.ptr m.ptr w s at at_fs in
      let td' = redirected td fs m.ptr in
      let k : Keyhead = record (m.head) { previous = n.ptr } in
      let k' : Keyhead = record (n.head) { next = m.head.previous } in
      (
        (
          both-first td' m n k k' low.1.0 kept.4.0
              (words_with_previous n.ptr (offset_IsWord at.0) kept.4.0.words) refl refl,
          refl,
          at.4.2,
          (
            both-second td' m n k k' side.1.0 kept.0
                (words_with_next m.head.previous kept.4.0.words.previous kept.0.words) refl refl,
            at.1,
            at.4.1,
            both-TreeAt td' m n k k' a side.0 cn.left kept.3,
            both-TreeAt td' m n k k' b cm.left low.0 kept.4.3,
          ),
          both-TreeAt td' m n k k' c cm.right low.1.1 kept.4.4,
        ),
        both-FramesAt td' m n k k' (set_child fs m.ptr) m.ptr
            (before-set_child m fs m.ptr up.0, behind-set_child m fs m.ptr cm.back)
            (before-set_child n fs m.ptr cn.front, behind-set_child n fs m.ptr cn.back) kept_fs,
        top-redirected td fs n.ptr m.ptr top,
      )

  right_rotated-PlacedAt :
      Separated (inorder (plug fs (left_low a n b m c)))
      → PlacedAt td (left_low a n b m c) fs
      → PlacedAt right_rotated
          (right_low a (with_next n m.ptr) b (with_previous m n.head.next) c)
          (set_child fs n.ptr)
  right_rotated-PlacedAt s (at, at_fs, top) =
      let cm = Separated-Clear (node a n b) m c fs s in
      let cn = Separated-Clear a n b (left_of m c ∷ fs) s in
      let up = ApartFrom-append n (inorder c) (behind fs) cn.back.1 in
      let low = ApartFrom-append m (inorder a) (n ∷ inorder b) cm.left in
      let w = offset_IsWord at.3.0 in
      let (kept, kept_fs) =
        redirected-keeps td (node (node a n b) m c) fs m.ptr n.ptr w s at at_fs in
      let td' = redirected td fs n.ptr in
      let k : Keyhead = record (n.head) { next = m.ptr } in
      let k' : Keyhead = record (m.head) { previous = n.head.next } in
      (
        (
          both-first td' n m k k' low.1.0 kept.3.0
              (words_with_next m.ptr (offset_IsWord at.0) kept.3.0.words) refl refl,
          at.3.1,
          refl,
          both-TreeAt td' n m k k' a cn.left low.0 kept.3.3,
          (
            both-second td' n m k k' cn.back.0 kept.0
                (words_with_previous n.head.next kept.3.0.words.next kept.0.words) refl refl,
            at.3.2,
            at.2,
            both-TreeAt td' n m k k' b cn.right low.1.1 kept.3.4,
            both-TreeAt td' n m k k' c up.0 cm.right kept.4,
          ),
        ),
        both-FramesAt td' n m k k' (set_child fs n.ptr) n.ptr
            (before-set_child n fs n.ptr cn.front, behind-set_child n fs n.ptr up.1)
            (before-set_child m fs n.ptr cm.front, behind-set_child m fs n.ptr cm.back) kept_fs,
        top-redirected td fs m.ptr n.ptr top,
      )

  runs_left :
      Separated (inorder (plug fs (right_low a n b m c)))
      → PlacedAt td (right_low a n b m c) fs
      → td_rotate_left (parent_ptr fs) (parent_head fs) n.ptr n.head td
        ≡ ok (parent_head (set_child fs m.ptr)) left_rotated
  unfolding td_rotate_left
  runs_left s (at, at_fs, top) =
      let cn = Separated-Clear a n (node b m c) fs s in
      let cm = Separated-Clear b m c (right_of a n ∷ fs) s in
      let up = ApartFrom-append m (before fs) (inorder a ++ (n ∷ [])) cm.front in
      let side = ApartFrom-append m (inorder a) (n ∷ []) up.1 in
      let (kept, kept_fs) =
        redirected-keeps td (node a n (node b m c)) fs n.ptr m.ptr (offset_IsWord at.4.0) s at
          at_fs in
      let td' = redirected td fs m.ptr in
      let k : Keyhead = record (m.head) { previous = n.ptr } in
      let at_n = NodeAt-Touches m (wrote-Touches td' m.ptr k) n side.1.0 kept.0 in
      rw
        (
          points at.4.0 at.2,
          at.2,
          read_head at.4.0,
          redirect-redirected td fs n m.ptr at.0 at_fs cn.front cn.back,
          writes kept.4.0 k,
          writes at_n (record (n.head) { next = m.head.previous }),
        )
        refl

  runs_right :
      Separated (inorder (plug fs (left_low a n b m c)))
      → PlacedAt td (left_low a n b m c) fs
      → td_rotate_right (parent_ptr fs) (parent_head fs) m.ptr m.head td
        ≡ ok (parent_head (set_child fs n.ptr)) right_rotated
  unfolding td_rotate_right
  runs_right s (at, at_fs, top) =
      let cm = Separated-Clear (node a n b) m c fs s in
      let cn = Separated-Clear a n b (left_of m c ∷ fs) s in
      let (kept, kept_fs) =
        redirected-keeps td (node (node a n b) m c) fs m.ptr n.ptr (offset_IsWord at.3.0) s at
          at_fs in
      let td' = redirected td fs n.ptr in
      let k : Keyhead = record (n.head) { next = m.ptr } in
      let at_m = NodeAt-Touches n (wrote-Touches td' n.ptr k) m cn.back.0 kept.0 in
      rw
        (
          points at.3.0 at.1,
          at.1,
          read_head at.3.0,
          redirect-redirected td fs m n.ptr at.0 at_fs cm.front cm.back,
          writes kept.3.0 k,
          writes at_m (record (m.head) { previous = n.head.next }),
        )
        refl

  -- The bytes that the three writes leave alone.
  pub left_rotated-Spares : Spares td left_rotated (plug fs (right_low a n b m c))
  left_rotated-Spares =
      let t = plug fs (right_low a n b m c) in
      let td1 = redirected td fs m.ptr in
      let td2 = wrote td1 m.ptr (record (m.head) { previous = n.ptr }) in
      Spares-trans td td2 left_rotated t t refl
        (Spares-trans td td1 td2 t t refl (Spares-redirected td fs (right_low a n b m c) m.ptr)
          (Spares-wrote td1 b m c (right_of a n ∷ fs) (record (m.head) { previous = n.ptr })))
        (Spares-wrote td2 a n (node b m c) fs (record (n.head) { next = m.head.previous }))

  pub right_rotated-Spares : Spares td right_rotated (plug fs (left_low a n b m c))
  right_rotated-Spares =
      let t = plug fs (left_low a n b m c) in
      let td1 = redirected td fs n.ptr in
      let td2 = wrote td1 n.ptr (record (n.head) { next = m.ptr }) in
      Spares-trans td td2 right_rotated t t refl
        (Spares-trans td td1 td2 t t refl (Spares-redirected td fs (left_low a n b m c) n.ptr)
          (Spares-wrote td1 a n b (left_of m c ∷ fs) (record (n.head) { next = m.ptr })))
        (Spares-wrote td2 (node a n b) m c fs (record (m.head) { previous = n.head.next }))

  -- On a subtree in its place below the header whose node `n` has the `next` child `m`, in a resource whose nodes do
  -- not overlap, td_rotate_left returns with no error. It hands back the parent's head as it then
  -- is; `m` stands in the place of `n`, with `n` below it; and the whole tree has the same offsets,
  -- keys and values in the same order as before.
  pub td_rotate_left-turns :
      Separated (inorder (plug fs (right_low a n b m c)))
      → PlacedAt td (right_low a n b m c) fs
      → (td_rotate_left (parent_ptr fs) (parent_head fs) n.ptr n.head td
          ≡ ok (parent_head (set_child fs m.ptr)) left_rotated)
        × PlacedAt left_rotated
            (left_low a (with_next n m.head.previous) b (with_previous m n.ptr) c)
            (set_child fs m.ptr)
        × (entries (
              plug
                (set_child fs m.ptr)
                (left_low a (with_next n m.head.previous) b (with_previous m n.ptr) c))
            ≡ entries (plug fs (right_low a n b m c)))
  td_rotate_left-turns s at = (
    runs_left s at,
    left_rotated-PlacedAt s at,
    entries-set_child fs m.ptr
        (left_low a (with_next n m.head.previous) b (with_previous m n.ptr) c) (right_low a n b m c)
        (entries-left_low a (with_next n m.head.previous) b (with_previous m n.ptr) c
          ∙ sym (entries-right_low a n b m c)),
  )

  -- On a subtree in its place below the header whose node `m` has the `previous` child `n`, in a resource whose nodes
  -- do not overlap, td_rotate_right returns with no error. It hands back the parent's head as it
  -- then is; `n` stands in the place of `m`, with `m` below it; and the whole tree has the same
  -- offsets, keys and values in the same order as before.
  pub td_rotate_right-turns :
      Separated (inorder (plug fs (left_low a n b m c)))
      → PlacedAt td (left_low a n b m c) fs
      → (td_rotate_right (parent_ptr fs) (parent_head fs) m.ptr m.head td
          ≡ ok (parent_head (set_child fs n.ptr)) right_rotated)
        × PlacedAt right_rotated
            (right_low a (with_next n m.ptr) b (with_previous m n.head.next) c)
            (set_child fs n.ptr)
        × (entries (
              plug
                (set_child fs n.ptr)
                (right_low a (with_next n m.ptr) b (with_previous m n.head.next) c))
            ≡ entries (plug fs (left_low a n b m c)))
  td_rotate_right-turns s at = (
    runs_right s at,
    right_rotated-PlacedAt s at,
    entries-set_child fs n.ptr (right_low a (with_next n m.ptr) b (with_previous m n.head.next) c)
        (left_low a n b m c)
        (entries-right_low a (with_next n m.ptr) b (with_previous m n.head.next) c
          ∙ sym (entries-left_low a n b m c)),
  )
