-- ===== src/Tree/Child.antt =====
-- A subtree in its place replaced by another: the word of the parent, or of the header, that points
-- to it.
use sdbm_tree.Common.{
  ℕ, ◌≤◌, ◌<◌, ◌≡◌, refl, sym, subst, inr, [], ◌∷◌, false, true, arith, ◌==◌, word_mod,
}
use sdbm_tree.Types.{Td, Keyhead}
use sdbm_tree.Machine.{ok}
use sdbm_tree.Memory.{blit}
use sdbm_tree.Memory.Laws.{slice-blit_outside}
use sdbm_tree.Io.{td_write_keyhead, td_write_header, td_write, encode_header}
use sdbm_tree.Io.Codec.{IsWord, length-encode_header}
use sdbm_tree.Io.Frame.{td_write_keyhead-ok}
use sdbm_tree.Search.{null_keyhead}
use sdbm_tree.Balance.{redirect}
use sdbm_tree.Tree.{
  Node, Tree, leaf, node, root, inorder, NodeAt, left_of, right_of, Frames, before, behind,
  FramesAt,
}
use sdbm_tree.Tree.Nodes.{points}
use sdbm_tree.Tree.Separate.{ApartFrom, ApartFrom-append, Touches, with_head, wrote}

-- The frames with the hole's pointer set to `p`.
abbrev pub set_child : Frames → ℕ → Frames
set_child [] p = []
set_child (left_of n r ∷ fs) p = left_of (with_head n (record (n.head) { previous = p })) r ∷ fs
set_child (right_of l n ∷ fs) p = right_of l (with_head n (record (n.head) { next = p })) ∷ fs

-- What a rotation is told of the parent.
abbrev pub parent_ptr : Frames → ℕ
parent_ptr [] = 0
parent_ptr (left_of n r ∷ fs) = n.ptr
parent_ptr (right_of l n ∷ fs) = n.ptr

abbrev pub parent_head : Frames → Keyhead
parent_head [] = null_keyhead
parent_head (left_of n r ∷ fs) = n.head
parent_head (right_of l n ∷ fs) = n.head

abbrev pub with_top : Td → ℕ → Td
with_top td p =
    let h = record (td.header) { top = p } in
    record td { header = h; mem = blit td.mem 0 (encode_header h) }

abbrev pub redirected : Td → Frames → ℕ → Td
redirected td [] p = with_top td p
redirected td (left_of n r ∷ fs) p = wrote td n.ptr (record (n.head) { previous = p })
redirected td (right_of l n ∷ fs) p = wrote td n.ptr (record (n.head) { next = p })

pub with_top-Touches : (td : Td) (p q : ℕ) → 44 ≤ q → Touches td (with_top td p) q
with_top-Touches td p q low = record {
  size_eq = refl;
  flags_eq = refl;
  outside = λ a k h apart.
      slice-blit_outside td.mem 0 (encode_header (record (td.header) { top = p })) a k
        (inr (omega (arith, length-encode_header (record (td.header) { top = p }))));
}

pub td_write_header-top :
    (td : Td) (p : ℕ)
    → 44 ≤ td.header.size
    → td.header.size < word_mod
    → td_write_header (record td { header = record (td.header) { top = p } })
      ≡ ok tt (with_top td p)
unfolding td_write_header td_write
td_write_header-top td p low word =
    ground (arith, length-encode_header (record (td.header) { top = p }))

module _ {td : Td} {n : Node} (at : NodeAt td n) where
  pub writes : (k : Keyhead) → td_write_keyhead n.ptr k td ≡ ok tt (wrote td n.ptr k)
  writes k =
      td_write_keyhead-ok td n.ptr k
        (record { low = at.low; high = omega (arith, at.high); word = at.word })

  pub offset_IsWord : IsWord n.ptr
  offset_IsWord = omega (arith, at.high, at.word)

-- Pointers to different nodes differ.
pub points_elsewhere :
    {td : Td} (n : Node) (x : Tree)
    → NodeAt td n
    → ApartFrom n (inorder x)
    → (root x == n.ptr) ≡ false
points_elsewhere n leaf at apart = ground (arith, at.low)
points_elsewhere n (node l m r) at apart =
    let h = ApartFrom-append n (inorder l) (m ∷ inorder r) apart in ground (arith, h.1.0)

-- `redirect` writes the pointer of the parent, or that of the header where there is no parent.
pub redirect-redirected :
    (td : Td) (fs : Frames) (n : Node) (p : ℕ)
    → NodeAt td n
    → FramesAt td n.ptr fs
    → ApartFrom n (before fs)
    → ApartFrom n (behind fs)
    → redirect (parent_ptr fs) (parent_head fs) n.ptr p td
      ≡ ok (parent_head (set_child fs p)) (redirected td fs p)
unfolding redirect
redirect-redirected td [] n p at at_fs lo hi =
    rw (td_write_header-top td p (omega (arith, at.low, at.high)) at.word) refl
redirect-redirected td (left_of m r ∷ fs) n p at (at_m, e, e', at_r, at_fs) lo hi =
    let h = ApartFrom-append n (inorder r) (behind fs) hi.1 in
    let other : (m.head.next == n.ptr) ≡ false =
      subst (λ k. (k == n.ptr) ≡ false) (sym e') (points_elsewhere n r at h.0) in
    let this : (m.head.previous == n.ptr) ≡ true = ground (arith, e) in
    rw (points at_m refl, other, this, writes at_m (record (m.head) { previous = p })) refl
redirect-redirected td (right_of l m ∷ fs) n p at (at_m, e, e', at_l, at_fs) lo hi =
    let this : (m.head.next == n.ptr) ≡ true = ground (arith, e') in
    rw (points at_m refl, this, writes at_m (record (m.head) { next = p })) refl
