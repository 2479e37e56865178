-- ===== src/Tree/Turn.antt =====
-- The shapes of a rotation, and two heads written one after the other.
use sdbm_tree.Common.{ℕ, ◌≡◌, ap, ◌∙◌, List, ◌∷◌, ◌++◌, [], refl}
use mathlib.Core.List.{append_assoc}
use sdbm_tree.Types.{Td, Keyhead}
use sdbm_tree.Io.Codec.{IsWord, KeyheadWords}
use sdbm_tree.Tree.{
  Node, Tree, node, root, inorder, NodeAt, TreeAt, Frames, before, behind, FramesAt, left_of,
  right_of,
}
use sdbm_tree.Tree.Child.{redirected, set_child}
use sdbm_tree.Tree.Separate.{
  Apart, ApartFrom, NodeAt-Touches, TreeAt-Touches, FramesAt-Touches, with_head, wrote,
  wrote-Touches, NodeAt-wrote,
}
use sdbm_tree.Tree.Keep.{Entry, entry, entries, entries-node}

-- The head with one of its pointers set.
abbrev pub with_next : Node → ℕ → Node
with_next n p = with_head n (record (n.head) { next = p })

abbrev pub with_previous : Node → ℕ → Node
with_previous n p = with_head n (record (n.head) { previous = p })

pub words_with_next :
    {k : Keyhead} (p : ℕ) → IsWord p → KeyheadWords k → KeyheadWords (record k { next = p })
words_with_next p w ws = record {
  value = ws.value;
  size = ws.size;
  scn = ws.scn;
  checksum = ws.checksum;
  next = w;
  previous = ws.previous;
}

pub words_with_previous :
    {k : Keyhead} (p : ℕ) → IsWord p → KeyheadWords k → KeyheadWords (record k { previous = p })
words_with_previous p w ws = record {
  value = ws.value;
  size = ws.size;
  scn = ws.scn;
  checksum = ws.checksum;
  next = ws.next;
  previous = w;
}

-- The two shapes of a rotation: `m` is below `n` in the first and above it in the second.
abbrev pub left_low : Tree → Node → Tree → Node → Tree → Tree
left_low a n b m c = node (node a n b) m c

abbrev pub right_low : Tree → Node → Tree → Node → Tree → Tree
right_low a n b m c = node a n (node b m c)

module _ (a : Tree) (n : Node) (b : Tree) (m : Node) (c : Tree) where
  abbrev pub in_line : List Entry
  in_line = entries a ++ (entry n ∷ (entries b ++ (entry m ∷ entries c)))

  pub entries-left_low : entries (left_low a n b m c) ≡ in_line
  entries-left_low =
      entries-node (node a n b) m c
      ∙ ap (λ k. k ++ (entry m ∷ entries c)) (entries-node a n b)
      ∙ append_assoc (entries a) (entry n ∷ entries b) (entry m ∷ entries c)

  pub entries-right_low : entries (right_low a n b m c) ≡ in_line
  entries-right_low =
      entries-node a n (node b m c) ∙ ap (λ k. entries a ++ (entry n ∷ k)) (entries-node b m c)

-- The offset of the whole tree, with a subtree at `p` in the hole.
abbrev pub top_of : ℕ → Frames → ℕ
top_of p [] = p
top_of p (left_of n r ∷ fs) = top_of n.ptr fs
top_of p (right_of l n ∷ fs) = top_of n.ptr fs

-- A tree is in the resource, and the header points to it: its subtree at the hole and the frames
-- round it.
abbrev pub PlacedAt : Td → Tree → Frames → Type 0
PlacedAt td t fs = TreeAt td t × FramesAt td (root t) fs × (td.header.top ≡ top_of (root t) fs)

pub top-redirected :
    (td : Td) (fs : Frames) (p q : ℕ)
    → td.header.top ≡ top_of p fs
    → (redirected td fs q).header.top ≡ top_of q (set_child fs q)
top-redirected td [] p q e = refl
top-redirected td (left_of n r ∷ fs) p q e = e
top-redirected td (right_of l n ∷ fs) p q e = e

-- Two heads written one after the other.
module _ (td : Td) (q q' : Node) (k k' : Keyhead) where
  abbrev pub wrote_both : Td
  wrote_both = wrote (wrote td q.ptr k) q'.ptr k'

  pub both-TreeAt :
      (x : Tree)
      → ApartFrom q (inorder x)
      → ApartFrom q' (inorder x)
      → TreeAt td x
      → TreeAt wrote_both x
  both-TreeAt x h h' at =
      TreeAt-Touches q' (wrote-Touches (wrote td q.ptr k) q'.ptr k') x h'
        (TreeAt-Touches q (wrote-Touches td q.ptr k) x h at)

  pub both-FramesAt :
      (fs : Frames) (p : ℕ)
      → ApartFrom q (before fs) × ApartFrom q (behind fs)
      → ApartFrom q' (before fs) × ApartFrom q' (behind fs)
      → FramesAt td p fs
      → FramesAt wrote_both p fs
  both-FramesAt fs p h h' at =
      FramesAt-Touches q' (wrote-Touches (wrote td q.ptr k) q'.ptr k') fs p h'.0 h'.1
        (FramesAt-Touches q (wrote-Touches td q.ptr k) fs p h.0 h.1 at)

  pub both-first :
      Apart q' q
      → NodeAt td q
      → KeyheadWords k
      → k.size ≡ q.head.size
      → k.checksum ≡ q.head.checksum
      → NodeAt wrote_both (with_head q k)
  both-first apart at w e e' =
      NodeAt-Touches q' (wrote-Touches (wrote td q.ptr k) q'.ptr k') (with_head q k) apart
        (NodeAt-wrote td q k at w e e')

  pub both-second :
      Apart q q'
      → NodeAt td q'
      → KeyheadWords k'
      → k'.size ≡ q'.head.size
      → k'.checksum ≡ q'.head.checksum
      → NodeAt wrote_both (with_head q' k')
  both-second apart at w e e' =
      NodeAt-wrote (wrote td q.ptr k) q' k'
        (NodeAt-Touches q (wrote-Touches td q.ptr k) q' apart at) w e e'
