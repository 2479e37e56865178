-- ===== src/Tree/Keep.antt =====
-- What stays of a tree when one of its nodes, or the pointer to a subtree, is written.
use mathlib.Core.List.{map-append}
use sdbm_tree.Common.{
  ℕ, ◌+◌, ◌≡◌, refl, sym, subst, ap, ◌∙◌, inr, List, [], ◌∷◌, ◌++◌, map, arith, length,
}
use sdbm_tree.Types.{Td, Keyhead, Header}
use sdbm_tree.Memory.Laws.{slice-blit_outside}
use sdbm_tree.Io.{encode_header}
use sdbm_tree.Io.Codec.{IsWord, KeyheadWords, length-encode_header}
use sdbm_tree.Tree.{
  Node, Tree, leaf, node, inorder, NodeAt, TreeAt, left_of, right_of, Frames, plug, before, behind,
  FramesAt,
}
use sdbm_tree.Tree.Zip.{zip}
use sdbm_tree.Tree.Order.{inorder-whole}
use sdbm_tree.Tree.Separate.{
  ApartFrom, ApartFrom-append, Separated, Separated-middle, TreeAt-Touches, FramesAt-Touches,
  NodeAt-same, with_head, wrote-Touches, NodeAt-wrote,
}
use sdbm_tree.Tree.Child.{set_child, with_top, redirected}

-- A node that is apart from all others of its tree.
pub record Clear (l : Tree) (n : Node) (r : Tree) (fs : Frames) : Type 0 where
  pub left : ApartFrom n (inorder l)
  pub right : ApartFrom n (inorder r)
  pub front : ApartFrom n (before fs)
  pub back : ApartFrom n (behind fs)

pub Separated-Clear :
    (l : Tree) (n : Node) (r : Tree) (fs : Frames)
    → Separated (inorder (plug fs (node l n r)))
    → Clear l n r fs
Separated-Clear l n r fs s =
    let m =
      Separated-middle (before fs ++ inorder l) n (inorder r ++ behind fs)
        (subst Separated (inorder-whole (zip l n r fs)) s) in
    let f = ApartFrom-append n (before fs) (inorder l) m.0 in
    let b = ApartFrom-append n (inorder r) (behind fs) m.1 in
    record { left = f.1; right = b.0; front = f.0; back = b.1 }

ApartFrom-join :
    (n : Node) (xs ys : List Node) → ApartFrom n xs → ApartFrom n ys → ApartFrom n (xs ++ ys)
ApartFrom-join n [] ys h h' = h'
ApartFrom-join n (x ∷ xs) ys h h' = (h.0, ApartFrom-join n xs ys h.1 h')

-- Another pointer in the parent moves no node.
pub before-set_child :
    (n : Node) (fs : Frames) (p : ℕ)
    → ApartFrom n (before fs)
    → ApartFrom n (before (set_child fs p))
before-set_child n [] p h = h
before-set_child n (left_of m r ∷ fs) p h = h
before-set_child n (right_of l m ∷ fs) p h =
    let a = ApartFrom-append n (before fs) (inorder l ++ (m ∷ [])) h in
    let b = ApartFrom-append n (inorder l) (m ∷ []) a.1 in
    ApartFrom-join n (before fs) _ a.0 (ApartFrom-join n (inorder l) _ b.0 b.1)

pub behind-set_child :
    (n : Node) (fs : Frames) (p : ℕ)
    → ApartFrom n (behind fs)
    → ApartFrom n (behind (set_child fs p))
behind-set_child n [] p h = h
behind-set_child n (left_of m r ∷ fs) p h = h
behind-set_child n (right_of l m ∷ fs) p h = h

-- The writing of the header's `top`.
pub NodeAt-with_top : (td : Td) (p : ℕ) (n : Node) → NodeAt td n → NodeAt (with_top td p) n
NodeAt-with_top td p n at =
    let h : Header = record (td.header) { top = p } in
    NodeAt-same td (with_top td p) refl refl n
      (slice-blit_outside td.mem 0 (encode_header h) n.ptr 24
        (inr (omega (arith, length-encode_header h, at.low))))
      (slice-blit_outside td.mem 0 (encode_header h) (n.ptr + 24) (length n.key)
        (inr (omega (arith, length-encode_header h, at.low))))
      at

pub TreeAt-with_top : (td : Td) (p : ℕ) (t : Tree) → TreeAt td t → TreeAt (with_top td p) t
TreeAt-with_top td p leaf at = tt
TreeAt-with_top td p (node l n r) (at, e, e', at_l, at_r) =
    (NodeAt-with_top td p n at, e, e', TreeAt-with_top td p l at_l, TreeAt-with_top td p r at_r)

-- The subtree is kept, and its parent, which pointed to `q`, points to `p`.
pub redirected-keeps :
    (td : Td) (t : Tree) (fs : Frames) (q p : ℕ)
    → IsWord p
    → Separated (inorder (plug fs t))
    → TreeAt td t
    → FramesAt td q fs
    → TreeAt (redirected td fs p) t × FramesAt (redirected td fs p) p (set_child fs p)
redirected-keeps td t [] q p w s at at_fs = (TreeAt-with_top td p t at, tt)
redirected-keeps td t (left_of m x ∷ fs) q p w s at (at_m, e, e', at_x, at_fs) =
    let k : Keyhead = record (m.head) { previous = p } in
    let c = Separated-Clear t m x fs s in
    let w' = wrote-Touches td m.ptr k in
    let words : KeyheadWords k = record {
      value = at_m.words.value;
      size = at_m.words.size;
      scn = at_m.words.scn;
      checksum = at_m.words.checksum;
      next = at_m.words.next;
      previous = w;
    } in
    (
      TreeAt-Touches m w' t c.left at,
      (
        NodeAt-wrote td m k at_m words refl refl,
        refl,
        e',
        TreeAt-Touches m w' x c.right at_x,
        FramesAt-Touches m w' fs m.ptr c.front c.back at_fs,
      ),
    )
redirected-keeps td t (right_of x m ∷ fs) q p w s at (at_m, e, e', at_x, at_fs) =
    let k : Keyhead = record (m.head) { next = p } in
    let c = Separated-Clear x m t fs s in
    let w' = wrote-Touches td m.ptr k in
    let words : KeyheadWords k = record {
      value = at_m.words.value;
      size = at_m.words.size;
      scn = at_m.words.scn;
      checksum = at_m.words.checksum;
      next = w;
      previous = at_m.words.previous;
    } in
    (
      TreeAt-Touches m w' t c.right at,
      (
        NodeAt-wrote td m k at_m words refl refl,
        e,
        refl,
        TreeAt-Touches m w' x c.left at_x,
        FramesAt-Touches m w' fs m.ptr c.front c.back at_fs,
      ),
    )

-- The nodes of a tree without their pointers: offset, key and value.
pub record Entry : Type 0 where
  pub ptr : ℕ
  pub key : List ℕ
  pub value : ℕ

abbrev pub entry : Node → Entry
entry n = record { ptr = n.ptr; key = n.key; value = n.head.value }

abbrev pub entries : Tree → List Entry
entries t = map entry (inorder t)

pub entries-node :
    (l : Tree) (n : Node) (r : Tree) → entries (node l n r) ≡ entries l ++ (entry n ∷ entries r)
entries-node l n r = map-append entry (inorder l) (n ∷ inorder r)

entries-plug :
    (fs : Frames) (x y : Tree) → entries x ≡ entries y → entries (plug fs x) ≡ entries (plug fs y)
entries-plug [] x y e = e
entries-plug (left_of n r ∷ fs) x y e =
    entries-plug fs (node x n r) (node y n r)
      (entries-node x n r ∙ ap (λ k. k ++ (entry n ∷ entries r)) e ∙ sym (entries-node y n r))
entries-plug (right_of l n ∷ fs) x y e =
    entries-plug fs (node l n x) (node l n y)
      (entries-node l n x ∙ ap (λ k. entries l ++ (entry n ∷ k)) e ∙ sym (entries-node l n y))

-- A subtree in the place of another with the same entries.
pub entries-set_child :
    (fs : Frames) (p : ℕ) (x y : Tree)
    → entries x ≡ entries y
    → entries (plug (set_child fs p) x) ≡ entries (plug fs y)
entries-set_child [] p x y e = e
entries-set_child (left_of n r ∷ fs) p x y e =
    entries-plug fs (node x (with_head n (record (n.head) { previous = p })) r) (node y n r) (
      entries-node x (with_head n (record (n.head) { previous = p })) r
      ∙ ap (λ k. k ++ (entry n ∷ entries r)) e
      ∙ sym (entries-node y n r))
entries-set_child (right_of l n ∷ fs) p x y e =
    entries-plug fs (node l (with_head n (record (n.head) { next = p })) x) (node l n y) (
      entries-node l (with_head n (record (n.head) { next = p })) x
      ∙ ap (λ k. entries l ++ (entry n ∷ k)) e
      ∙ sym (entries-node l n y))
