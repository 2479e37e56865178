-- ===== src/Update/Revalue.antt =====
-- The head of one node of a tree with another value: td_put_replace.c.
use sdbm_tree.Common.{ℕ, refl, sym, subst, ◌∙◌, List, [], ◌∷◌, ◌++◌}
use sdbm_tree.Types.{Td}
use sdbm_tree.Io.Codec.{IsWord}
use sdbm_tree.Space.Free.{Free}
use sdbm_tree.Tree.{Node, node, inorder, NodeAt, TreeAt}
use sdbm_tree.Tree.Zip.{Zip, zip, whole, pre, post, ZipAt}
use sdbm_tree.Tree.Order.{inorder-whole}
use sdbm_tree.Tree.Separate.{
  ApartFrom, Separated, TreeAt-Touches, FramesAt-Touches, with_head, wrote, wrote-Touches,
  NodeAt-wrote,
}
use sdbm_tree.Tree.Keep.{Separated-Clear}
use sdbm_tree.Tree.Spares.{Spares-wrote}
use sdbm_tree.Tree.Plug.{TreeAt-unplug, TreeAt-plug, root-plug}
use sdbm_tree.Update.Room.{NodesAway, Holds, SameHeads-spared, FreeAt-same}

abbrev pub valued : Node → ℕ → Node
valued n value = with_head n (record (n.head) { value = value })

-- Where the nodes lie does not depend on a head.
ApartFrom-valued :
    (x : Node) (xs : List Node) (n : Node) (value : ℕ) (ys : List Node)
    → ApartFrom x (xs ++ (n ∷ ys))
    → ApartFrom x (xs ++ (valued n value ∷ ys))
ApartFrom-valued x [] n value ys h = (h.0, h.1)
ApartFrom-valued x (z ∷ xs) n value ys h = (h.0, ApartFrom-valued x xs n value ys h.1)

valued-ApartFrom :
    (n : Node) (value : ℕ) (ys : List Node) → ApartFrom n ys → ApartFrom (valued n value) ys
valued-ApartFrom n value [] h = tt
valued-ApartFrom n value (y ∷ ys) h = (h.0, valued-ApartFrom n value ys h.1)

Separated-valued :
    (xs : List Node) (n : Node) (value : ℕ) (ys : List Node)
    → Separated (xs ++ (n ∷ ys))
    → Separated (xs ++ (valued n value ∷ ys))
Separated-valued [] n value ys h = (valued-ApartFrom n value ys h.0, h.1)
Separated-valued (x ∷ xs) n value ys h =
    (ApartFrom-valued x xs n value ys h.0, Separated-valued xs n value ys h.1)

NodesAway-valued :
    (xs : List Node) (n : Node) (value : ℕ) (ys : List Node) (ps : List Free)
    → NodesAway (xs ++ (n ∷ ys)) ps
    → NodesAway (xs ++ (valued n value ∷ ys)) ps
NodesAway-valued [] n value ys ps h = (h.0, h.1)
NodesAway-valued (x ∷ xs) n value ys ps h = (h.0, NodesAway-valued xs n value ys ps h.1)

-- The tree with the other value.
abbrev pub revalued : Zip → ℕ → Zip
revalued z value = zip z.left (valued z.here value) z.right z.frames

module _ (td : Td) (z : Zip) (ps : List Free) (value : ℕ) (w : IsWord value)
    (h : Holds td (whole z) ps) where
  abbrev pub rewrote : Td
  rewrote = wrote td z.here.ptr (record (z.here.head) { value = value })

  pub zip_at : ZipAt td z
  zip_at =
      let (here, fs) = TreeAt-unplug td z.frames (node z.left z.here z.right) h.tree.0 in
      (here.0, here.1, here.2, here.3, here.4, fs)

  valued-NodeAt : NodeAt rewrote (valued z.here value)
  valued-NodeAt =
      let words = zip_at.0.words in
      NodeAt-wrote td z.here (record (z.here.head) { value = value }) zip_at.0
        (record {
          value = w;
          size = words.size;
          scn = words.scn;
          checksum = words.checksum;
          next = words.next;
          previous = words.previous;
        })
        refl refl

  revalued-TreeAt : TreeAt rewrote (whole (revalued z value))
  revalued-TreeAt =
      let t = wrote-Touches td z.here.ptr (record (z.here.head) { value = value }) in
      let apart = Separated-Clear z.left z.here z.right z.frames h.tree.2 in
      let at = zip_at in
      TreeAt-plug rewrote z.frames (node z.left (valued z.here value) z.right) z.here.ptr refl
        (
          valued-NodeAt,
          at.1,
          at.2,
          TreeAt-Touches z.here t z.left apart.left at.3,
          TreeAt-Touches z.here t z.right apart.right at.4,
        )
        (FramesAt-Touches z.here t z.frames z.here.ptr apart.front apart.back at.5)

  -- After the write the btree holds the tree with the other value, and the same free chunks.
  pub revalued-Holds : Holds rewrote (whole (revalued z value)) ps
  revalued-Holds = record {
    tree = (
      revalued-TreeAt,
      h.tree.1
          ∙ root-plug z.frames (node z.left z.here z.right)
          ∙ sym (root-plug z.frames (node z.left (valued z.here value) z.right)),
      subst Separated (sym (inorder-whole (revalued z value))) (
          Separated-valued (pre z) z.here value (post z)
            (subst Separated (inorder-whole z) h.tree.2)),
    );
    free = FreeAt-same td rewrote ps h.free refl refl refl (
        SameHeads-spared td.header.size td.mem rewrote.mem (inorder (whole z)) td.header.off_e 0 ps
          (Spares-wrote td z.left z.here z.right z.frames
            (record (z.here.head) { value = value })).outside
          h.beside h.free.linked);
    beside =
        subst (λ k. NodesAway k ps) (sym (inorder-whole (revalued z value)))
          (NodesAway-valued (pre z) z.here value (post z) ps
            (subst (λ k. NodesAway k ps) (inorder-whole z) h.beside));
  }
