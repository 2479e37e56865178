-- ===== src/Update/Unlink.antt =====
-- td_del_pathhead.c: the node at the head of the path taken out of the tree.
use sdbm_tree.Tree.Whole.{HoldsAt, TreeAt-same}
use sdbm_tree.Tree.Plug.{TreeAt-plug, root-plug}
use sdbm_tree.Tree.Turn.{top_of, top-redirected}
use sdbm_tree.Tree.Spares.{Spares, Spares-refl, Spares-trans, Spares-redirected}
use sdbm_tree.Tree.Entries.{Separated-map}
use sdbm_tree.Tree.Keep.{entry, entries, entries-set_child, redirected-keeps, Separated-Clear}
use sdbm_tree.Tree.Child.{set_child, redirected, writes, offset_IsWord}
use sdbm_tree.Tree.Nodes.{points}
use sdbm_tree.Tree.Separate.{
  Separated, NodeAt-Touches, NodeAt-same, wrote-Touches, ApartFrom-append,
}
use sdbm_tree.Tree.Order.{inorder-plug, inorder-whole}
use sdbm_tree.Io.Codec.{IsWord}
use mathlib.Core.List.{append_assoc, map-append, append-nil}
use sdbm_tree.Common.{
  ℕ, ◌<◌, ◌≡◌, refl, sym, subst, ap, ◌∙◌, [], ◌∷◌, ◌++◌, map, arith, ◌==◌, false,
}
use sdbm_tree.Types.{Td, Keyhead}
use sdbm_tree.Machine.{ok}
use sdbm_tree.Tree.{
  Node, Tree, leaf, node, root, inorder, height, NodeAt, TreeAt, left_of, right_of, Frames, plug,
  before, behind, FramesAt, elts,
}
use sdbm_tree.Tree.Zip.{Zip, zip, whole, pre, post, ZipAt}
use sdbm_tree.Update.{replacement, relink_parent}
use sdbm_tree.Update.Hang.{Replaces, Separated-drop, hung, hung-Replaces, replacement-hung}

-- The state after the pointer to the node is written: that of the header stays to be written.
abbrev pub cut_out : Td → Frames → ℕ → Td
cut_out td [] p = record td { header = record (td.header) { top = p } }
cut_out td (f ∷ fs) p = redirected td (f ∷ fs) p

relink_parent-cut_out :
    (td : Td) (fs : Frames) (q p : ℕ)
    → FramesAt td q fs
    → relink_parent (elts fs) p td ≡ ok tt (cut_out td fs p)
unfolding relink_parent
relink_parent-cut_out td [] q p at = refl
relink_parent-cut_out td (left_of n r ∷ fs) q p at = writes at.0 (record (n.head) { previous = p })
relink_parent-cut_out td (right_of l n ∷ fs) q p at = writes at.0 (record (n.head) { next = p })

root-IsWord : (td : Td) (t : Tree) → TreeAt td t → IsWord (root t)
root-IsWord td leaf at = omega arith
root-IsWord td (node l n r) at = offset_IsWord at.0

cut_out-keeps :
    (td : Td) (t : Tree) (fs : Frames) (q p : ℕ)
    → IsWord p
    → Separated (inorder (plug fs t))
    → TreeAt td t
    → FramesAt td q fs
    → TreeAt (cut_out td fs p) t × FramesAt (cut_out td fs p) p (set_child fs p)
cut_out-keeps td t [] q p w s at at_fs = (TreeAt-same td (cut_out td [] p) refl refl refl t at, tt)
cut_out-keeps td t (f ∷ fs) q p w s at at_fs = redirected-keeps td t (f ∷ fs) q p w s at at_fs

-- The node itself is not written.
cut_out-spares :
    (td : Td) (l : Tree) (n : Node) (r : Tree) (fs : Frames) (p : ℕ)
    → Separated (inorder (plug fs (node l n r)))
    → NodeAt td n
    → FramesAt td n.ptr fs
    → NodeAt (cut_out td fs p) n
cut_out-spares td l n r [] p s at at_fs = NodeAt-same td (cut_out td [] p) refl refl n refl refl at
cut_out-spares td l n r (left_of m x ∷ fs) p s at at_fs =
    let h = Separated-Clear (node l n r) m x fs s in
    NodeAt-Touches m (wrote-Touches td m.ptr (record (m.head) { previous = p })) n
      (ApartFrom-append m (inorder l) (n ∷ inorder r) h.left).1.0 at
cut_out-spares td l n r (right_of x m ∷ fs) p s at at_fs =
    let h = Separated-Clear x m (node l n r) fs s in
    NodeAt-Touches m (wrote-Touches td m.ptr (record (m.head) { next = p })) n
      (ApartFrom-append m (inorder l) (n ∷ inorder r) h.right).1.0 at

top-cut_out :
    (td : Td) (fs : Frames) (p q : ℕ)
    → td.header.top ≡ top_of p fs
    → (cut_out td fs q).header.top ≡ top_of q (set_child fs q)
top-cut_out td [] p q e = refl
top-cut_out td (f ∷ fs) p q e = top-redirected td (f ∷ fs) p q e

Spares-cut_out :
    (td : Td) (fs : Frames) (t : Tree) (p : ℕ) → Spares td (cut_out td fs p) (plug fs t)
Spares-cut_out td [] t p = record { state = refl; outside = λ a k low away. refl }
Spares-cut_out td (f ∷ fs) t p = Spares-redirected td (f ∷ fs) t p

-- The entries around a hole with what is in it.
entries-around :
    (fs : Frames) (l r t : Tree)
    → entries t ≡ map entry (inorder l ++ inorder r)
    → entries (plug fs t) ≡ map entry ((before fs ++ inorder l) ++ (inorder r ++ behind fs))
entries-around fs l r t e =
    ap (map entry) (inorder-plug fs t)
    ∙ map-append entry (before fs) (inorder t ++ behind fs)
    ∙ ap (λ k. map entry (before fs) ++ k)
        (map-append entry (inorder t) (behind fs)
          ∙ ap (λ k. k ++ map entry (behind fs)) e
          ∙ sym (map-append entry (inorder l ++ inorder r) (behind fs)))
    ∙ sym (map-append entry (before fs) ((inorder l ++ inorder r) ++ behind fs))
    ∙ ap (map entry) (
        ap (λ k. before fs ++ k) (append_assoc (inorder l) (inorder r) (behind fs))
        ∙ sym (append_assoc (before fs) (inorder l) (inorder r ++ behind fs)))

-- The btree holds the tree without the node: all other nodes are as they were but for their pointers.
pub record Unlinked (td td' : Td) (z : Zip) : Type 0 where
  pub tree : Tree
  pub holds : HoldsAt td' tree
  pub same : entries tree ≡ map entry (pre z ++ post z)
  pub spared : Spares td td' (whole z)
  pub gone : NodeAt td' z.here

-- The node that takes its place.
module _ (td : Td) (fs : Frames) where
  alone_right :
      (n : Node) (r : Tree) → ZipAt td (zip leaf n r fs) → Replaces td td leaf n r fs n.head.next
  alone_right n r at = record {
    tree = r;
    at = at.4;
    frames = at.5;
    gone = at.0;
    child_eq = at.2;
    same = refl;
    spared = Spares-refl td (plug fs (node leaf n r));
    top_eq = refl;
  }

  alone_left :
      (l : Tree) (n : Node)
      → ZipAt td (zip l n leaf fs)
      → Replaces td td l n leaf fs n.head.previous
  alone_left l n at = record {
    tree = l;
    at = at.3;
    frames = at.5;
    gone = at.0;
    child_eq = at.1;
    same = ap (map entry) (sym (append-nil (inorder l)));
    spared = Spares-refl td (plug fs (node l n leaf));
    top_eq = refl;
  }

  replacement-next : (h : Keyhead) → h.previous ≡ 0 → replacement h td ≡ ok h.next td
  unfolding replacement
  replacement-next h e = ground (arith, e)

  replacement-previous :
      (h : Keyhead) → (h.previous == 0) ≡ false → h.next ≡ 0 → replacement h td ≡ ok h.previous td
  unfolding replacement
  replacement-previous h some e = rw (some, e) refl

  pub replacement-Replaces :
      (l : Tree) (n : Node) (r : Tree)
      → ZipAt td (zip l n r fs)
      → Separated (inorder (plug fs (node l n r)))
      → height r < 128
      → (p : ℕ) × (td1 : Td) × (replacement n.head td ≡ ok p td1) × Replaces td td1 l n r fs p
  replacement-Replaces leaf n r at s low =
      (n.head.next, td, replacement-next n.head at.1, alone_right n r at)
  replacement-Replaces (node a m b) n leaf at s low = (
    n.head.previous,
    td,
    replacement-previous n.head (points at.3.0 at.1) at.2,
    alone_left (node a m b) n at,
  )
  replacement-Replaces (node c k d) n (node a m b) at s low = (
    n.head.next,
    hung td (node c k d) n a m b fs at s low,
    replacement-hung td (node c k d) n a m b fs at s low (points at.3.0 at.1),
    hung-Replaces td (node c k d) n a m b fs at s low,
  )

-- The parent made to point to what takes the place of the node.
pub replaced-Unlinked :
    (td td1 : Td) (z : Zip) (p : ℕ)
    → HoldsAt td (whole z)
    → Replaces td td1 z.left z.here z.right z.frames p
    → (relink_parent (elts z.frames) p td1 ≡ ok tt (cut_out td1 z.frames p))
      × Unlinked td (cut_out td1 z.frames p) z
replaced-Unlinked td td1 z p (at, top, s) h =
    let fs = z.frames in
    let around = entries-around fs z.left z.right h.tree h.same in
    let after = entries-set_child fs p h.tree h.tree refl ∙ around in
    let others = Separated-drop (pre z) z.here (post z) (subst Separated (inorder-whole z) s) in
    let (kept, kept_fs) =
      cut_out-keeps td1 h.tree fs z.here.ptr p
        (subst IsWord (sym h.child_eq) (root-IsWord td1 h.tree h.at))
        (Separated-map (pre z ++ post z) (inorder (plug fs h.tree)) around others) h.at h.frames in
    (
      relink_parent-cut_out td1 fs z.here.ptr p h.frames,
      record {
        tree = plug (set_child fs p) h.tree;
        holds = (
          TreeAt-plug (cut_out td1 fs p) (set_child fs p) h.tree p h.child_eq kept kept_fs,
          top-cut_out td1 fs z.here.ptr p
                (h.top_eq ∙ top ∙ root-plug fs (node z.left z.here z.right))
              ∙ ap (λ k. top_of k (set_child fs p)) h.child_eq
              ∙ sym (root-plug (set_child fs p) h.tree),
          Separated-map (pre z ++ post z) (inorder (plug (set_child fs p) h.tree)) after others,
        );
        same = after;
        spared =
            Spares-trans td td1 (cut_out td1 fs p) (whole z) (whole z) refl h.spared
              (Spares-cut_out td1 fs (node z.left z.here z.right) p);
        gone = cut_out-spares td1 z.left z.here z.right fs p s h.gone h.frames;
      },
    )
