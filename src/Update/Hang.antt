-- ===== src/Update/Hang.antt =====
-- td_del_pathhead.c: the node that takes the place of a node with two children, and the tree under it.
use mathlib.Core.List.{append_assoc, append-nil}
use sdbm_tree.Common.{
  ℕ, ◌<◌, ◌≡◌, refl, sym, subst, ap, ◌∙◌, List, [], ◌∷◌, ◌++◌, map, arith, length, ◌==◌, false,
}
use sdbm_tree.Types.{Td}
use sdbm_tree.Machine.{ok}
use sdbm_tree.Tree.{
  Node, Tree, node, root, inorder, height, NodeAt, TreeAt, left_of, Frames, plug, before, behind,
  FramesAt,
}
use sdbm_tree.Tree.Zip.{Zip, zip, whole, pre, post, ZipAt, leftmost, leftmost-Onward}
use sdbm_tree.Tree.Next.{td_iterate_to_min-leftmost}
use sdbm_tree.Tree.Nodes.{points}
use sdbm_tree.Tree.Order.{inorder-plug}
use sdbm_tree.Tree.Separate.{
  ApartFrom, Separated, wrote, wrote-Touches, FramesAt-Touches, Separated-middle, ApartFrom-append,
  Apart, NodeAt-Touches,
}
use sdbm_tree.Tree.Child.{set_child, writes}
use sdbm_tree.Tree.Keep.{entry, entries, entries-set_child, redirected-keeps}
use sdbm_tree.Tree.Spares.{Spares, Spares-wrote, AwayFrom, AwayFrom-append}
use sdbm_tree.Tree.Plug.{TreeAt-plug, root-plug}
use sdbm_tree.Update.{replacement}

pub Separated-append : (xs ys : List Node) → Separated (xs ++ ys) → Separated xs × Separated ys
Separated-append [] ys s = (tt, s)
Separated-append (x ∷ xs) ys s =
    let (a, b) = Separated-append xs ys s.1 in (((ApartFrom-append x xs ys s.0).0, a), b)

ApartFrom-drop :
    (x : Node) (xs : List Node) (n : Node) (ys : List Node)
    → ApartFrom x (xs ++ (n ∷ ys))
    → ApartFrom x (xs ++ ys)
ApartFrom-drop x [] n ys h = h.1
ApartFrom-drop x (z ∷ xs) n ys h = (h.0, ApartFrom-drop x xs n ys h.1)

pub Separated-drop :
    (xs : List Node) (n : Node) (ys : List Node) → Separated (xs ++ (n ∷ ys)) → Separated (xs ++ ys)
Separated-drop [] n ys s = s.1
Separated-drop (x ∷ xs) n ys s = (ApartFrom-drop x xs n ys s.0, Separated-drop xs n ys s.1)

nil_left : (xs ys : List Node) → xs ++ ys ≡ [] → xs ≡ []
nil_left [] ys e = refl
nil_left (x ∷ xs) ys e = absurd (omega (arith, ap (length {A = Node}) e))

-- The subtrees of a node with its word set to a new subtree `x`: what stands where the node stood.
pub record Replaces (td td' : Td) (l : Tree) (n : Node) (r : Tree) (fs : Frames) (child : ℕ)
    : Type 0 where
  pub tree : Tree
  pub at : TreeAt td' tree
  pub frames : FramesAt td' n.ptr fs
  pub gone : NodeAt td' n
  pub child_eq : child ≡ root tree
  pub same : entries tree ≡ map entry (inorder l ++ inorder r)
  pub spared : Spares td td' (plug fs (node l n r))
  pub top_eq : td'.header.top ≡ td.header.top

module _ (td : Td) (l : Tree) (n : Node) (a : Tree) (m : Node) (b : Tree) (fs : Frames)
    (at : ZipAt td (zip l n (node a m b) fs))
    (s : Separated (inorder (plug fs (node l n (node a m b)))))
    (low : height (node a m b) < 128) where
  abbrev right : Tree
  right = node a m b

  abbrev pub least : Zip
  least = leftmost a m b []

  abbrev pub hung : Td
  hung = wrote td least.here.ptr (record (least.here.head) { previous = n.head.previous })

  abbrev inner : Frames
  inner = left_of least.here least.right ∷ least.frames

  -- The least node of the right subtree comes first in it.
  least-first :
      ZipAt td least
      × (whole least ≡ right)
      × (pre least ≡ [])
      × (inorder right ≡ least.here ∷ post least)
  least-first =
      let (z_at, z_whole, z_pre, z_post) =
        leftmost-Onward td a m b [] (at.4.0, at.4.1, at.4.2, at.4.3, at.4.4, tt) in
      (z_at, z_whole, z_pre, ap (λ k. inorder a ++ (m ∷ k)) (sym (append-nil (inorder b))) ∙ z_post)

  inorder-inner : inorder (plug inner l) ≡ inorder l ++ inorder right
  inorder-inner =
      let (z_at, z_whole, z_pre, z_in) = least-first in
      inorder-plug inner l
      ∙ ap (λ k. k ++ (inorder l ++ behind inner))
          (nil_left (before least.frames) (inorder least.left) z_pre)
      ∙ ap (λ k. inorder l ++ k) (sym z_in)

  inner-Separated : Separated (inorder (plug inner l))
  inner-Separated =
      let whole_s = subst Separated (inorder-plug fs (node l n right)) s in
      let behind_s =
        (Separated-append (before fs) (inorder (node l n right) ++ behind fs) whole_s).1 in
      let here_s = (Separated-append (inorder (node l n right)) (behind fs) behind_s).0 in
      subst Separated (sym inorder-inner) (Separated-drop (inorder l) n (inorder right) here_s)

  -- The least node is apart from the node and those of the frames.
  least-Apart :
      ApartFrom least.here (before fs) × Apart least.here n × ApartFrom least.here (behind fs)
  least-Apart =
      let (z_at, z_whole, z_pre, z_in) = least-first in
      let spread : inorder (plug fs (node l n right))
          ≡ (before fs ++ (inorder l ++ (n ∷ []))) ++ (least.here ∷ (post least ++ behind fs)) =
        inorder-plug fs (node l n right)
        ∙ ap (λ k. before fs ++ ((inorder l ++ (n ∷ k)) ++ behind fs)) z_in
        ∙ rw
            (
              append_assoc (inorder l) (n ∷ (least.here ∷ post least)) (behind fs),
              append_assoc (before fs) (inorder l ++ (n ∷ []))
                  (least.here ∷ (post least ++ behind fs)),
              append_assoc (inorder l) (n ∷ []) (least.here ∷ (post least ++ behind fs)),
            )
            refl in
      let (lo, hi) =
        Separated-middle (before fs ++ (inorder l ++ (n ∷ []))) least.here (post least ++ behind fs)
          (subst Separated spread s) in
      let (front, middle) = ApartFrom-append least.here (before fs) (inorder l ++ (n ∷ [])) lo in
      (
        front,
        (ApartFrom-append least.here (inorder l) (n ∷ []) middle).1.0,
        (ApartFrom-append least.here (post least) (behind fs) hi).1,
      )

  hung-Spares : Spares td hung (plug fs (node l n right))
  hung-Spares = record {
    state = refl;
    outside = λ p k behind_header away.
        let (z_at, z_whole, z_pre, z_in) = least-first in
        let around = subst (AwayFrom p k) (inorder-plug fs (node l n right)) away in
        let here =
          (AwayFrom-append p k (inorder (node l n right)) (behind fs)
            (AwayFrom-append p k (before fs) (inorder (node l n right) ++ behind fs) around).1).0 in
        let below = (AwayFrom-append p k (inorder l) (n ∷ inorder right) here).1.1 in
        (Spares-wrote td least.left least.here least.right least.frames
            (record (least.here.head) { previous = n.head.previous })).outside
          p k behind_header (subst (AwayFrom p k) (ap inorder (sym z_whole)) below);
  }

  pub hung-Replaces : Replaces td hung l n right fs n.head.next
  hung-Replaces =
      let (z_at, z_whole, z_pre, z_in) = least-first in
      let p = n.head.previous in
      let (kept, kept_fs) =
        redirected-keeps td l inner (root least.left) p at.0.words.previous inner-Separated at.3
          (z_at.0, z_at.1, z_at.2, z_at.4, z_at.5) in
      record {
        tree = plug (set_child inner p) l;
        at = TreeAt-plug hung (set_child inner p) l p at.1 kept kept_fs;
        frames =
            FramesAt-Touches least.here
              (wrote-Touches td least.here.ptr (record (least.here.head) { previous = p })) fs n.ptr
              least-Apart.0 least-Apart.2 at.5;
        gone =
            NodeAt-Touches least.here
              (wrote-Touches td least.here.ptr (record (least.here.head) { previous = p })) n
              least-Apart.1 at.0;
        child_eq =
            at.2
            ∙ ap root (sym z_whole)
            ∙ root-plug least.frames (node least.left least.here least.right)
            ∙ sym (root-plug (set_child inner p) l);
        same = entries-set_child inner p l l refl ∙ ap (map entry) inorder-inner;
        spared = hung-Spares;
        top_eq = refl;
      }

  pub replacement-hung :
      (n.head.previous == 0) ≡ false → replacement n.head td ≡ ok n.head.next hung
  unfolding replacement
  replacement-hung some =
      let (z_at, z_whole, z_pre, z_in) = least-first in
      rw
        (
          some,
          points at.4.0 at.2,
          td_iterate_to_min-leftmost td n.head.next a m b [] at.2
              (at.4.0, at.4.1, at.4.2, at.4.3, at.4.4, tt) (omega (arith, low)),
          writes z_at.0 (record (least.here.head) { previous = n.head.previous }),
        )
        refl
