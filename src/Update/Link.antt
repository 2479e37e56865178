-- ===== src/Update/Link.antt =====
-- A new node put under a hole of the tree: the write of its parent's head, or of the header, by
-- td_put_key.c.
use mathlib.Core.List.{map-append}
use sdbm_tree.Common.{
  ℕ, ◌+◌, ◌≤◌, ◌≡◌, refl, sym, subst, ap, ◌∙◌, inl, List, [], ◌∷◌, ◌++◌, map, arith, length,
}
use sdbm_tree.Types.{Td}
use sdbm_tree.Memory.{slice}
use sdbm_tree.Space.Free.{Free}
use sdbm_tree.Space.Relink.{AwayFree}
use sdbm_tree.Tree.{
  Node, Tree, leaf, node, root, inorder, TreeAt, left_of, right_of, Frames, plug, before, behind,
  FramesAt,
}
use sdbm_tree.Tree.Order.{inorder-plug}
use sdbm_tree.Tree.Separate.{ApartFrom, Separated}
use sdbm_tree.Tree.Child.{set_child, with_top, redirected, with_top-Touches}
use sdbm_tree.Tree.Keep.{
  Entry, entry, entries, entries-set_child, redirected-keeps, TreeAt-with_top,
}
use sdbm_tree.Tree.Spares.{AwayFrom, Spares-redirected}
use sdbm_tree.Tree.Turn.{top-redirected}
use sdbm_tree.Tree.Plug.{TreeAt-unplug, TreeAt-plug, root-plug}
use sdbm_tree.Tree.Entries.{Separated-entries}
use sdbm_tree.Tree.Whole.{HoldsAt}
use sdbm_tree.Update.Room.{NodesAway, Holds, SameHeads-spared, FreeAt-same, TreeAt-kept}
use sdbm_tree.Update.New.{Added}

-- The state after the pointer to the hole and the header are written.
abbrev pub linked : Td → Frames → ℕ → Td
linked td [] p = with_top td p
linked td (f ∷ fs) p = let r = redirected td (f ∷ fs) p in with_top r r.header.top

-- The tree with the new node in its hole.
abbrev pub grown : Frames → Node → Tree
grown fs n = plug (set_child fs n.ptr) (node leaf n leaf)

abbrev EntriesAway : List Entry → List Free → Type 0
EntriesAway [] ps = Unit {0}
EntriesAway (e ∷ es) ps = AwayFree e.ptr (24 + length e.key) ps × EntriesAway es ps

away_to : (ns : List Node) (ps : List Free) → NodesAway ns ps → EntriesAway (map entry ns) ps
away_to [] ps h = tt
away_to (n ∷ ns) ps h = (h.0, away_to ns ps h.1)

away_from : (ns : List Node) (ps : List Free) → EntriesAway (map entry ns) ps → NodesAway ns ps
away_from [] ps h = tt
away_from (n ∷ ns) ps h = (h.0, away_from ns ps h.1)

-- Where the nodes lie is a matter of offsets and keys.
pub NodesAway-map :
    (ns ms : List Node) (ps : List Free)
    → map entry ms ≡ map entry ns
    → NodesAway ns ps
    → NodesAway ms ps
NodesAway-map ns ms ps e h =
    away_from ms ps (subst (λ k. EntriesAway k ps) (sym e) (away_to ns ps h))

pub NodesAway-entries :
    (s t : Tree) (ps : List Free)
    → entries t ≡ entries s
    → NodesAway (inorder s) ps
    → NodesAway (inorder t) ps
NodesAway-entries s t ps e h = NodesAway-map (inorder s) (inorder t) ps e h

Separated-insert :
    (n : Node) (xs ys : List Node)
    → ApartFrom n (xs ++ ys)
    → Separated (xs ++ ys)
    → Separated (xs ++ (n ∷ ys))
Separated-insert n [] ys h s = (h, s)
Separated-insert n (x ∷ xs) ys h s = (apart_insert xs s.0, Separated-insert n xs ys h.1 s.1)
  where
    apart_insert : (zs : List Node) → ApartFrom x (zs ++ ys) → ApartFrom x (zs ++ (n ∷ ys))
    apart_insert [] a = let here = h.0 in (ground (arith, here), a)
    apart_insert (z ∷ zs) a = (a.0, apart_insert zs a.1)

pub entries-grown :
    (fs : Frames) (n : Node)
    → entries (grown fs n) ≡ map entry (before fs) ++ (entry n ∷ map entry (behind fs))
entries-grown fs n =
    entries-set_child fs n.ptr (node leaf n leaf) (node leaf n leaf) refl
    ∙ ap (map entry) (inorder-plug fs (node leaf n leaf))
    ∙ map-append entry (before fs) (n ∷ behind fs)

-- The writing of the header after that of the pointer.
linked-TreeAt :
    (td : Td) (fs : Frames) (p : ℕ) (t : Tree)
    → TreeAt (redirected td fs p) t
    → TreeAt (linked td fs p) t
linked-TreeAt td [] p t at = at
linked-TreeAt td (f ∷ fs) p t at =
    TreeAt-with_top (redirected td (f ∷ fs) p) (redirected td (f ∷ fs) p).header.top t at

linked-top :
    (td : Td) (fs : Frames) (p : ℕ) → (linked td fs p).header.top ≡ (redirected td fs p).header.top
linked-top td [] p = refl
linked-top td (f ∷ fs) p = refl

-- What the two writes leave of the state.
pub record Kept (td td' : Td) : Type 0 where
  pub size : td'.header.size ≡ td.header.size
  pub off_e : td'.header.off_e ≡ td.header.off_e
  pub nempties : td'.header.nempties ≡ td.header.nempties
  pub flags : td'.header.flags ≡ td.header.flags
  pub compare : td'.compare ≡ td.compare

pub linked-Kept : (td : Td) (fs : Frames) (p : ℕ) → Kept td (linked td fs p)
linked-Kept td [] p = record {
  size = refl;
  off_e = refl;
  nempties = refl;
  flags = refl;
  compare = refl;
}
linked-Kept td (left_of n r ∷ fs) p = record {
  size = refl;
  off_e = refl;
  nempties = refl;
  flags = refl;
  compare = refl;
}
linked-Kept td (right_of l n ∷ fs) p = record {
  size = refl;
  off_e = refl;
  nempties = refl;
  flags = refl;
  compare = refl;
}

linked-outside :
    (td : Td) (fs : Frames) (p a k : ℕ)
    → 44 ≤ a
    → AwayFrom a k (inorder (plug fs leaf))
    → slice (linked td fs p).mem a k ≡ slice td.mem a k
linked-outside td [] p a k low away =
    (with_top-Touches td p (a + k) (omega (arith, low))).outside a k low (inl (omega arith))
linked-outside td (f ∷ fs) p a k low away =
    let r = redirected td (f ∷ fs) p in
    (with_top-Touches r r.header.top (a + k) (omega (arith, low))).outside a k low
      (inl (omega arith))
    ∙ (Spares-redirected td (f ∷ fs) leaf p).outside a k low away

module _ (td td' : Td) (fs : Frames) (ps ps' : List Free) (n : Node) (h : HoldsAt td (plug fs leaf))
    (away : NodesAway (inorder (plug fs leaf)) ps) (add : Added td td' ps ps' n)
    (low : n.head.previous ≡ 0) (high : n.head.next ≡ 0) where
  away_left : (ns : List Node) → NodesAway ns ps → NodesAway ns ps'
  away_left [] a = tt
  away_left (m ∷ ns) a = ((add.apart m.ptr (24 + length m.key) a.0).1, away_left ns a.1)

  apart_all : (ns : List Node) → NodesAway ns ps → ApartFrom n ns
  apart_all [] a = tt
  apart_all (m ∷ ns) a =
      let here = (add.apart m.ptr (24 + length m.key) a.0).0 in
      (ground (arith, here), apart_all ns a.1)

  new_away : (xs ys : List Node) → NodesAway (xs ++ ys) ps' → NodesAway (xs ++ (n ∷ ys)) ps'
  new_away [] ys a = (add.room, a)
  new_away (x ∷ xs) ys a = (a.0, new_away xs ys a.1)

  pub kept-FramesAt : FramesAt td' 0 fs
  kept-FramesAt =
      (TreeAt-unplug td' fs leaf
        (TreeAt-kept td td' ps (plug fs leaf) add.size add.flags add.outside away h.0)).1

  new-Separated : Separated (inorder (plug fs (node leaf n leaf)))
  new-Separated = subst Separated (sym (inorder-plug fs (node leaf n leaf))) (
      Separated-insert n (before fs) (behind fs)
        (subst (ApartFrom n) (inorder-plug fs leaf) (apart_all (inorder (plug fs leaf)) away))
        (subst Separated (inorder-plug fs leaf) h.2))

  grown-TreeAt : TreeAt (redirected td' fs n.ptr) (grown fs n)
  grown-TreeAt =
      let (at, at_fs) =
        redirected-keeps td' (node leaf n leaf) fs 0 n.ptr
          (omega (arith, add.node_at.high, add.node_at.word)) new-Separated
          (add.node_at, low, high, tt, tt) kept-FramesAt in
      TreeAt-plug (redirected td' fs n.ptr) (set_child fs n.ptr) (node leaf n leaf) n.ptr refl at
        at_fs

  grown-top : (redirected td' fs n.ptr).header.top ≡ root (grown fs n)
  grown-top =
      top-redirected td' fs 0 n.ptr (add.top ∙ h.1 ∙ root-plug fs leaf)
      ∙ sym (root-plug (set_child fs n.ptr) (node leaf n leaf))

  -- The btree with the new node holds the grown tree and what remains free.
  pub linked-Holds : Holds (linked td' fs n.ptr) (grown fs n) ps'
  linked-Holds =
      let away' : NodesAway (inorder (plug fs leaf)) ps' =
        away_left (inorder (plug fs leaf)) away in
      let same = linked-Kept td' fs n.ptr in
      record {
        tree = (
          linked-TreeAt td' fs n.ptr (grown fs n) grown-TreeAt,
          linked-top td' fs n.ptr ∙ grown-top,
          Separated-entries (plug fs (node leaf n leaf)) (grown fs n)
              (entries-set_child fs n.ptr (node leaf n leaf) (node leaf n leaf) refl) new-Separated,
        );
        free =
            FreeAt-same td' (linked td' fs n.ptr) ps' add.free same.size same.off_e same.nempties (
              SameHeads-spared td'.header.size td'.mem (linked td' fs n.ptr).mem
                (inorder (plug fs leaf)) td'.header.off_e 0 ps'
                (λ a k low' spare. linked-outside td' fs n.ptr a k low' spare) away'
                add.free.linked);
        beside =
            NodesAway-entries (plug fs (node leaf n leaf)) (grown fs n) ps'
              (entries-set_child fs n.ptr (node leaf n leaf) (node leaf n leaf) refl)
              (subst (λ k. NodesAway k ps') (sym (inorder-plug fs (node leaf n leaf)))
                (new_away (before fs) (behind fs)
                  (subst (λ k. NodesAway k ps') (inorder-plug fs leaf) away')));
      }
