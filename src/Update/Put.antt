-- ===== src/Update/Put.antt =====
-- td_put_key.c: a new key in a btree that holds a tree and a list of free chunks.
use mathlib.Core.List.{append-nil, append_assoc}
use sdbm_tree.Common.{
  ℕ, ◌+◌, ◌≤◌, ◌<◌, ◌≡◌, refl, sym, subst, ap, ◌∙◌, ◌⊎◌, inl, inr, true, false, List, [], ◌∷◌, ◌++◌,
  map, none, arith, length, ◌==◌,
}
use sdbm_tree.Types.{Td, Cmp}
use sdbm_tree.Types.Cmp.{less, equal, more}
use sdbm_tree.Types.Error.{space}
use sdbm_tree.Machine.{ok, err}
use sdbm_tree.Search.{KeyPath, path_init, td_iterate}
use sdbm_tree.Space.Free.{Free}
use sdbm_tree.Space.Fit.{AllUnfit}
use sdbm_tree.Space.Hold.{FreeAt}
use sdbm_tree.Tree.{
  Node, Tree, leaf, node, inorder, height, Frame, left_of, right_of, Frames, plug, before, behind,
  elt_of, FramesAt,
}
use sdbm_tree.Tree.Zip.{Zip, whole, pre, post}
use sdbm_tree.Tree.Order.{inorder-plug, inorder-whole, AllAre, NoneIs, Ordered, Landed}
use sdbm_tree.Tree.Search.{compares, noted, td_iterate-Found}
use sdbm_tree.Tree.Nodes.{points, is_zero}
use sdbm_tree.Tree.Child.{redirected, td_write_header-top}
use sdbm_tree.Tree.Keep.{entry, entries}
use sdbm_tree.Tree.Entries.{nodes}
use sdbm_tree.Tree.Whole.{HoldsAt, TreeAt-same}
use sdbm_tree.Update.{put_at, td_put_new, td_put_key}
use sdbm_tree.Update.Room.{NodesAway, Holds}
use sdbm_tree.Update.New.{Suits}
use sdbm_tree.Update.Link.{linked}
use sdbm_tree.Update.Insert.{
  put_key-run, put_key-fails, put_key-first, put_at-less, put_at-more, put_at-fails, fills,
}

-- The btree holds a tree with one entry more, which stands behind the nodes that its key is above, and
-- before those that it is below.
pub record Inserted (td td' : Td) (t : Tree) (key : List ℕ) (value : ℕ) : Type 0 where
  pub tree : Tree
  pub free : List Free
  pub holds : Holds td' tree free
  pub front : List Node
  pub back : List Node
  pub split : inorder t ≡ front ++ back
  pub above : AllAre (compares td key 0) more front
  pub below : AllAre (compares td key 0) less back
  pub size_eq : td'.header.size ≡ td.header.size
  pub compare_eq : td'.compare ≡ td.compare
  pub ptr : ℕ
  pub same :
      entries tree
      ≡ map entry front ++ (record { ptr = ptr; key = key; value = value } ∷ map entry back)

pub NoneIs-middle :
    (c : Node → Cmp) (k : Cmp) (xs : List Node) (n : Node) (ys : List Node)
    → NoneIs c k (xs ++ (n ∷ ys))
    → c n ≡ k
    → ⊥
NoneIs-middle c k [] n ys h = h.0
NoneIs-middle c k (x ∷ xs) n ys h = NoneIs-middle c k xs n ys h.1

put_key-full :
    (td : Td) (key : List ℕ) (value flags : ℕ)
    → (td.header.top == 0) ≡ true
    → td_put_new key value 0 0 flags td ≡ err space td
    → td_put_key key value flags td ≡ err space td
unfolding td_put_key
put_key-full td key value flags empty put = rw (empty, put) refl

pub less-ne-equal : Cmp.less ≡ equal → ⊥
less-ne-equal e = cc

pub more-ne-equal : Cmp.more ≡ equal → ⊥
more-ne-equal e = cc

module _ (td : Td) (t : Tree) (ps : List Free) (key : List ℕ) (value flags : ℕ) (h : Holds td t ps)
    (w : Suits td key value 0 0 flags) (fixed : td.extend ≡ none) (few : nodes t < td.header.size)
    (short : length ps ≤ td.header.size) where
  abbrev Outcome : Type 0
  Outcome =
      ((td' : Td) × (td_put_key key value flags td ≡ ok tt td') × Inserted td td' t key value)
      ⊎ ((d : ℕ) × (td_put_key key value flags td ≡ err space (record td { maxdepth = d }))
          × AllUnfit true (24 + length key) ps)

  noted-HoldsAt : (path : KeyPath) → HoldsAt (noted td path) t
  noted-HoldsAt path =
      (TreeAt-same td (noted td path) refl refl refl t h.tree.0, h.tree.1, h.tree.2)

  noted-FreeAt : (path : KeyPath) → FreeAt (noted td path) ps
  noted-FreeAt path = record {
    word = h.free.word;
    linked = h.free.linked;
    disjoint = h.free.disjoint;
    count = h.free.count;
  }

  noted-Suits : (path : KeyPath) → Suits (noted td path) key value 0 0 flags
  noted-Suits path = record {
    value_word = w.value_word;
    previous_word = w.previous_word;
    next_word = w.next_word;
    scn_word = w.scn_word;
    short = w.short;
    aligned = w.aligned;
    summed = w.summed;
  }

  -- The search ended beside the hole of the frames.
  in_hole :
      (path : KeyPath) (f : Frame) (fs : Frames)
      → plug (f ∷ fs) leaf ≡ t
      → (td.header.top == 0) ≡ false
      → td_iterate (path_init td.header.top) key 0 td ≡ ok path (noted td path)
      → ((td1 : Td) (p : ℕ)
          → td_put_new key value 0 0 flags (noted td path) ≡ ok p td1
          → FramesAt td1 0 (f ∷ fs)
          → put_at key value flags path.head (noted td path) ≡ ok tt (redirected td1 (f ∷ fs) p))
      → (td_put_new key value 0 0 flags (noted td path) ≡ err space (noted td path)
          → put_at key value flags path.head (noted td path) ≡ err space (noted td path))
      → AllAre (compares td key 0) more (before (f ∷ fs))
      → AllAre (compares td key 0) less (behind (f ∷ fs))
      → Outcome
  in_hole path f fs eq some found put fail above below =
      elim (fills (noted td path) (f ∷ fs) ps key value flags
        (subst (HoldsAt (noted td path)) (sym eq) (noted-HoldsAt path))
        (subst (λ k. NodesAway (inorder k) ps) (sym eq) h.beside) (noted-FreeAt path)
        (noted-Suits path) fixed short (subst (λ k. nodes k < td.header.size) (sym eq) few)) [
          | inl (p, td1, filled) ↦
              let r = redirected td1 (f ∷ fs) p in
              inl (
                filled.rest.final,
                put_key-run td (noted td path) r (linked td1 (f ∷ fs) p) filled.rest.final key value
                    flags path some found (put td1 p filled.put filled.frames)
                    (td_write_header-top r r.header.top filled.low filled.word) filled.rest.run,
                record {
                  tree = filled.rest.tree;
                  free = filled.left;
                  holds = filled.rest.holds;
                  front = before (f ∷ fs);
                  back = behind (f ∷ fs);
                  split = ap inorder (sym eq) ∙ inorder-plug (f ∷ fs) leaf;
                  above = above;
                  below = below;
                  ptr = p;
                  size_eq = filled.rest.size_eq ∙ filled.size_eq;
                  compare_eq = filled.rest.compare_eq ∙ filled.compare_eq;
                  same = filled.rest.same;
                },
              )
          | inr (run, unfit) ↦ inr (
            (noted td path).maxdepth,
            put_key-fails td (noted td path) key value flags path space some found (fail run),
            unfit,
          )
        ]

  -- The node where the search ended has no child on the side of the key.
  at_less :
      (path : KeyPath) (z : Zip)
      → whole z ≡ t
      → path.head ≡ elt_of z.here less
      → (td.header.top == 0) ≡ false
      → td_iterate (path_init td.header.top) key 0 td ≡ ok path (noted td path)
      → Landed (compares td key 0) less z
      → Outcome
  at_less path z inside head some found (above, below, edge) =
      in_hole path (left_of z.here z.right) z.frames
        (ap (λ k. plug z.frames (node k z.here z.right)) (sym edge) ∙ inside) some found
        (λ td1 p put frames.
          ap (λ k. put_at key value flags k (noted td path)) head
          ∙ put_at-less (noted td path) td1 key value flags p z.here z.right z.frames put frames.0)
        (λ put.
          ap (λ k. put_at key value flags k (noted td path)) head
          ∙ put_at-fails (noted td path) key value flags z.here less space (λ e. less-ne-equal e)
              put)
        (subst (AllAre (compares td key 0) more)
          (ap (λ k. before z.frames ++ inorder k) edge ∙ append-nil (before z.frames)) above)
        below

  at_more :
      (path : KeyPath) (z : Zip)
      → whole z ≡ t
      → path.head ≡ elt_of z.here more
      → (td.header.top == 0) ≡ false
      → td_iterate (path_init td.header.top) key 0 td ≡ ok path (noted td path)
      → Landed (compares td key 0) more z
      → Outcome
  at_more path z inside head some found (above, below, edge) =
      in_hole path (right_of z.left z.here) z.frames
        (ap (λ k. plug z.frames (node z.left z.here k)) (sym edge) ∙ inside) some found
        (λ td1 p put frames.
          ap (λ k. put_at key value flags k (noted td path)) head
          ∙ put_at-more (noted td path) td1 key value flags p z.left z.here z.frames put frames.0)
        (λ put.
          ap (λ k. put_at key value flags k (noted td path)) head
          ∙ put_at-fails (noted td path) key value flags z.here more space (λ e. more-ne-equal e)
              put)
        (subst (AllAre (compares td key 0) more)
          (append_assoc (before z.frames) (inorder z.left) (z.here ∷ [])) above)
        (subst (AllAre (compares td key 0) less) (ap (λ k. inorder k ++ behind z.frames) edge)
          below)

  by_place :
      (path : KeyPath) (z : Zip) (k : Cmp)
      → compares td key 0 z.here ≡ k
      → NoneIs (compares td key 0) equal (inorder t)
      → whole z ≡ t
      → path.head ≡ elt_of z.here k
      → (td.header.top == 0) ≡ false
      → td_iterate (path_init td.header.top) key 0 td ≡ ok path (noted td path)
      → Landed (compares td key 0) k z
      → Outcome
  by_place path z less hit new inside head some found land =
      at_less path z inside head some found land
  by_place path z more hit new inside head some found land =
      at_more path z inside head some found land
  by_place path z equal hit new inside head some found land = absurd (
      NoneIs-middle (compares td key 0) equal (pre z) z.here (post z)
        (subst (NoneIs (compares td key 0) equal) (ap inorder (sym inside) ∙ inorder-whole z) new)
        hit)

-- td_put_key with a key that no node of the tree has, in a btree whose tree and free chunks lie apart,
-- that is not extended, and whose nodes come in the order of the key: it returns with no error, and
-- then the btree holds a tree with the key and the value as one entry more, in its place in the
-- order, and the other entries as they were, apart from what remains free. Or no free chunk has room:
-- then it gives TDERR_SPACE, and only the depth seen is noted. The words of the new node are words,
-- its size needs no rounding, and the flags ask for the checksum if the btree does; the tree is
-- lower than 128, its nodes are fewer than the resource has bytes, and the free chunks are not more.
pub td_put_key-Inserted :
    (td : Td) (t : Tree) (ps : List Free) (key : List ℕ) (value flags : ℕ)
    → Holds td t ps
    → Suits td key value 0 0 flags
    → td.extend ≡ none
    → nodes t < td.header.size
    → length ps ≤ td.header.size
    → height t < 128
    → Ordered (compares td key 0) (inorder t)
    → NoneIs (compares td key 0) equal (inorder t)
    → ((td' : Td) × (td_put_key key value flags td ≡ ok tt td') × Inserted td td' t key value)
      ⊎ ((d : ℕ) × (td_put_key key value flags td ≡ err space (record td { maxdepth = d }))
          × AllUnfit true (24 + length key) ps)
td_put_key-Inserted td leaf ps key value flags h w fixed few short low ordered new =
    let empty : (td.header.top == 0) ≡ true = is_zero h.tree.1 in
    elim (fills td [] ps key value flags h.tree tt h.free w fixed short few) [
      | inl (p, td1, filled) ↦ inl (
        filled.rest.final,
        put_key-first td td1 (linked td1 [] p) filled.rest.final key value flags p empty filled.put
            (td_write_header-top td1 p filled.low filled.word) filled.rest.run,
        record {
          tree = filled.rest.tree;
          free = filled.left;
          holds = filled.rest.holds;
          front = [];
          back = [];
          split = refl;
          above = tt;
          below = tt;
          ptr = p;
          size_eq = filled.rest.size_eq ∙ filled.size_eq;
          compare_eq = filled.rest.compare_eq ∙ filled.compare_eq;
          same = filled.rest.same;
        },
      )
      | inr (run, unfit) ↦ inr (td.maxdepth, put_key-full td key value flags empty run, unfit)
    ]
td_put_key-Inserted td (node l n r) ps key value flags h w fixed few short low ordered new =
    let (path, found, f) =
      td_iterate-Found td l n r key 0 h.tree.0 low (omega (arith, few)) ordered in
    by_place td (node l n r) ps key value flags h w fixed few short path f.place
      (compares td key 0 f.place.here) refl new f.inside (ap (λ k. k.head) f.path_eq)
      (points h.tree.0.0 h.tree.1) (ap (λ k. td_iterate (path_init k) key 0 td) h.tree.1 ∙ found)
      f.landed
