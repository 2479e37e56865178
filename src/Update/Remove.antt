-- ===== src/Update/Remove.antt =====
-- td_del.c: the deletion of a key from a btree that holds a tree and a list of free chunks.
use sdbm_tree.Io.Frame.{chunk_at}
use sdbm_tree.Update.Give.{chunk_of, Holds-same}
use sdbm_tree.Update.Room.{NodesAway, Holds}
use sdbm_tree.Space.Release.{released}
use sdbm_tree.Space.Free.{Free, Linked, Disjoint}
use sdbm_tree.Tree.Nodes.{is_zero}
use sdbm_tree.Tree.Plug.{TreeAt-unplug}
use sdbm_tree.Tree.Whole.{HoldsAt}
use sdbm_tree.Tree.Entries.{nodes}
use sdbm_tree.Tdt.{Tdt}
use sdbm_tree.Memory.{slice}
use sdbm_tree.Common.{
  ℕ, ◌+◌, ◌%◌, ◌≤◌, ◌<◌, ◌≡◌, refl, sym, subst, ap, ap₂, ◌∙◌, List, ◌∷◌, ◌++◌, map, none, arith,
  length, word_mod, true, false, leb, ◌==◌, add32, Option, inl, inr,
}
use sdbm_tree.Types.{Td, Cmp, wipedeleted, has_flag}
use sdbm_tree.Types.Cmp.{equal}
use sdbm_tree.Types.Error.{notfound}
use sdbm_tree.Machine.{ok, err}
use sdbm_tree.Io.{td_read_header, decode_header}
use sdbm_tree.Search.{KeyPath}
use sdbm_tree.Tree.{Node, Tree, node, inorder, height, elt_of, elts, TreeAt, root}
use sdbm_tree.Tree.Zip.{Zip, whole, pre, post, path_of}
use sdbm_tree.Tree.Order.{inorder-whole, NoneIs, Ordered, Landed}
use sdbm_tree.Tree.Search.{compares, noted}
use sdbm_tree.Tree.Keep.{entry, entries}
use sdbm_tree.Update.{td_del_one}
use sdbm_tree.Update.Put.{NoneIs-middle}
use sdbm_tree.Update.Delete.{Deletes, td_del_pathhead-Deleted}
use sdbm_tree.Update.Seek.{
  height-plug, read_header-same, del_one-empty, del_one-misses, del_one-deletes, Ends, searches,
  finds,
}

-- What a deletion of the key of the node `n` in the tree finds: the chunks of its value, in the value of
-- no other key, and the free chunks, none of which overlaps another or a node.
pub record Removes (td : Td) (t : Tree) (n : Node) (vs ps : List Free) : Type 0 where
  pub holds : Holds td t ps
  pub header : decode_header (slice td.mem 0 44) ≡ td.header
  pub keep : has_flag td.header.flags wipedeleted ≡ false
  pub value : Linked td.header.size td.mem n.head.value vs 0
  pub disjoint : Disjoint (vs ++ ps)
  pub beside : NodesAway (inorder t) vs
  pub single : leb (chunk_at td.mem n.head.value).refcount 1 ≡ true
  pub few : length vs ≤ td.header.size
  pub short : length ps + (length vs + 1) < word_mod
  pub nodes : nodes t ≤ td.header.size
  pub low : height t < 128

-- The btree holds a tree with the entries of `xs` and `ys`, and what `n` and its value took is free.
pub record Removed (td' : Td) (xs : List Node) (n : Node) (ys : List Node) (vs ps : List Free)
    : Type 0 where
  pub tree : Tree
  pub same : entries tree ≡ map entry (xs ++ ys)
  pub holds : Holds td' tree (chunk_of n ∷ released vs ps)

-- A search in a tree whose nodes come in the order of the key.
module _ (td : Td) (key : List ℕ) (flags : ℕ) where
  abbrev c : Node → Cmp
  c = compares td key flags

  size_low : (l : Tree) (m : Node) (r : Tree) → TreeAt td (node l m r) → 44 ≤ td.header.size
  size_low l m r at = omega (arith, at.0.low, at.0.high)

  reads :
      (t : Tree) (z : Zip)
      → HoldsAt td t
      → whole z ≡ t
      → decode_header (slice td.mem 0 44) ≡ td.header
      → td_read_header td ≡ ok tt td
  reads t z h inside header =
      let (here, fs) =
        TreeAt-unplug td z.frames (node z.left z.here z.right)
          (subst (TreeAt td) (sym inside) h.0) in
      read_header-same td (size_low z.left z.here z.right here) here.0.word header

  -- At the node that it ends at, once the depth is noted.
  noted-Deletes :
      (t : Tree) (z : Zip) (path : KeyPath) (vs ps : List Free)
      → whole z ≡ t
      → Removes td t z.here vs ps
      → Deletes (noted td path) z vs ps
  noted-Deletes t z path vs ps inside k =
      let n = noted td path in
      let held =
        subst (λ x. Holds n x ps) (sym inside)
          (Holds-same td n t ps refl refl refl refl refl refl k.holds) in
      let (here, fs) = TreeAt-unplug n z.frames (node z.left z.here z.right) held.tree.0 in
      record {
        at = (here.0, here.1, here.2, here.3, here.4, fs);
        holds = held;
        keep = k.keep;
        value = k.value;
        disjoint = k.disjoint;
        beside = subst (λ x. NodesAway (inorder x) vs) (sym inside) k.beside;
        single = k.single;
        few = k.few;
        short = k.short;
        nodes = subst (λ x. nodes x ≤ td.header.size) (sym inside) k.nodes;
        low =
            omega
              (arith, k.low, ap height inside, height-plug z.frames (node z.left z.here z.right));
      }

  run_at :
      (t : Tree) (z : Zip) (v : Free) (vs ps : List Free)
      → Ends td key flags t z
      → c z.here ≡ equal
      → Removes td t z.here (v ∷ vs) ps
      → (add32 td.header.scn 1 % 8 == 0) ≡ false
      → (td' : Td) × (td_del_one key none flags td ≡ ok none td')
        × Removed td' (pre z) z.here (post z) (v ∷ vs) ps
  run_at t z v vs ps e hit k no_defrag =
      let path_is : e.path ≡ path_of z =
        e.path_eq ∙ ap (λ x. record { head = elt_of z.here x; below = elts z.frames }) hit in
      let n = noted td e.path in
      let (td', run, d) =
        td_del_pathhead-Deleted n z v vs ps flags (noted-Deletes t z e.path (v ∷ vs) ps e.inside k)
          no_defrag in
      (
        td',
        del_one-deletes td n td' key none none flags z (reads t z k.holds.tree e.inside k.header)
            e.some (e.run ∙ ap (λ x. ok x n) path_is) run,
        record { tree = d.tree; same = d.same; holds = d.holds },
      )

  -- td_del for one key, without a container for the value, on a tree of height below 128 whose nodes
  -- come in the order of the key, whose first node that matches the key is `n`, with a value of one
  -- reference, where the header is as it is stored, TDFLG_WIPEDELETED is off and td_defrag is not due:
  -- it returns with no error, and then the btree holds a tree with all entries but that of `n`, in
  -- their order, and the node's space and the chunks of its value are in front of the free chunks,
  -- which are well-formed and apart from the tree. The nodes and the chunks of the value are not more
  -- than the resource has bytes, and all chunks are fewer than 2 ^ 32.
  pub td_del_one-Removed :
      (t : Tree) (xs : List Node) (n : Node) (ys : List Node) (v : Free) (vs ps : List Free)
      → Removes td t n (v ∷ vs) ps
      → Ordered (compares td key flags) (inorder t)
      → inorder t ≡ xs ++ (n ∷ ys)
      → NoneIs (compares td key flags) equal xs
      → compares td key flags n ≡ equal
      → (add32 td.header.scn 1 % 8 == 0) ≡ false
      → (td' : Td) × (td_del_one key none flags td ≡ ok none td') × Removed td' xs n ys (v ∷ vs) ps
  td_del_one-Removed t xs n ys v vs ps k ordered split first hit no_defrag =
      let (z, e, found, same) =
        finds td key flags t xs n ys k.holds.tree k.low k.nodes ordered split first hit in
      let (td', run, r) =
        run_at t z v vs ps e found (subst (λ m. Removes td t m (v ∷ vs) ps) same.here k)
          no_defrag in
      (
        td',
        run,
        record {
          tree = r.tree;
          same = r.same ∙ ap (map entry) (ap₂ ◌++◌ (sym same.front) (sym same.back));
          holds =
              subst (λ m. Holds td' r.tree (chunk_of m ∷ released (v ∷ vs) ps)) (sym same.here)
                r.holds;
        },
      )

  misses :
      (t : Tree) (z : Zip) (k : Cmp)
      → c z.here ≡ k
      → Landed c k z
      → whole z ≡ t
      → NoneIs c equal (inorder t)
      → k ≡ equal
      → ⊥
  misses t z k at landed inside new e =
      NoneIs-middle c equal (pre z) z.here (post z)
        (subst (NoneIs c equal) (ap inorder (sym inside) ∙ inorder-whole z) new) (at ∙ e)

  -- td_del for one key that no node of the tree matches, on a tree of height below 128 whose nodes come
  -- in the order of the key, where the header is as it is stored: it gives TDERR_NOTFOUND, and only the
  -- depth seen is noted.
  pub td_del_one-notfound :
      (t : Tree) (value : Option Tdt)
      → HoldsAt td t
      → 44 ≤ td.header.size
      → td.header.size < word_mod
      → decode_header (slice td.mem 0 44) ≡ td.header
      → height t < 128
      → nodes t ≤ td.header.size
      → Ordered (compares td key flags) (inorder t)
      → NoneIs (compares td key flags) equal (inorder t)
      → (d : ℕ) × (td_del_one key value flags td ≡ err notfound (record td { maxdepth = d }))
  td_del_one-notfound t value h size word header low few ordered new =
      let read = read_header-same td size word header in
      elim (searches td key flags t h low few ordered) [
        | inl e ↦ (td.maxdepth, del_one-empty td key value flags read (is_zero (h.1 ∙ ap root e)))
        | inr (z, e) ↦ (
          (noted td e.path).maxdepth,
          del_one-misses td (noted td e.path) key value flags e.path (c z.here) read e.some e.run
              (ap (λ p. p.head.cmp) e.path_eq) (misses t z (c z.here) refl e.landed e.inside new),
        )
      ]
