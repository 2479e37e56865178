-- ===== src/Update/Lookup.antt =====
-- td_put_key.c and td_iterate.c after it: the key is found, with its value.
use sdbm_tree.Space.Fit.{AllUnfit}
use sdbm_tree.Common.{
  ℕ, ◌+◌, ◌≤◌, ◌<◌, ◌≡◌, ◌⊎◌, inl, inr, refl, sym, subst, ap, ap₂, ◌∙◌, List, [], ◌∷◌, ◌++◌, map,
  none, arith, length, length-append, true, Bool,
}
use sdbm_tree.Types.{Td, Cmp, partial, has_flag}
use sdbm_tree.Types.Cmp.{less, equal, more}
use sdbm_tree.Types.Error.{space}
use sdbm_tree.Machine.{ok, err}
use sdbm_tree.Search.{KeyPath, path_init, td_iterate}
use sdbm_tree.Space.Free.{Free}
use sdbm_tree.Tree.{Node, Tree, inorder}
use sdbm_tree.Tree.Order.{rank, AllAre, NoneIs, AllGe, Ordered}
use sdbm_tree.Tree.Search.{compares, noted}
use sdbm_tree.Tree.Keep.{Entry, entry}
use sdbm_tree.Tree.Entries.{nodes, length-map}
use sdbm_tree.Update.{td_put_key}
use sdbm_tree.Update.Room.{Holds}
use sdbm_tree.Update.New.{Suits}
use sdbm_tree.Update.Put.{Inserted, td_put_key-Inserted, more-ne-equal}
use sdbm_tree.Update.Settle.{height-le-nodes}
use sdbm_tree.Update.Refuse.{NoneIs-AllAre}
use sdbm_tree.Update.Seek.{finds}

-- Where a list of nodes has the entries of another one with one entry more.
record Split (ns front : List Node) (e : Entry) (back : List Node) : Type 0 where
  pub xs : List Node
  pub here : Node
  pub ys : List Node
  pub parts : ns ≡ xs ++ (here ∷ ys)
  pub xs_eq : map entry xs ≡ map entry front
  pub here_eq : entry here ≡ e
  pub ys_eq : map entry ys ≡ map entry back

first_entry : Entry → List Entry → Entry
first_entry d [] = d
first_entry d (e ∷ es) = e

later_entries : List Entry → List Entry
later_entries [] = []
later_entries (e ∷ es) = es

splits :
    (ns front : List Node) (e : Entry) (back : List Node)
    → map entry ns ≡ map entry front ++ (e ∷ map entry back)
    → Split ns front e back
unfolding first_entry later_entries
splits [] [] e back h = absurd (omega (arith, ap (length {A = Entry}) h))
splits [] (f ∷ front) e back h = absurd (omega (arith, ap (length {A = Entry}) h))
splits (n ∷ ns) [] e back h = record {
  xs = [];
  here = n;
  ys = ns;
  parts = refl;
  xs_eq = refl;
  here_eq = ap (first_entry e) h;
  ys_eq = ap later_entries h;
}
splits (n ∷ ns) (f ∷ front) e back h =
    let s = splits ns front e back (ap later_entries h) in
    record {
      xs = n ∷ s.xs;
      here = s.here;
      ys = s.ys;
      parts = ap (λ k. n ∷ k) s.parts;
      xs_eq = ap₂ ◌∷◌ (ap (first_entry e) h) s.xs_eq;
      here_eq = s.here_eq;
      ys_eq = s.ys_eq;
    }

-- A comparison that looks at the key of a node alone.
module _ (g : List ℕ → Cmp) where
  abbrev c : Node → Cmp
  c n = g n.key

  EntryAre : Cmp → List Entry → Type 0
  EntryAre k [] = Unit {0}
  EntryAre k (e ∷ es) = (g e.key ≡ k) × EntryAre k es

  to_entries : (k : Cmp) (ns : List Node) → AllAre c k ns → EntryAre k (map entry ns)
  unfolding EntryAre
  to_entries k [] h = tt
  to_entries k (n ∷ ns) h = (h.0, to_entries k ns h.1)

  from_entries : (k : Cmp) (ns : List Node) → EntryAre k (map entry ns) → AllAre c k ns
  unfolding EntryAre
  from_entries k [] h = tt
  from_entries k (n ∷ ns) h = (h.0, from_entries k ns h.1)

  AllAre-map :
      (k : Cmp) (ns ms : List Node) → map entry ms ≡ map entry ns → AllAre c k ns → AllAre c k ms
  AllAre-map k ns ms e h = from_entries k ms (subst (EntryAre k) (sym e) (to_entries k ns h))

  AllGe-less : (b : ℕ) (ns : List Node) → b ≤ 2 → AllAre c less ns → AllGe c b ns
  AllGe-less b [] low h = tt
  AllGe-less b (n ∷ ns) low h = (omega (arith, low, ap rank h.0), AllGe-less b ns low h.1)

  Ordered-less : (ns : List Node) → AllAre c less ns → Ordered c ns
  Ordered-less [] h = tt
  Ordered-less (n ∷ ns) h =
      (AllGe-less (rank (c n)) ns (omega (arith, ap rank h.0)) h.1, Ordered-less ns h.1)

  AllGe-zero : (b : ℕ) (ns : List Node) → b ≡ 0 → AllGe c b ns
  AllGe-zero b [] e = tt
  AllGe-zero b (n ∷ ns) e = (omega (arith, e), AllGe-zero b ns e)

  Ordered-parts :
      (xs : List Node) (n : Node) (ys : List Node)
      → AllAre c more xs
      → c n ≡ equal
      → AllAre c less ys
      → Ordered c (xs ++ (n ∷ ys))
  Ordered-parts [] n ys above hit below =
      (AllGe-less (rank (c n)) ys (omega (arith, ap rank hit)) below, Ordered-less ys below)
  Ordered-parts (x ∷ xs) n ys above hit below = (
    AllGe-zero (rank (c x)) (xs ++ (n ∷ ys)) (ap rank above.0),
    Ordered-parts xs n ys above.1 hit below,
  )

-- How a key compares to others.
abbrev by_key : (List ℕ → List ℕ → Bool → Cmp) → List ℕ → List ℕ → Cmp
by_key compare key k = compare key k (has_flag 0 partial)

-- A search for the key on the btree after the insertion.
abbrev pub Finds : Td → List ℕ → ℕ → Type 0
Finds td' key value =
    (path : KeyPath) × (td_iterate (path_init td'.header.top) key 0 td' ≡ ok path (noted td' path))
    × (path.head.cmp ≡ equal)
    × (path.head.keyhead.value ≡ value)

Inserted-Finds :
    (td td' : Td) (t : Tree) (key : List ℕ) (value : ℕ)
    → Inserted td td' t key value
    → nodes t + 1 < 128
    → nodes t < td.header.size
    → td.compare key key (has_flag 0 partial) ≡ equal
    → Finds td' key value
Inserted-Finds td td' t key value i few room self =
    let s =
      splits (inorder i.tree) i.front (record { ptr = i.ptr; key = key; value = value }) i.back
        i.same in
    let g = by_key td'.compare key in
    let same_compare : by_key td.compare key ≡ by_key td'.compare key =
      ap (λ f. by_key f key) (sym i.compare_eq) in
    let above =
      AllAre-map g more i.front s.xs s.xs_eq
        (subst (λ f. AllAre (λ n. f n.key) more i.front) same_compare i.above) in
    let below =
      AllAre-map g less i.back s.ys s.ys_eq
        (subst (λ f. AllAre (λ n. f n.key) less i.back) same_compare i.below) in
    let hit : compares td' key 0 s.here ≡ equal =
      ap (λ e. g e.key) s.here_eq ∙ sym (ap (λ f. f key) same_compare) ∙ self in
    let count : nodes i.tree ≡ nodes t + 1 = omega (
      arith,
      sym (length-map (inorder i.tree)),
      ap (length {A = Entry}) i.same,
      length-append (map entry i.front)
          (record { ptr = i.ptr; key = key; value = value } ∷ map entry i.back),
      length-map i.front,
      length-map i.back,
      ap (length {A = Node}) i.split,
      length-append i.front i.back,
    ) in
    let (z, e, found, parts) =
      finds td' key 0 i.tree s.xs s.here s.ys i.holds.tree
        (omega (arith, height-le-nodes i.tree, count, few)) (omega (arith, count, room, i.size_eq))
        (subst (Ordered (compares td' key 0)) (sym s.parts)
          (Ordered-parts g s.xs s.here s.ys above hit below))
        s.parts (NoneIs-AllAre (compares td' key 0) more s.xs more-ne-equal above) hit in
    (
      e.path,
      e.run,
      ap (λ p. p.head.cmp) e.path_eq ∙ found,
      ap (λ p. p.head.keyhead.value) e.path_eq
          ∙ ap (λ n. n.head.value) (sym parts.here)
          ∙ ap (λ k. k.value) s.here_eq,
    )

-- td_put_key with a key that no node of the tree has, in a btree whose tree and free chunks lie apart,
-- that is not extended, and whose nodes come in the order of the key, with a comparison by which the key
-- equals itself: it returns with no error, and then a td_iterate for the key on the btree that it leaves
-- returns with no error, at a node that the key matches and that has the value. Or no free chunk has
-- room, and td_put_key gives TDERR_SPACE. The words of the new node are words, its size needs no
-- rounding, and the flags ask for the checksum if the btree does; the nodes of the tree are fewer than
-- 127, and than the resource has bytes, and the free chunks are not more.
pub td_put_key-td_iterate :
    (td : Td) (t : Tree) (ps : List Free) (key : List ℕ) (value flags : ℕ)
    → Holds td t ps
    → Suits td key value 0 0 flags
    → td.extend ≡ none
    → nodes t < td.header.size
    → length ps ≤ td.header.size
    → nodes t + 1 < 128
    → Ordered (compares td key 0) (inorder t)
    → NoneIs (compares td key 0) equal (inorder t)
    → td.compare key key (has_flag 0 partial) ≡ equal
    → ((td' : Td) × (td_put_key key value flags td ≡ ok tt td') × Finds td' key value)
      ⊎ ((d : ℕ) × (td_put_key key value flags td ≡ err space (record td { maxdepth = d }))
          × AllUnfit true (24 + length key) ps)
td_put_key-td_iterate td t ps key value flags h w fixed few short low ordered new self =
    elim (td_put_key-Inserted td t ps key value flags h w fixed few short
      (omega (arith, height-le-nodes t, low)) ordered new) [
        | inl (td', run, i) ↦ inl (td', run, Inserted-Finds td td' t key value i low few self)
        | inr full ↦ inr full
      ]
