-- ===== src/Update/Seek.antt =====
-- td_del.c: the steps of the deletion of a key, and the part of the sequence of nodes that a search finds.
use sdbm_tree.Tree.Nodes.{points}
use sdbm_tree.Tree.Whole.{HoldsAt}
use sdbm_tree.Tree.Entries.{nodes}
use sdbm_tree.Tdt.{Tdt}
use sdbm_tree.Memory.{slice}
use sdbm_tree.Common.{
  ℕ, ◌≤◌, ◌<◌, ◌≡◌, refl, sym, subst, ap, ap₂, ◌∙◌, List, [], ◌∷◌, ◌++◌, arith, length, word_mod,
  true, false, ◌==◌, Option, ◌⊎◌, inl, inr, ltb, length-append,
}
use sdbm_tree.Types.{Td, Cmp}
use sdbm_tree.Types.Cmp.{less, equal, more}
use sdbm_tree.Types.Error.{notfound}
use sdbm_tree.Machine.{ok, err}
use sdbm_tree.Io.{td_read_header, decode_header}
use sdbm_tree.Search.{KeyPath, path_init, td_iterate}
use sdbm_tree.Tree.{
  Node, Tree, leaf, node, inorder, height, left_of, right_of, Frames, plug, elt_of, elts,
}
use sdbm_tree.Tree.Zip.{Zip, whole, pre, post, path_of}
use sdbm_tree.Tree.Order.{inorder-whole, NoneIs, Ordered, Landed}
use sdbm_tree.Tree.Search.{compares, noted, td_iterate-Found}
use sdbm_tree.Update.{td_del_pathhead, td_del_one}
use sdbm_tree.Update.Put.{more-ne-equal}
use sdbm_tree.Update.Refuse.{hits, NoneIs-AllAre}

-- The parts of a sequence before and behind the first node that matches.
module _ (c : Node → Cmp) where
  pub record SameParts (xs : List Node) (n : Node) (ys xs' : List Node) (n' : Node)
      (ys' : List Node) : Type 0 where
    pub front : xs ≡ xs'
    pub here : n ≡ n'
    pub back : ys ≡ ys'

  head_of : Node → List Node → Node
  head_of d [] = d
  head_of d (x ∷ xs) = x

  tail_of : List Node → List Node
  tail_of [] = []
  tail_of (x ∷ xs) = xs

  pub same_parts :
      (xs : List Node) (n : Node) (ys xs' : List Node) (n' : Node) (ys' : List Node)
      → xs ++ (n ∷ ys) ≡ xs' ++ (n' ∷ ys')
      → NoneIs c equal xs
      → NoneIs c equal xs'
      → c n ≡ equal
      → c n' ≡ equal
      → SameParts xs n ys xs' n' ys'
  unfolding head_of tail_of
  same_parts [] n ys [] n' ys' e h h' k k' = record {
    front = refl;
    here = ap (head_of n) e;
    back = ap tail_of e;
  }
  same_parts [] n ys (x ∷ xs') n' ys' e h h' k k' =
      absurd (h'.0 (ap c (sym (ap (head_of n) e)) ∙ k))
  same_parts (x ∷ xs) n ys [] n' ys' e h h' k k' = absurd (h.0 (ap c (ap (head_of n) e) ∙ k'))
  same_parts (x ∷ xs) n ys (x' ∷ xs') n' ys' e h h' k k' =
      let r = same_parts xs n ys xs' n' ys' (ap tail_of e) h.1 h'.1 k k' in
      record { front = ap₂ ◌∷◌ (ap (head_of n) e) r.front; here = r.here; back = r.back }

pub height-plug : (fs : Frames) (t : Tree) → height t ≤ height (plug fs t)
height-plug [] t = omega arith
height-plug (left_of n r ∷ fs) t = omega (arith, height-plug fs (node t n r))
height-plug (right_of l n ∷ fs) t = omega (arith, height-plug fs (node l n t))

pub read_header-same :
    (td : Td)
    → 44 ≤ td.header.size
    → td.header.size < word_mod
    → decode_header (slice td.mem 0 44) ≡ td.header
    → td_read_header td ≡ ok tt td
unfolding td_read_header decode_header
read_header-same td low word same =
    let fits : ltb td.header.size 44 ≡ false = ground (arith, low) in
    rw fits (ap (λ h. ok tt (record td { header = h })) same)

-- td_del_one from the parts that it is made of.
pub del_one-empty :
    (td : Td) (key : List ℕ) (value : Option Tdt) (flags : ℕ)
    → td_read_header td ≡ ok tt td
    → (td.header.top == 0) ≡ true
    → td_del_one key value flags td ≡ err notfound td
unfolding td_del_one
del_one-empty td key value flags read empty = rw (read, empty) refl

pub del_one-misses :
    (td td1 : Td) (key : List ℕ) (value : Option Tdt) (flags : ℕ) (path : KeyPath) (k : Cmp)
    → td_read_header td ≡ ok tt td
    → (td.header.top == 0) ≡ false
    → td_iterate (path_init td.header.top) key flags td ≡ ok path td1
    → path.head.cmp ≡ k
    → (k ≡ equal → ⊥)
    → td_del_one key value flags td ≡ err notfound td1
unfolding td_del_one
del_one-misses td td1 key value flags path less read some found at differs =
    rw (read, some, found, at) refl
del_one-misses td td1 key value flags path equal read some found at differs = absurd (differs refl)
del_one-misses td td1 key value flags path more read some found at differs =
    rw (read, some, found, at) refl

pub del_one-deletes :
    (td td1 td' : Td) (key : List ℕ) (value value' : Option Tdt) (flags : ℕ) (z : Zip)
    → td_read_header td ≡ ok tt td
    → (td.header.top == 0) ≡ false
    → td_iterate (path_init td.header.top) key flags td ≡ ok (path_of z) td1
    → td_del_pathhead (path_of z) value flags td1 ≡ ok value' td'
    → td_del_one key value flags td ≡ ok value' td'
unfolding td_del_one
del_one-deletes td td1 td' key value value' flags z read some found run = rw (read, some, found) run

-- A search in a tree whose nodes come in the order of the key.
module _ (td : Td) (key : List ℕ) (flags : ℕ) where
  abbrev c : Node → Cmp
  c = compares td key flags

  -- It ends at `z`.
  pub record Ends (t : Tree) (z : Zip) : Type 0 where
    pub some : (td.header.top == 0) ≡ false
    pub path : KeyPath
    pub run : td_iterate (path_init td.header.top) key flags td ≡ ok path (noted td path)
    pub path_eq : path ≡ record { head = elt_of z.here (c z.here); below = elts z.frames }
    pub inside : whole z ≡ t
    pub landed : Landed c (c z.here) z

  pub searches :
      (t : Tree)
      → HoldsAt td t
      → height t < 128
      → nodes t ≤ td.header.size
      → Ordered c (inorder t)
      → (t ≡ leaf) ⊎ ((z : Zip) × Ends t z)
  searches leaf h low few ordered = inl refl
  searches (node l m r) h low few ordered =
      let (path, run, f) = td_iterate-Found td l m r key flags h.0 low few ordered in
      inr (
        f.place,
        record {
          some = points h.0.0 h.1;
          path = path;
          run = ap (λ k. td_iterate (path_init k) key flags td) h.1 ∙ run;
          path_eq = f.path_eq;
          inside = f.inside;
          landed = f.landed;
        },
      )

  NoneIs-Landed : (z : Zip) → c z.here ≡ equal → Landed c (c z.here) z → NoneIs c equal (pre z)
  NoneIs-Landed z hit landed =
      NoneIs-AllAre c more (pre z) more-ne-equal (subst (λ k. Landed c k z) hit landed)

  -- It ends at the first node that matches, where one does.
  pub finds :
      (t : Tree) (xs : List Node) (n : Node) (ys : List Node)
      → HoldsAt td t
      → height t < 128
      → nodes t ≤ td.header.size
      → Ordered c (inorder t)
      → inorder t ≡ xs ++ (n ∷ ys)
      → NoneIs c equal xs
      → c n ≡ equal
      → (z : Zip) × Ends t z × (c z.here ≡ equal) × SameParts c xs n ys (pre z) z.here (post z)
  finds t xs n ys h low few ordered split first hit = elim (searches t h low few ordered) [
    | inl e ↦
        absurd (omega (arith, ap length (sym split ∙ ap inorder e), length-append xs (n ∷ ys)))
    | inr (z, e) ↦
        let around = sym (inorder-whole z) ∙ ap inorder e.inside ∙ split in
        let found = hits c z (c z.here) xs n ys e.landed around hit in
        (
          z,
          e,
          found,
          same_parts c xs n ys (pre z) z.here (post z) (sym around) first
              (NoneIs-Landed z found e.landed) hit found,
        )
  ]
