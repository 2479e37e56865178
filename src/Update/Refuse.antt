-- ===== src/Update/Refuse.antt =====
-- td_put_key.c with TDFLG_NOOVERWRITE and a key that a node has.
use mathlib.Core.List.{append_assoc}
use sdbm_tree.Common.{
  ℕ, ◌≤◌, ◌<◌, ◌≡◌, refl, subst, sym, ap, ◌∙◌, true, false, List, [], ◌∷◌, ◌++◌, arith, length,
}
use sdbm_tree.Types.{Td, Cmp, duplkeys, nooverwrite, has_flag}
use sdbm_tree.Types.Cmp.{less, equal, more}
use sdbm_tree.Types.Error.{dup}
use sdbm_tree.Machine.{err}
use sdbm_tree.Search.{path_init, td_iterate}
use sdbm_tree.Tree.{Node, Tree, leaf, node, inorder, height, elt_of}
use sdbm_tree.Tree.Zip.{Zip, pre, post}
use sdbm_tree.Tree.Order.{inorder-whole, AllAre, NoneIs, Ordered, Landed}
use sdbm_tree.Tree.Search.{compares, noted, td_iterate-Found}
use sdbm_tree.Tree.Nodes.{points}
use sdbm_tree.Tree.Entries.{nodes}
use sdbm_tree.Tree.Whole.{HoldsAt}
use sdbm_tree.Update.{put_at, put_at_match, td_put_key}
use sdbm_tree.Update.Put.{NoneIs-middle, less-ne-equal, more-ne-equal}
use sdbm_tree.Update.Insert.{put_key-fails}

module _ (c : Node → Cmp) where
  pub NoneIs-AllAre :
      (k : Cmp) (ns : List Node) → (k ≡ equal → ⊥) → AllAre c k ns → NoneIs c equal ns
  NoneIs-AllAre k [] differs h = tt
  NoneIs-AllAre k (n ∷ ns) differs h = (λ e. differs (sym h.0 ∙ e), NoneIs-AllAre k ns differs h.1)

  NoneIs-append :
      (xs ys : List Node) → NoneIs c equal xs → NoneIs c equal ys → NoneIs c equal (xs ++ ys)
  NoneIs-append [] ys h h' = h'
  NoneIs-append (x ∷ xs) ys h h' = (h.0, NoneIs-append xs ys h.1 h')

  -- A search that ended beside the place of the key met no node with the key.
  pub missed :
      (z : Zip) (k : Cmp)
      → (k ≡ equal → ⊥)
      → Landed c k z
      → NoneIs c equal (pre z ++ (z.here ∷ post z))
  missed z less differs (above, below, edge) =
      NoneIs-append (pre z) (z.here ∷ post z) (NoneIs-AllAre more (pre z) more-ne-equal above)
        (NoneIs-AllAre less (z.here ∷ post z) less-ne-equal below)
  missed z equal differs land = absurd (differs refl)
  missed z more differs (above, below, edge) =
      subst (NoneIs c equal) (append_assoc (pre z) (z.here ∷ []) (post z)) (
        NoneIs-append (pre z ++ (z.here ∷ [])) (post z)
          (NoneIs-AllAre more (pre z ++ (z.here ∷ [])) more-ne-equal above)
          (NoneIs-AllAre less (post z) less-ne-equal below))

  pub hits :
      (z : Zip) (k : Cmp) (xs : List Node) (n : Node) (ys : List Node)
      → Landed c k z
      → pre z ++ (z.here ∷ post z) ≡ xs ++ (n ∷ ys)
      → c n ≡ equal
      → k ≡ equal
  hits z equal xs n ys land split hit = refl
  hits z less xs n ys land split hit = absurd (
      NoneIs-middle c equal xs n ys
        (subst (NoneIs c equal) split (missed z less less-ne-equal land)) hit)
  hits z more xs n ys land split hit = absurd (
      NoneIs-middle c equal xs n ys
        (subst (NoneIs c equal) split (missed z more more-ne-equal land)) hit)

put_at-refuses :
    (td : Td) (key : List ℕ) (value flags : ℕ) (n : Node)
    → has_flag flags duplkeys ≡ false
    → has_flag flags nooverwrite ≡ true
    → put_at key value flags (elt_of n equal) td ≡ err dup td
unfolding put_at put_at_match
put_at-refuses td key value flags n single keep = rw (single, keep) refl

-- td_put_key with TDFLG_NOOVERWRITE and without TDFLG_DUPLKEYS, with a key that a node of the tree has,
-- on a tree of height below 128 whose nodes come in the order of the key: it gives TDERR_DUP, and only
-- the depth seen is noted.
pub td_put_key-refuses :
    (td : Td) (t : Tree) (key : List ℕ) (value flags : ℕ) (xs : List Node) (n : Node)
    (ys : List Node)
    → HoldsAt td t
    → height t < 128
    → nodes t ≤ td.header.size
    → Ordered (compares td key 0) (inorder t)
    → inorder t ≡ xs ++ (n ∷ ys)
    → compares td key 0 n ≡ equal
    → has_flag flags duplkeys ≡ false
    → has_flag flags nooverwrite ≡ true
    → (d : ℕ) × (td_put_key key value flags td ≡ err dup (record td { maxdepth = d }))
td_put_key-refuses td leaf key value flags [] n ys h low few ordered split hit single keep =
    absurd (omega (arith, ap (length {A = Node}) split))
td_put_key-refuses td leaf key value flags (x ∷ xs) n ys h low few ordered split hit single keep =
    absurd (omega (arith, ap (length {A = Node}) split))
td_put_key-refuses td (node l m r) key value flags xs n ys h low few ordered split hit single keep =
    let (path, found, f) = td_iterate-Found td l m r key 0 h.0 low few ordered in
    let z = f.place in
    let at_match =
      hits (compares td key 0) z (compares td key 0 z.here) xs n ys f.landed
        (sym (inorder-whole z) ∙ ap inorder f.inside ∙ split) hit in
    (
      (noted td path).maxdepth,
      put_key-fails td (noted td path) key value flags path dup (points h.0.0 h.1)
          (ap (λ k. td_iterate (path_init k) key 0 td) h.1 ∙ found)
          (ap (λ k. put_at key value flags k (noted td path))
              (ap (λ k. k.head) f.path_eq ∙ ap (elt_of z.here) at_match)
            ∙ put_at-refuses (noted td path) key value flags z.here single keep),
    )
