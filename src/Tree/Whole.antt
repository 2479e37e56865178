-- ===== src/Tree/Whole.antt =====
-- td_rebalance.c on a whole tree.
use sdbm_tree.Search.{null_keyhead}
use sdbm_tree.Common.{
  ℕ, ◌+◌, ◌*◌, ◌≤◌, ◌<◌, ◌≡◌, refl, ap, ◌∙◌, false, ◌||◌, inl, inr, Bool-cases, ltb, ◌==◌, word_mod,
  [], length,
}
use sdbm_tree.Types.{Td}
use sdbm_tree.Machine.{ok}
use sdbm_tree.Balance.{td_log2, td_rebalance, Balanced, td_rebalance_node}
use sdbm_tree.Tree.{Tree, leaf, node, root, inorder, height, TreeAt, slice}
use sdbm_tree.Tree.Nodes.{points, is_zero}
use sdbm_tree.Tree.Separate.{Separated, NodeAt-same}
use sdbm_tree.Tree.Keep.{entries}
use sdbm_tree.Tree.Spares.{Spares, Spares-refl}
use sdbm_tree.Tree.Entries.{nodes, Separated-entries}
use sdbm_tree.Tree.Level.{weighed}
use sdbm_tree.Tree.Rebalance.{td_rebalance_node-Leaves}

-- The whole tree that the header points to.
abbrev pub HoldsAt : Td → Tree → Type 0
HoldsAt td t = TreeAt td t × (td.header.top ≡ root t) × Separated (inorder t)

pub TreeAt-same :
    (td td' : Td)
    → td'.mem ≡ td.mem
    → td'.header.size ≡ td.header.size
    → td'.header.flags ≡ td.header.flags
    → (t : Tree) → TreeAt td t
    → TreeAt td' t
TreeAt-same td td' m s f leaf at = tt
TreeAt-same td td' m s f (node l n r) (at, e, e', at_l, at_r) = (
  NodeAt-same td td' s f n (ap (λ k. slice k n.ptr 24) m)
      (ap (λ k. slice k (n.ptr + 24) (length n.key)) m) at,
  e,
  e',
  TreeAt-same td td' m s f l at_l,
  TreeAt-same td td' m s f r at_r,
)

-- What td_rebalance leaves of a tree: the same entries in the same order, in a tree that the header
-- points to, and all bytes behind the header but those of the nodes.
pub record Rebalanced (td td' : Td) (t : Tree) : Type 0 where
  pub tree : Tree
  pub holds : HoldsAt td' tree
  pub same : entries tree ≡ entries t
  pub spared : Spares td (record td' { maxdepth = td.maxdepth }) t

with_maxdepth : (td : Td) (d : ℕ) (t : Tree) → TreeAt td t → TreeAt (record td { maxdepth = d }) t
with_maxdepth td d t at = TreeAt-same td (record td { maxdepth = d }) refl refl refl t at

abbrev with_depth : ℕ → Td → Td
with_depth d td = record td { maxdepth = d }

Spares-depth :
    (td td' : Td) (t : Tree) → Spares td td' t → Spares td (record td' { maxdepth = td.maxdepth }) t
Spares-depth td td' t s = record {
  state = ap (with_depth td.maxdepth) s.state;
  outside = s.outside;
}

td_rebalance-run :
    (td td' : Td) (b : Balanced)
    → (td.header.top == 0) ≡ false
    → (ltb td.header.nentries 2 || ltb td.maxdepth (td_log2 td.header.nentries * 2)) ≡ false
    → td_rebalance_node 0 null_keyhead td.header.top td ≡ ok b td'
    → td_rebalance td ≡ ok tt (record td' { maxdepth = td_log2 td.header.nentries })
unfolding td_rebalance
td_rebalance-run td td' b top deep run = rw (top, deep, run) refl

module _ (td : Td) where
  -- Where there is nothing to do.
  unchanged : (t : Tree) → HoldsAt td t → Rebalanced td td t
  unchanged t h = record { tree = t; holds = h; same = refl; spared = Spares-refl td t }

  -- td_rebalance on a tree whose nodes do not overlap, are less than 2 ^ 32 in number and make a tree
  -- not higher than the resource has bytes: it returns with no error, and the header points to a tree
  -- with the same offsets, keys and values in the same order. Of the state only `top`, the depth noted
  -- and the bytes of nodes and header may have changed.
  pub td_rebalance-Rebalanced :
      (t : Tree)
      → HoldsAt td t
      → nodes t < word_mod
      → height t ≤ td.header.size
      → (td' : Td) × (td_rebalance td ≡ ok tt td') × Rebalanced td td' t
  unfolding td_rebalance
  td_rebalance-Rebalanced leaf h few low = (td, rw (is_zero h.1) refl, unchanged leaf h)
  td_rebalance-Rebalanced (node l n r) h few low =
      elim (Bool-cases
        (ltb td.header.nentries 2 || ltb td.maxdepth (td_log2 td.header.nentries * 2))) [
          | inl enough ↦ (td, rw (points h.0.0 h.1, enough) refl, unchanged (node l n r) h)
          | inr deep ↦
              let (t', td', run, placed, same, spared) =
                td_rebalance_node-Leaves td l n r [] (h.0, tt, h.1) h.2 few low in
              let d = td_log2 td.header.nentries in
              (
                record td' { maxdepth = d },
                td_rebalance-run td td' (weighed (nodes (node l n r)) null_keyhead)
                    (points h.0.0 h.1) deep
                    (ap (λ k. td_rebalance_node 0 null_keyhead k td) h.1 ∙ run),
                record {
                  tree = t';
                  holds = (
                    with_maxdepth td' d t' placed.0,
                    placed.2,
                    Separated-entries (node l n r) t' same h.2,
                  );
                  same = same;
                  spared = Spares-depth td td' (node l n r) spared;
                },
              )
        ]
