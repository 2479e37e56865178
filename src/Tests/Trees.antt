-- ===== src/Tests/Trees.antt =====
-- The theorems on trees, on the btree of Samples.
use sdbm_tree.Tree.Whole.{Rebalanced, td_rebalance-Rebalanced}
use sdbm_tree.Types.{Td}
use sdbm_tree.Common.{◌≤◌, ◌≡◌, refl, inl, [], ◌∷◌, ◌++◌, Option, arith}
use sdbm_tree.Machine.{ok}
use sdbm_tree.Search.{KeyPath, path_init, td_path_next, td_path_previous, td_iterate}
use sdbm_tree.Balance.{td_rotate_left, td_rebalance}
use sdbm_tree.Tree.{leaf, node, inorder}
use sdbm_tree.Tree.Zip.{Zip, zip, path_of, moved_of, pre, post, Onward, Backward}
use sdbm_tree.Tree.Next.{td_path_next-Onward}
use sdbm_tree.Tree.Previous.{td_path_previous-Backward}
use sdbm_tree.Tree.Order.{Found}
use sdbm_tree.Tree.Search.{compares, noted, td_iterate-Found}
use sdbm_tree.Tree.Separate.{Separated}
use sdbm_tree.Tree.Child.{parent_head}
use sdbm_tree.Tree.Keep.{entries}
use sdbm_tree.Tree.Turn.{with_next, with_previous, left_low, right_low, PlacedAt}
use sdbm_tree.Tree.Rotate.{left_rotated, td_rotate_left-turns}
use sdbm_tree.Tests.{machine}
use sdbm_tree.Balance.{td_rebalance_node}
use sdbm_tree.Tree.Level.{Leaves}
use sdbm_tree.Tree.Level.{weighed}
use sdbm_tree.Tree.Rebalance.{td_rebalance_node-Leaves}
use sdbm_tree.Tests.Samples.{
  chain_a, chain_bc, chain, chain-TreeAt, node_b, node_c, tree_a, tree_c, tree_abc, btree,
  node_b-NodeAt, tree_a-TreeAt, tree_c-TreeAt, tree_abc-TreeAt, Separated-abc,
}

abbrev at_b : Zip
at_b = zip tree_a node_b tree_c []

td_path_next-Onward_example :
    (o : Option Zip) × (td_path_next (path_of at_b) btree ≡ ok (moved_of o) btree)
    × Onward btree tree_abc (pre at_b ++ (node_b ∷ [])) (post at_b) o
td_path_next-Onward_example =
    td_path_next-Onward btree tree_abc at_b
      (node_b-NodeAt, refl, refl, tree_a-TreeAt, tree_c-TreeAt, tt) refl (omega arith)

td_path_previous-Backward_example :
    (o : Option Zip) × (td_path_previous (path_of at_b) btree ≡ ok (moved_of o) btree)
    × Backward btree tree_abc (pre at_b) (node_b ∷ post at_b) o
td_path_previous-Backward_example =
    td_path_previous-Backward btree tree_abc at_b
      (node_b-NodeAt, refl, refl, tree_a-TreeAt, tree_c-TreeAt, tt) refl (omega arith)

-- A search for "c".
td_iterate-Found_example :
    (path : KeyPath) × (td_iterate (path_init 100) (99 ∷ []) 0 btree ≡ ok path (noted btree path))
    × Found (compares btree (99 ∷ []) 0) btree tree_abc path
unfolding machine
td_iterate-Found_example =
    let any : 0 ≤ 0 = omega arith in
    let some : 0 ≤ 1 = omega arith in
    td_iterate-Found btree tree_a node_b tree_c (99 ∷ []) 0 tree_abc-TreeAt (omega arith)
      (omega arith) ((any, (some, tt)), ((some, tt), (tt, tt)))

td_rotate_left-turns_example :
    (td_rotate_left 0 (parent_head []) 100 node_b.head btree
      ≡ ok (parent_head []) (left_rotated btree tree_a node_b leaf node_c leaf []))
    × PlacedAt
        (left_rotated btree tree_a node_b leaf node_c leaf [])
        (left_low tree_a (with_next node_b 0) leaf (with_previous node_c 100) leaf)
        []
    × (entries (left_low tree_a (with_next node_b 0) leaf (with_previous node_c 100) leaf)
        ≡ entries (right_low tree_a node_b leaf node_c leaf))
td_rotate_left-turns_example =
    td_rotate_left-turns btree tree_a node_b leaf node_c leaf [] Separated-abc
      (tree_abc-TreeAt, tt, refl)

Separated-chain : Separated (inorder (node leaf chain_a chain_bc))
Separated-chain =
    ((inl (omega arith), (inl (omega arith), tt)), ((inl (omega arith), tt), (tt, tt)))

td_rebalance_node-Leaves_example :
    Leaves
      (weighed 3)
      chain
      (node leaf chain_a chain_bc)
      []
      (td_rebalance_node 0 (parent_head []) 44)
td_rebalance_node-Leaves_example =
    td_rebalance_node-Leaves chain leaf chain_a chain_bc [] (chain-TreeAt, tt, refl) Separated-chain
      (omega arith) (omega arith)

td_rebalance-Rebalanced_example :
    (td' : Td) × (td_rebalance chain ≡ ok tt td')
    × Rebalanced chain td' (node leaf chain_a chain_bc)
td_rebalance-Rebalanced_example =
    td_rebalance-Rebalanced chain (node leaf chain_a chain_bc) (chain-TreeAt, refl, Separated-chain)
      (omega arith) (omega arith)
