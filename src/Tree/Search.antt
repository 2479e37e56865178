-- ===== src/Tree/Search.antt =====
-- td_iterate from the root of a tree, as td_get, td_put and td_del call it.
use sdbm_tree.Common.{ℕ, ◌≤◌, ◌<◌, ◌≡◌, refl, List, [], arith, length, ltb, if◌then◌else◌}
use sdbm_tree.Types.{Td, Cmp, partial, has_flag}
use sdbm_tree.Machine.{ok}
use sdbm_tree.Search.{KeyPath, path_init, size_of, td_iterate, td_iterate_to_key}
use sdbm_tree.Tree.{Node, Tree, node, inorder, height, TreeAt}
use sdbm_tree.Tree.Order.{Ordered, Found}
use sdbm_tree.Tree.Find.{to_key-Ends}

-- How a key compares to that of a node, for a call with these flags.
abbrev pub compares : Td → List ℕ → ℕ → Node → Cmp
compares td key flags n = td.compare key n.key (has_flag flags partial)

-- The btree after a search that ended with this path: only the depth seen is noted.
abbrev pub noted : Td → KeyPath → Td
noted td path = record td {
  maxdepth = if ltb td.maxdepth (size_of path) then size_of path else td.maxdepth;
}

-- On a tree of height below 128, whose nodes come in the order of the key, td_iterate returns with
-- no error. It ends at the first node in order that the key matches; or, if the key matches none,
-- at the node under which it would stand, which has no child on that side. The resource is
-- unchanged.
pub td_iterate-Found :
    (td : Td) (l : Tree) (n : Node) (r : Tree) (key : List ℕ) (flags : ℕ)
    → TreeAt td (node l n r)
    → height (node l n r) < 128
    → length (inorder (node l n r)) ≤ td.header.size
    → Ordered (compares td key flags) (inorder (node l n r))
    → (path : KeyPath) × (td_iterate (path_init n.ptr) key flags td ≡ ok path (noted td path))
      × Found (compares td key flags) td (node l n r) path
unfolding td_iterate td_iterate_to_key
td_iterate-Found td l n r key flags at short few ordered = (ends.0, rw ends.1 refl, ends.2)
  where
    ends :
        sdbm_tree.Tree.Find.Ends td
          (node l n r)
          key
          (has_flag flags partial)
          (td_iterate_to_key (path_init n.ptr) key flags td)
    ends =
        to_key-Ends td (node l n r) key (has_flag flags partial) short ordered few 128 l n r []
          (record {
            at = (at.0, at.1, at.2, at.3, at.4, tt);
            inside = refl;
            lower = tt;
            upper = tt;
          })
          (omega arith)
