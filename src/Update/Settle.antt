-- ===== src/Update/Settle.antt =====
-- td_rebalance on a btree that holds a tree and a list of free chunks.
use sdbm_tree.Common.{◌≤◌, ◌≡◌, ap, List, arith}
use sdbm_tree.Types.{Td}
use sdbm_tree.Machine.{ok}
use sdbm_tree.Balance.{td_rebalance}
use sdbm_tree.Space.Free.{Free}
use sdbm_tree.Tree.{Tree, leaf, node, inorder, height}
use sdbm_tree.Tree.Keep.{entries}
use sdbm_tree.Tree.Entries.{nodes, nodes-node}
use sdbm_tree.Tree.Whole.{td_rebalance-Rebalanced}
use sdbm_tree.Update.Room.{Holds, SameHeads-spared, FreeAt-same}
use sdbm_tree.Update.Link.{NodesAway-entries}

pub height-le-nodes : (t : Tree) → height t ≤ nodes t
height-le-nodes leaf = omega arith
height-le-nodes (node l n r) = omega (arith, nodes-node l n r, height-le-nodes l, height-le-nodes r)

-- The btree after td_rebalance: a tree with the same entries, and the same free chunks.
pub record Settled (td : Td) (t : Tree) (ps : List Free) : Type 0 where
  pub final : Td
  pub run : td_rebalance td ≡ ok tt final
  pub tree : Tree
  pub same : entries tree ≡ entries t
  pub holds : Holds final tree ps
  pub scn_eq : final.header.scn ≡ td.header.scn
  pub size_eq : final.header.size ≡ td.header.size
  pub compare_eq : final.compare ≡ td.compare

pub settled :
    (td : Td) (t : Tree) (ps : List Free)
    → Holds td t ps
    → nodes t ≤ td.header.size
    → Settled td t ps
settled td t ps h few =
    let (final, run, r) =
      td_rebalance-Rebalanced td t h.tree (omega (arith, few, h.free.word))
        (omega (arith, height-le-nodes t, few)) in
    record {
      final = final;
      run = run;
      tree = r.tree;
      same = r.same;
      holds = record {
        tree = r.holds;
        free =
            FreeAt-same td final ps h.free (ap (λ k. k.header.size) r.spared.state)
              (ap (λ k. k.header.off_e) r.spared.state) (ap (λ k. k.header.nempties) r.spared.state)
              (SameHeads-spared td.header.size td.mem final.mem (inorder t) td.header.off_e 0 ps
                (λ a k low away. r.spared.outside a k low away) h.beside h.free.linked);
        beside = NodesAway-entries t r.tree ps r.same h.beside;
      };
      scn_eq = ap (λ k. k.header.scn) r.spared.state;
      size_eq = ap (λ k. k.header.size) r.spared.state;
      compare_eq = ap (λ k. k.compare) r.spared.state;
    }
