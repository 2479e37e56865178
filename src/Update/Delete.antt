-- ===== src/Update/Delete.antt =====
-- td_del_pathhead.c as a whole: a node, its value and its space.
use sdbm_tree.Tree.Whole.{TreeAt-same}
use sdbm_tree.Common.{
  ℕ, ◌+◌, ◌%◌, ◌≤◌, ◌<◌, ◌≡◌, refl, sym, subst, ap, ◌∙◌, List, [], ◌∷◌, ◌++◌, map, none, arith,
  length, length-append, word_mod, true, false, leb, ◌==◌, add32, sub32,
}
use sdbm_tree.Types.{Td, wipedeleted, has_flag}
use sdbm_tree.Machine.{ok}
use sdbm_tree.Io.{td_write_header, decode_chunkhead}
use sdbm_tree.Io.Frame.{chunk_at}
use sdbm_tree.Space.{td_yield}
use sdbm_tree.Space.Chain.{yielded, td_yield-ok}
use sdbm_tree.Space.Free.{Free, Linked, Disjoint, Linked-same}
use sdbm_tree.Space.Hold.{FreeAt}
use sdbm_tree.Space.Release.{released, Released, yield-Released}
use sdbm_tree.Balance.{td_rebalance}
use sdbm_tree.Value.{td_unlink_value}
use sdbm_tree.Tree.{Tree, inorder, height, NodeAt, elts}
use sdbm_tree.Tree.Zip.{Zip, whole, pre, post, ZipAt, path_of}
use sdbm_tree.Tree.Order.{inorder-whole}
use sdbm_tree.Tree.Separate.{Separated, Separated-middle, NodeAt-same}
use sdbm_tree.Tree.Child.{with_top, td_write_header-top}
use sdbm_tree.Tree.Keep.{entry, entries}
use sdbm_tree.Tree.Entries.{nodes, length-map}
use sdbm_tree.Update.{replacement, relink_parent, read_into, td_del_pathhead}
use sdbm_tree.Update.Room.{
  NodesAway, NodesAway-append, NodesAway-join, Holds, AwayFrom-free, SameHeads-spared, FreeAt-same,
}
use sdbm_tree.Update.Link.{NodesAway-map}
use sdbm_tree.Update.Unlink.{Unlinked, cut_out, replacement-Replaces, replaced-Unlinked}
use sdbm_tree.Update.Settle.{Settled, settled}
use sdbm_tree.Update.Give.{
  chunk_of, chunk_of-FreeIn, AwayFree-BesideAll, ApartFrom-NodesAway, NodesAway-released,
  NodesAway-cons, length-released, Released-NodeAt, Released-Holds, td_unlink_value-Released,
  Holds-same, Holds-with_top,
}

-- The counters of td_del_pathhead.
abbrev fewer : Td → Td
fewer td = record td { header = record (td.header) { nentries = sub32 td.header.nentries 1 } }

abbrev changed : Td → Td
changed td = record td { header = record (td.header) { scn = add32 td.header.scn 1 } }

-- td_del_pathhead from the parts that it is made of.
del_pathhead-run :
    (td td1 td2 td3 td4 td5 td' : Td) (z : Zip) (p flags : ℕ)
    → replacement z.here.head td ≡ ok p td1
    → relink_parent (elts z.frames) p td1 ≡ ok tt td2
    → td_unlink_value z.here.head.value (fewer td2) ≡ ok tt td3
    → td_yield z.here.ptr td3 ≡ ok tt td4
    → td_rebalance td4 ≡ ok tt td5
    → (add32 td5.header.scn 1 % 8 == 0) ≡ false
    → td_write_header (changed td5) ≡ ok tt td'
    → td_del_pathhead (path_of z) none flags td ≡ ok none td'
unfolding td_del_pathhead read_into
del_pathhead-run td td1 td2 td3 td4 td5 td' z p flags child parent unlink yield balance no_defrag
      header =
    rw (child, parent, unlink, yield, balance, no_defrag, header) refl

-- What a deletion finds: the node `z.here` in the tree that the btree holds, the chunks of its value,
-- in the value of no other key, and the free chunks, none of which overlaps another or a node.
pub record Deletes (td : Td) (z : Zip) (vs ps : List Free) : Type 0 where
  pub at : ZipAt td z
  pub holds : Holds td (whole z) ps
  pub keep : has_flag td.header.flags wipedeleted ≡ false
  pub value : Linked td.header.size td.mem z.here.head.value vs 0
  pub disjoint : Disjoint (vs ++ ps)
  pub beside : NodesAway (inorder (whole z)) vs
  pub single : leb (chunk_at td.mem z.here.head.value).refcount 1 ≡ true
  pub few : length vs ≤ td.header.size
  pub short : length ps + (length vs + 1) < word_mod
  pub nodes : nodes (whole z) ≤ td.header.size
  pub low : height z.right < 128

-- The btree holds a tree without the node, and what the node and its value took is free.
pub record Deleted (td' : Td) (z : Zip) (vs ps : List Free) : Type 0 where
  pub tree : Tree
  pub same : entries tree ≡ map entry (pre z ++ post z)
  pub holds : Holds td' tree (chunk_of z.here ∷ released vs ps)

-- What is away from all nodes is away from the node and from the others.
NodesAway-parts :
    (z : Zip) (cs : List Free)
    → NodesAway (inorder (whole z)) cs
    → NodesAway (z.here ∷ []) cs × NodesAway (pre z ++ post z) cs
NodesAway-parts z cs h =
    let (front, others) =
      NodesAway-append (pre z) (z.here ∷ post z) cs
        (subst (λ k. NodesAway k cs) (inorder-whole z) h) in
    ((others.0, tt), NodesAway-join (pre z) (post z) cs front others.1)

ApartFrom-others :
    (z : Zip) → Separated (inorder (whole z)) → NodesAway (pre z ++ post z) (chunk_of z.here ∷ [])
ApartFrom-others z s =
    let (front, back) =
      Separated-middle (pre z) z.here (post z) (subst Separated (inorder-whole z) s) in
    NodesAway-join (pre z) (post z) (chunk_of z.here ∷ [])
      (ApartFrom-NodesAway z.here (pre z) front) (ApartFrom-NodesAway z.here (post z) back)

nodes-others :
    (z : Zip) (t : Tree) → entries t ≡ map entry (pre z ++ post z) → nodes t + 1 ≡ nodes (whole z)
nodes-others z t e = omega (
  arith,
  length-map (inorder t),
  ap length e,
  length-map (pre z ++ post z),
  length-append (pre z) (post z),
  length-append (pre z) (z.here ∷ post z),
  ap length (inorder-whole z),
)

-- After the node is unlinked: its chunks, and those of the value, are given back.
module _ (td td2 : Td) (z : Zip) (v : Free) (vs ps : List Free) (h : Deletes td z (v ∷ vs) ps)
    (u : Unlinked td td2 z) where
  abbrev freed : List Free
  freed = released (v ∷ vs) ps

  abbrev size_eq : td2.header.size ≡ td.header.size
  size_eq = ap (λ k. k.header.size) u.spared.state

  abbrev flags_eq : td2.header.flags ≡ td.header.flags
  flags_eq = ap (λ k. k.header.flags) u.spared.state

  unlinked-FreeAt : FreeAt (fewer td2) ps
  unlinked-FreeAt =
      FreeAt-same td (fewer td2) ps h.holds.free size_eq (ap (λ k. k.header.off_e) u.spared.state)
        (ap (λ k. k.header.nempties) u.spared.state)
        (SameHeads-spared td.header.size td.mem td2.mem (inorder (whole z)) td.header.off_e 0 ps
          u.spared.outside h.holds.beside h.holds.free.linked)

  unlinked-value : Linked td2.header.size td2.mem z.here.head.value (v ∷ vs) 0
  unlinked-value =
      subst (λ s. Linked s td2.mem z.here.head.value (v ∷ vs) 0) (sym size_eq)
        (Linked-same td.header.size td.mem td2.mem z.here.head.value 0 (v ∷ vs)
          (SameHeads-spared td.header.size td.mem td2.mem (inorder (whole z)) z.here.head.value 0
            (v ∷ vs) u.spared.outside h.beside h.value)
          h.value)

  unlinked-single : leb (chunk_at td2.mem z.here.head.value).refcount 1 ≡ true
  unlinked-single =
      let (e, at, others) = h.value in
      ap (λ k. leb (decode_chunkhead k).refcount 1)
        (u.spared.outside z.here.head.value 16 (omega (arith, e, at.low)) (
          AwayFrom-free v vs (inorder (whole z)) z.here.head.value 16 h.beside (omega (arith, e))
            (omega (arith, e, at.room))))
      ∙ h.single

  gives_value :
      (td3 : Td) × (td_unlink_value z.here.head.value (fewer td2) ≡ ok tt td3)
      × Released (fewer td2) td3 (v ∷ vs) freed
  gives_value =
      td_unlink_value-Released (fewer td2) z.here.head.value v vs ps (omega (arith, h.few, size_eq))
        unlinked-FreeAt (ap (λ k. has_flag k wipedeleted) flags_eq ∙ h.keep) unlinked-value
        h.disjoint (omega (arith, h.short)) unlinked-single

  others-freed : NodesAway (inorder u.tree) freed
  others-freed = NodesAway-map (pre z ++ post z) (inorder u.tree) freed u.same (
      NodesAway-released (pre z ++ post z) (v ∷ vs) ps (NodesAway-parts z (v ∷ vs) h.beside).1
        (NodesAway-parts z ps h.holds.beside).1)

  after_value : (td3 : Td) → Released (fewer td2) td3 (v ∷ vs) freed → Holds td3 u.tree freed
  after_value td3 r =
      Released-Holds (fewer td2) td3 u.tree (v ∷ vs) freed
        (TreeAt-same td2 (fewer td2) refl refl refl u.tree u.holds.0, u.holds.1, u.holds.2)
        (NodesAway-map (pre z ++ post z) (inorder u.tree) (v ∷ vs) u.same
          (NodesAway-parts z (v ∷ vs) h.beside).1)
        others-freed r

  -- The node itself.
  module _ (td3 : Td) (r : Released (fewer td2) td3 (v ∷ vs) freed) where
    abbrev td4 : Td
    td4 = yielded td3 z.here.ptr

    node_at : NodeAt td3 z.here
    node_at =
        Released-NodeAt (fewer td2) td3 z.here (v ∷ vs) freed r
          (NodesAway-parts z (v ∷ vs) h.beside).0.0
          (NodeAt-same td2 (fewer td2) refl refl z.here refl refl u.gone)

    keeps : has_flag td3.header.flags wipedeleted ≡ false
    keeps = ap (λ k. has_flag k wipedeleted) (ap (λ k. k.header.flags) r.state ∙ flags_eq) ∙ h.keep

    node-Released : Released td3 td4 (chunk_of z.here ∷ []) (chunk_of z.here ∷ freed)
    node-Released =
        let away =
          NodesAway-released (z.here ∷ []) (v ∷ vs) ps (NodesAway-parts z (v ∷ vs) h.beside).0
            (NodesAway-parts z ps h.holds.beside).0 in
        yield-Released td3 (chunk_of z.here) freed r.free keeps (chunk_of-FreeIn td3 z.here node_at)
          (AwayFree-BesideAll (chunk_of z.here) freed away.0, r.free.disjoint)
          (omega (arith, length-released (v ∷ vs) ps, h.short))

    after_node : Holds td4 u.tree (chunk_of z.here ∷ freed)
    after_node =
        let apart =
          NodesAway-map (pre z ++ post z) (inorder u.tree) (chunk_of z.here ∷ []) u.same
            (ApartFrom-others z h.holds.tree.2) in
        Released-Holds td3 td4 u.tree (chunk_of z.here ∷ []) (chunk_of z.here ∷ freed)
          (after_value td3 r).tree apart
          (NodesAway-cons (inorder u.tree) (chunk_of z.here) freed apart others-freed) node-Released

    yields : td_yield z.here.ptr td3 ≡ ok tt td4
    yields = td_yield-ok td3 z.here.ptr r.free.word node_at.low (omega (arith, node_at.high)) keeps

    balances : Settled td4 u.tree (chunk_of z.here ∷ freed)
    balances = settled td4 u.tree (chunk_of z.here ∷ freed) after_node (
        omega
          (arith, nodes-others z u.tree u.same, h.nodes, ap (λ k. k.header.size) r.state, size_eq))

    scn_kept : balances.final.header.scn ≡ td.header.scn
    scn_kept =
        balances.scn_eq ∙ ap (λ k. k.header.scn) r.state ∙ ap (λ k. k.header.scn) u.spared.state

    final : Td
    final = with_top (changed balances.final) balances.final.header.top

    final-Holds : Holds final balances.tree (chunk_of z.here ∷ freed)
    unfolding final
    final-Holds = Holds-with_top (changed balances.final) balances.tree (chunk_of z.here ∷ freed) (
        Holds-same balances.final (changed balances.final) balances.tree (chunk_of z.here ∷ freed)
          refl refl refl refl refl refl balances.holds)

    writes_header : td_write_header (changed balances.final) ≡ ok tt final
    unfolding final
    writes_header =
        td_write_header-top (changed balances.final) balances.final.header.top
          (omega (
            arith, balances.holds.free.linked.1.low, balances.holds.free.linked.1.room,
            balances.holds.free.linked.1.high,
          ))
          balances.holds.free.word

-- td_del_pathhead without a container for the value, at a node of the tree that the btree holds, whose
-- value has one reference, where TDFLG_WIPEDELETED is off and td_defrag is not due: it returns with no
-- error, and then the btree holds a tree with all other entries in their order, and the node's space
-- and the chunks of its value are in front of the free chunks, which are well-formed and apart from
-- the tree. The nodes and the chunks of the value are not more than the resource has bytes, all chunks
-- are fewer than 2 ^ 32, and the right subtree of the node is lower than 128.
pub td_del_pathhead-Deleted :
    (td : Td) (z : Zip) (v : Free) (vs ps : List Free) (flags : ℕ)
    → Deletes td z (v ∷ vs) ps
    → (add32 td.header.scn 1 % 8 == 0) ≡ false
    → (td' : Td) × (td_del_pathhead (path_of z) none flags td ≡ ok none td')
      × Deleted td' z (v ∷ vs) ps
td_del_pathhead-Deleted td z v vs ps flags h no_defrag =
    let (p, td1, child, rep) =
      replacement-Replaces td z.frames z.left z.here z.right h.at h.holds.tree.2 h.low in
    let (parent, u) = replaced-Unlinked td td1 z p h.holds.tree rep in
    let td2 = cut_out td1 z.frames p in
    let (td3, unlink, r) = gives_value td td2 z v vs ps h u in
    let b = balances td td2 z v vs ps h u td3 r in
    (
      final td td2 z v vs ps h u td3 r,
      del_pathhead-run td td1 td2 td3 (yielded td3 z.here.ptr) b.final
          (final td td2 z v vs ps h u td3 r) z p flags child parent unlink
          (yields td td2 z v vs ps h u td3 r) b.run
          (ap (λ k. add32 k 1 % 8 == 0) (scn_kept td td2 z v vs ps h u td3 r) ∙ no_defrag)
          (writes_header td td2 z v vs ps h u td3 r),
      record {
        tree = b.tree;
        same = b.same ∙ u.same;
        holds = final-Holds td td2 z v vs ps h u td3 r;
      },
    )
