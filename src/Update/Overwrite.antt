-- ===== src/Update/Overwrite.antt =====
-- td_put_key.c with a key that a node has, where neither TDFLG_DUPLKEYS nor TDFLG_NOOVERWRITE is set.
use mathlib.Core.List.{map-append}
use sdbm_tree.Common.{
  ℕ, ◌+◌, ◌≤◌, ◌<◌, ◌≡◌, refl, sym, subst, ap, ap₂, ◌∙◌, List, ◌∷◌, ◌++◌, map, arith, length,
  length-append, word_mod, false,
}
use sdbm_tree.Types.{Td, duplkeys, nooverwrite, wipedeleted, has_flag}
use sdbm_tree.Types.Cmp.{equal}
use sdbm_tree.Machine.{ok}
use sdbm_tree.Io.Codec.{IsWord}
use sdbm_tree.Space.{td_yield_all}
use sdbm_tree.Space.Free.{Free, Linked, Disjoint}
use sdbm_tree.Space.Release.{released, td_yield_all-Released}
use sdbm_tree.Tree.{Node, Tree, inorder, height, NodeAt, elt_of}
use sdbm_tree.Tree.Zip.{Zip, whole, pre, post}
use sdbm_tree.Tree.Order.{inorder-whole, NoneIs, Ordered}
use sdbm_tree.Tree.Search.{compares, noted}
use sdbm_tree.Tree.Separate.{wrote}
use sdbm_tree.Tree.Child.{writes, with_top, td_write_header-top}
use sdbm_tree.Tree.Keep.{entry, entries}
use sdbm_tree.Tree.Entries.{nodes}
use sdbm_tree.Update.{put_at, put_at_match, td_put_replace, td_put_key}
use sdbm_tree.Update.Room.{NodesAway, Holds}
use sdbm_tree.Update.Insert.{put_key-run}
use sdbm_tree.Update.Settle.{settled}
use sdbm_tree.Update.Give.{NodesAway-released, Released-Holds, Holds-same, Holds-with_top}
use sdbm_tree.Update.Seek.{Ends, finds}
use sdbm_tree.Update.Revalue.{valued, revalued, rewrote, zip_at, revalued-Holds}

-- What the replacement of the value of `n` finds: the chunks of the old value, in the value of no other
-- key, and the free chunks, none of which overlaps another or a node.
pub record Overwrites (td : Td) (t : Tree) (n : Node) (vs ps : List Free) : Type 0 where
  pub holds : Holds td t ps
  pub keep : has_flag td.header.flags wipedeleted ≡ false
  pub old : Linked td.header.size td.mem n.head.value vs 0
  pub disjoint : Disjoint (vs ++ ps)
  pub beside : NodesAway (inorder t) vs
  pub few : length vs ≤ td.header.size
  pub short : length ps + length vs < word_mod
  pub nodes : nodes t ≤ td.header.size
  pub low : height t < 128

-- The btree holds a tree with the value of `n` replaced, and the chunks of the old value are free.
pub record Overwritten (td' : Td) (xs : List Node) (n : Node) (value : ℕ) (ys : List Node)
    (vs ps : List Free) : Type 0 where
  pub tree : Tree
  pub same :
      entries tree
      ≡ map entry xs ++ (record { ptr = n.ptr; key = n.key; value = value } ∷ map entry ys)
  pub holds : Holds td' tree (released vs ps)

put_at-replaces :
    (td td1 : Td) (key : List ℕ) (value flags : ℕ) (n : Node)
    → has_flag flags duplkeys ≡ false
    → has_flag flags nooverwrite ≡ false
    → td_yield_all n.head.value td ≡ ok tt td1
    → NodeAt td1 n
    → put_at key value flags (elt_of n equal) td
      ≡ ok tt (wrote td1 n.ptr (record (n.head) { value = value }))
unfolding put_at put_at_match td_put_replace
put_at-replaces td td1 key value flags n single over yield at =
    rw (single, over, yield, writes at (record (n.head) { value = value })) refl

module _ (td : Td) (key : List ℕ) (value flags : ℕ) (w : IsWord value)
    (single : has_flag flags duplkeys ≡ false) (over : has_flag flags nooverwrite ≡ false) where
  run_at :
      (t : Tree) (z : Zip) (vs ps : List Free)
      → Ends td key 0 t z
      → compares td key 0 z.here ≡ equal
      → Overwrites td t z.here vs ps
      → (td' : Td) × (td_put_key key value flags td ≡ ok tt td')
        × Overwritten td' (pre z) z.here value (post z) vs ps
  run_at t z vs ps e hit k =
      let td0 = noted td e.path in
      let held =
        subst (λ x. Holds td0 x ps) (sym e.inside)
          (Holds-same td td0 t ps refl refl refl refl refl refl k.holds) in
      let beside = subst (λ x. NodesAway (inorder x) vs) (sym e.inside) k.beside in
      let (td1, yield, r) =
        td_yield_all-Released td0 z.here.head.value vs ps k.few held.free k.keep k.old k.disjoint
          k.short in
      let freed =
        Released-Holds td0 td1 (whole z) vs (released vs ps) held.tree beside
          (NodesAway-released (inorder (whole z)) vs ps beside held.beside) r in
      let at = (zip_at td1 z (released vs ps) value w freed).0 in
      let td2 = rewrote td1 z (released vs ps) value w freed in
      let td3 = with_top td2 td2.header.top in
      let after =
        Holds-with_top td2 (whole (revalued z value)) (released vs ps)
          (revalued-Holds td1 z (released vs ps) value w freed) in
      let s = settled td3 (whole (revalued z value)) (released vs ps) after (
        omega (
          arith,
          k.nodes,
          ap nodes e.inside,
          ap length (inorder-whole z),
          ap length (inorder-whole (revalued z value)),
          length-append (pre z) (z.here ∷ post z),
          length-append (pre z) (valued z.here value ∷ post z),
          ap (λ x. x.header.size) r.state,
        )) in
      let head_is : e.path.head ≡ elt_of z.here equal =
        ap (λ x. x.head) e.path_eq ∙ ap (elt_of z.here) hit in
      (
        s.final,
        put_key-run td td0 td2 td3 s.final key value flags e.path e.some e.run
            (ap (λ x. put_at key value flags x td0) head_is
              ∙ put_at-replaces td0 td1 key value flags z.here single over yield at)
            (td_write_header-top td2 td2.header.top (omega (arith, at.low, at.high)) at.word) s.run,
        record {
          tree = s.tree;
          same =
              s.same
              ∙ ap (map entry) (inorder-whole (revalued z value))
              ∙ map-append entry (pre z) (valued z.here value ∷ post z);
          holds = s.holds;
        },
      )

  -- td_put_key with a key that the tree has, without TDFLG_DUPLKEYS and TDFLG_NOOVERWRITE, on a tree of
  -- height below 128 whose nodes come in the order of the key, whose first node that the key matches is
  -- `n`, where TDFLG_WIPEDELETED is off: it returns with no error, and then the btree holds a tree with
  -- the same entries in their order, but for the value of `n`, which is the new one, and the chunks of
  -- the old value, which no other key has, are in front of the free chunks, which are well-formed and
  -- apart from the tree. The new value is a word, the nodes and the chunks of the old value are not
  -- more than the resource has bytes, and all chunks are fewer than 2 ^ 32.
  pub td_put_key-Overwritten :
      (t : Tree) (xs : List Node) (n : Node) (ys : List Node) (vs ps : List Free)
      → Overwrites td t n vs ps
      → Ordered (compares td key 0) (inorder t)
      → inorder t ≡ xs ++ (n ∷ ys)
      → NoneIs (compares td key 0) equal xs
      → compares td key 0 n ≡ equal
      → (td' : Td) × (td_put_key key value flags td ≡ ok tt td')
        × Overwritten td' xs n value ys vs ps
  td_put_key-Overwritten t xs n ys vs ps k ordered split first hit =
      let (z, e, found, same) =
        finds td key 0 t xs n ys k.holds.tree k.low k.nodes ordered split first hit in
      let (td', run, r) =
        run_at t z vs ps e found (subst (λ m. Overwrites td t m vs ps) same.here k) in
      (
        td',
        run,
        record {
          tree = r.tree;
          same =
              r.same
              ∙ ap₂ ◌++◌ (ap (map entry) (sym same.front)) (
                  ap₂ ◌∷◌
                    (ap (λ m. record { ptr = m.ptr; key = m.key; value = value }) (sym same.here))
                    (ap (map entry) (sym same.back)));
          holds = r.holds;
        },
      )
