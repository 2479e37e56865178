-- ===== src/Update/Give.antt =====
-- The chunks that td_del_pathhead.c gives back: those of the value, and the node.
use sdbm_tree.Common.{
  ℕ, ◌+◌, ◌≤◌, ◌<◌, ◌≡◌, inl, refl, ap, ◌∙◌, List, [], ◌∷◌, ◌++◌, arith, length, word_mod, true,
  false, leb,
}
use sdbm_tree.Types.{Td, Memory, wipedeleted, has_flag}
use sdbm_tree.Machine.{ok}
use sdbm_tree.Memory.{slice}
use sdbm_tree.Io.{word_at, decode_keyhead}
use sdbm_tree.Io.Frame.{key_at, chunk_at, td_read_chunkhead-ok}
use sdbm_tree.Space.Chain.{link_at}
use sdbm_tree.Space.Free.{Free, FreeIn, Linked, BesideAll, Disjoint}
use sdbm_tree.Space.Relink.{AwayFree}
use sdbm_tree.Space.Hold.{FreeAt}
use sdbm_tree.Space.Release.{released, Released, td_yield_all-Released}
use sdbm_tree.Tree.{Node, Tree, inorder, NodeAt}
use sdbm_tree.Tree.Separate.{ApartFrom, NodeAt-same}
use sdbm_tree.Tree.Child.{with_top, with_top-Touches}
use sdbm_tree.Tree.Keep.{TreeAt-with_top}
use sdbm_tree.Tree.Whole.{HoldsAt, TreeAt-same}
use sdbm_tree.Value.{td_unlink_value}
use sdbm_tree.Update.Room.{
  NodesAway, Holds, AwayFree-part, SameHeads-spared, FreeAt-same, TreeAt-kept,
}

-- The bytes of a node.
abbrev pub chunk_of : Node → Free
chunk_of n = record { ptr = n.ptr; size = 24 + length n.key }

-- The second word of a node's head is its size.
link_at-key_at : (m : Memory) (p : ℕ) → link_at m (p + 4) ≡ (key_at m p).size
unfolding slice decode_keyhead
link_at-key_at m p = ap (λ q. word_at (slice m q 4) 0) (omega arith)

pub chunk_of-FreeIn : (td : Td) (n : Node) → NodeAt td n → FreeIn td.header.size td.mem (chunk_of n)
chunk_of-FreeIn td n at = record {
  low = at.low;
  room = omega arith;
  high = at.high;
  size_eq = link_at-key_at td.mem n.ptr ∙ ap (λ k. k.size) at.head ∙ at.size;
}

pub AwayFree-BesideAll : (c : Free) (ps : List Free) → AwayFree c.ptr c.size ps → BesideAll c ps
AwayFree-BesideAll c [] h = tt
AwayFree-BesideAll c (p ∷ ps) h = (h.0, AwayFree-BesideAll c ps h.1)

pub ApartFrom-NodesAway :
    (n : Node) (ns : List Node) → ApartFrom n ns → NodesAway ns (chunk_of n ∷ [])
ApartFrom-NodesAway n [] h = tt
ApartFrom-NodesAway n (m ∷ ns) h =
    let here = h.0 in ((ground (arith, here), tt), ApartFrom-NodesAway n ns h.1)

NodesAway-swap :
    (ns : List Node) (v : Free) (vs ps : List Free)
    → NodesAway ns (v ∷ vs)
    → NodesAway ns ps
    → NodesAway ns vs × NodesAway ns (v ∷ ps)
NodesAway-swap [] v vs ps h k = (tt, tt)
NodesAway-swap (n ∷ ns) v vs ps h k =
    let r = NodesAway-swap ns v vs ps h.1 k.1 in ((h.0.1, r.0), ((h.0.0, k.0), r.1))

pub NodesAway-released :
    (ns : List Node) (vs ps : List Free)
    → NodesAway ns vs
    → NodesAway ns ps
    → NodesAway ns (released vs ps)
NodesAway-released ns [] ps h k = k
NodesAway-released ns (v ∷ vs) ps h k =
    let r = NodesAway-swap ns v vs ps h k in NodesAway-released ns vs (v ∷ ps) r.0 r.1

pub NodesAway-cons :
    (ns : List Node) (v : Free) (ps : List Free)
    → NodesAway ns (v ∷ [])
    → NodesAway ns ps
    → NodesAway ns (v ∷ ps)
NodesAway-cons ns v ps h k = (NodesAway-swap ns v [] ps h k).1

pub length-released : (vs ps : List Free) → length (released vs ps) ≡ length ps + length vs
length-released [] ps = omega arith
length-released (v ∷ vs) ps = omega (arith, length-released vs (v ∷ ps))

-- A node away from the chunks that were given back is as it was.
pub Released-NodeAt :
    (td td' : Td) (n : Node) (vs free_after : List Free)
    → Released td td' vs free_after
    → AwayFree n.ptr (24 + length n.key) vs
    → NodeAt td n
    → NodeAt td' n
Released-NodeAt td td' n vs free_after r away at =
    NodeAt-same td td' (ap (λ k. k.header.size) r.state) (ap (λ k. k.header.flags) r.state) n
      (r.outside n.ptr 24
        (AwayFree-part n.ptr (24 + length n.key) n.ptr 24 vs away (omega arith) (omega arith)))
      (r.outside (n.ptr + 24) (length n.key) (
        AwayFree-part n.ptr (24 + length n.key) (n.ptr + 24) (length n.key) vs away (omega arith)
          (omega arith)))
      at

-- So is a tree.
pub Released-Holds :
    (td td' : Td) (t : Tree) (vs free_after : List Free)
    → HoldsAt td t
    → NodesAway (inorder t) vs
    → NodesAway (inorder t) free_after
    → Released td td' vs free_after
    → Holds td' t free_after
Released-Holds td td' t vs free_after h away beside r = record {
  tree = (
    TreeAt-kept td td' vs t (ap (λ k. k.header.size) r.state) (ap (λ k. k.header.flags) r.state)
        r.outside away h.0,
    ap (λ k. k.header.top) r.state ∙ h.1,
    h.2,
  );
  free = r.free;
  beside = beside;
}

-- The value of one key is given back.
pub td_unlink_value-Released :
    (td : Td) (ptr : ℕ) (v : Free) (vs ps : List Free)
    → length (v ∷ vs) ≤ td.header.size
    → FreeAt td ps
    → has_flag td.header.flags wipedeleted ≡ false
    → Linked td.header.size td.mem ptr (v ∷ vs) 0
    → Disjoint ((v ∷ vs) ++ ps)
    → length ps + length (v ∷ vs) < word_mod
    → leb (chunk_at td.mem ptr).refcount 1 ≡ true
    → (td' : Td) × (td_unlink_value ptr td ≡ ok tt td')
      × Released td td' (v ∷ vs) (released (v ∷ vs) ps)
unfolding td_unlink_value
td_unlink_value-Released td ptr v vs ps few f keep l d short single =
    let (td', run, r) = td_yield_all-Released td ptr (v ∷ vs) ps few f keep l d short in
    let (e, at, others) = l in
    (
      td',
      rw
          (
            td_read_chunkhead-ok td ptr (record {
              low = omega (arith, e, at.low);
              high = omega (arith, e, at.room, at.high);
              word = f.word;
            }),
            single,
          )
          run,
      r,
    )

-- What the btree holds does not depend on the counters.
pub Holds-same :
    (td td' : Td) (t : Tree) (ps : List Free)
    → td'.mem ≡ td.mem
    → td'.header.size ≡ td.header.size
    → td'.header.flags ≡ td.header.flags
    → td'.header.top ≡ td.header.top
    → td'.header.off_e ≡ td.header.off_e
    → td'.header.nempties ≡ td.header.nempties
    → Holds td t ps
    → Holds td' t ps
Holds-same td td' t ps mem size flags top off count h = record {
  tree = (TreeAt-same td td' mem size flags t h.tree.0, top ∙ h.tree.1, h.tree.2);
  free = FreeAt-same td td' ps h.free size off count (
      SameHeads-spared td.header.size td.mem td'.mem (inorder t) td.header.off_e 0 ps
        (λ a k low away. ap (λ m. slice m a k) mem) h.beside h.free.linked);
  beside = h.beside;
}

-- Nor on the bytes of the header.
pub Holds-with_top :
    (td : Td) (t : Tree) (ps : List Free) → Holds td t ps → Holds (with_top td td.header.top) t ps
Holds-with_top td t ps h =
    let p = td.header.top in
    record {
      tree = (TreeAt-with_top td p t h.tree.0, h.tree.1, h.tree.2);
      free = FreeAt-same td (with_top td p) ps h.free refl refl refl (
          SameHeads-spared td.header.size td.mem (with_top td p).mem (inorder t) td.header.off_e 0
            ps
            (λ a k low away.
              (with_top-Touches td p (a + k) (omega (arith, low))).outside a k low
                (inl (omega arith)))
            h.beside h.free.linked);
      beside = h.beside;
    }
