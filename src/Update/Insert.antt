-- ===== src/Update/Insert.antt =====
-- td_put_key.c with a key that no node has.
use sdbm_tree.Update.Settle.{settled}
use sdbm_tree.Common.{
  ℕ, ◌+◌, ◌≤◌, ◌<◌, ◌≡◌, refl, ap, ◌∙◌, ◌⊎◌, inl, inr, true, false, List, [], ◌∷◌, ◌++◌, map, none,
  arith, length, length-append, word_mod, ◌==◌,
}
use sdbm_tree.Types.{Td, Cmp, Error}
use sdbm_tree.Types.Cmp.{less, equal, more}
use sdbm_tree.Types.Error.{space}
use sdbm_tree.Machine.{ok, err}
use sdbm_tree.Search.{KeyPath, path_init, td_iterate}
use sdbm_tree.Io.{td_write_header}
use sdbm_tree.Balance.{td_rebalance}
use sdbm_tree.Space.Free.{Free}
use sdbm_tree.Space.Fit.{AllUnfit}
use sdbm_tree.Space.Hold.{FreeAt}
use sdbm_tree.Tree.{
  Node, Tree, leaf, node, inorder, NodeAt, left_of, right_of, Frames, plug, before, behind, elt_of,
  FramesAt,
}
use sdbm_tree.Tree.Order.{inorder-plug}
use sdbm_tree.Tree.Child.{redirected, writes}
use sdbm_tree.Tree.Keep.{entry, entries, entries-set_child}
use sdbm_tree.Tree.Entries.{nodes, nodes-entries}
use sdbm_tree.Tree.Whole.{HoldsAt}
use sdbm_tree.Update.{put_at, td_put_new, td_put_key}
use sdbm_tree.Update.Room.{NodesAway, Holds}
use sdbm_tree.Update.New.{Suits, td_put_new-Added, new_head}
use sdbm_tree.Update.Link.{linked, grown, entries-grown, linked-Holds, kept-FramesAt, linked-Kept}

nodes-grown : (fs : Frames) (n : Node) → nodes (grown fs n) ≡ nodes (plug fs leaf) + 1
nodes-grown fs n = omega (
  arith,
  nodes-entries (plug fs (node leaf n leaf)) (grown fs n)
      (entries-set_child fs n.ptr (node leaf n leaf) (node leaf n leaf) refl),
  ap length (inorder-plug fs (node leaf n leaf)),
  ap length (inorder-plug fs leaf),
  length-append (before fs) (n ∷ behind fs),
  length-append (before fs) (behind fs),
)

-- td_put_key from the parts that it is made of.
pub put_key-run :
    (td td0 td1 td2 td' : Td) (key : List ℕ) (value flags : ℕ) (path : KeyPath)
    → (td.header.top == 0) ≡ false
    → td_iterate (path_init td.header.top) key 0 td ≡ ok path td0
    → put_at key value flags path.head td0 ≡ ok tt td1
    → td_write_header td1 ≡ ok tt td2
    → td_rebalance td2 ≡ ok tt td'
    → td_put_key key value flags td ≡ ok tt td'
unfolding td_put_key
put_key-run td td0 td1 td2 td' key value flags path some found put header balance =
    rw (some, found, put, header, balance) refl

pub put_key-fails :
    (td td0 : Td) (key : List ℕ) (value flags : ℕ) (path : KeyPath) (e : Error)
    → (td.header.top == 0) ≡ false
    → td_iterate (path_init td.header.top) key 0 td ≡ ok path td0
    → put_at key value flags path.head td0 ≡ err e td0
    → td_put_key key value flags td ≡ err e td0
unfolding td_put_key
put_key-fails td td0 key value flags path e some found put = rw (some, found, put) refl

pub put_key-first :
    (td td1 td2 td' : Td) (key : List ℕ) (value flags p : ℕ)
    → (td.header.top == 0) ≡ true
    → td_put_new key value 0 0 flags td ≡ ok p td1
    → td_write_header (record td1 { header = record (td1.header) { top = p } }) ≡ ok tt td2
    → td_rebalance td2 ≡ ok tt td'
    → td_put_key key value flags td ≡ ok tt td'
unfolding td_put_key
put_key-first td td1 td2 td' key value flags p empty put header balance =
    rw (empty, put, header, balance) refl

-- The tree after the insertion, and the free chunks.
pub record Balances (td' : Td) (fs : Frames) (ps' : List Free) (n : Node) : Type 0 where
  pub final : Td
  pub run : td_rebalance td' ≡ ok tt final
  pub tree : Tree
  pub same : entries tree ≡ map entry (before fs) ++ (entry n ∷ map entry (behind fs))
  pub holds : Holds final tree ps'
  pub size_eq : final.header.size ≡ td'.header.size
  pub compare_eq : final.compare ≡ td'.compare

balanced :
    (td' : Td) (fs : Frames) (ps' : List Free) (n : Node)
    → Holds td' (grown fs n) ps'
    → nodes (plug fs leaf) < td'.header.size
    → Balances td' fs ps' n
balanced td' fs ps' n h few =
    let count = nodes-grown fs n in
    let r = settled td' (grown fs n) ps' h (omega (arith, count, few)) in
    record {
      final = r.final;
      run = r.run;
      tree = r.tree;
      same = r.same ∙ entries-grown fs n;
      holds = r.holds;
      size_eq = r.size_eq;
      compare_eq = r.compare_eq;
    }

pub put_at-less :
    (td td' : Td) (key : List ℕ) (value flags p : ℕ) (n : Node) (r : Tree) (fs : Frames)
    → td_put_new key value 0 0 flags td ≡ ok p td'
    → NodeAt td' n
    → put_at key value flags (elt_of n less) td ≡ ok tt (redirected td' (left_of n r ∷ fs) p)
unfolding put_at
put_at-less td td' key value flags p n r fs put at =
    rw (put, writes at (record (n.head) { previous = p })) refl

pub put_at-more :
    (td td' : Td) (key : List ℕ) (value flags p : ℕ) (l : Tree) (n : Node) (fs : Frames)
    → td_put_new key value 0 0 flags td ≡ ok p td'
    → NodeAt td' n
    → put_at key value flags (elt_of n more) td ≡ ok tt (redirected td' (right_of l n ∷ fs) p)
unfolding put_at
put_at-more td td' key value flags p l n fs put at =
    rw (put, writes at (record (n.head) { next = p })) refl

pub put_at-fails :
    (td : Td) (key : List ℕ) (value flags : ℕ) (n : Node) (c : Cmp) (e : Error)
    → (c ≡ equal → ⊥)
    → td_put_new key value 0 0 flags td ≡ err e td
    → put_at key value flags (elt_of n c) td ≡ err e td
unfolding put_at
put_at-fails td key value flags n less e differs put = rw put refl
put_at-fails td key value flags n equal e differs put = absurd (differs refl)
put_at-fails td key value flags n more e differs put = rw put refl

redirected-size :
    (td : Td) (fs : Frames) (p : ℕ) → (redirected td fs p).header.size ≡ td.header.size
redirected-size td [] p = refl
redirected-size td (left_of n r ∷ fs) p = refl
redirected-size td (right_of l n ∷ fs) p = refl

-- The key's node was put in the hole of `fs`, or there was no room for it.
module _ (td : Td) (fs : Frames) (ps : List Free) (key : List ℕ) (value flags : ℕ) where
  pub record Filled (p : ℕ) (td1 : Td) : Type 0 where
    pub left : List Free
    pub put : td_put_new key value 0 0 flags td ≡ ok p td1
    pub frames : FramesAt td1 0 fs
    pub low : 44 ≤ (redirected td1 fs p).header.size
    pub word : (redirected td1 fs p).header.size < word_mod
    pub size_eq : (linked td1 fs p).header.size ≡ td.header.size
    pub compare_eq : (linked td1 fs p).compare ≡ td.compare
    pub rest :
        Balances
          (linked td1 fs p)
          fs
          left
          (record { ptr = p; head = new_head td key value 0 0 flags; key = key })

  pub fills :
      HoldsAt td (plug fs leaf)
      → NodesAway (inorder (plug fs leaf)) ps
      → FreeAt td ps
      → Suits td key value 0 0 flags
      → td.extend ≡ none
      → length ps ≤ td.header.size
      → nodes (plug fs leaf) < td.header.size
      → ((p : ℕ) × (td1 : Td) × Filled p td1)
        ⊎ ((td_put_new key value 0 0 flags td ≡ err space td) × AllUnfit true (24 + length key) ps)
  fills h away f w fixed short few =
      elim (td_put_new-Added td ps key value 0 0 flags f short fixed w) [
        | inl (p, td1, ps', run, add) ↦
            let n : Node = record { ptr = p; head = new_head td key value 0 0 flags; key = key } in
            let frames = kept-FramesAt td td1 fs ps ps' n h away add refl refl in
            let size = (linked-Kept td1 fs p).size in
            let again = redirected-size td1 fs p in
            inl (
              p,
              td1,
              record {
                left = ps';
                put = run;
                frames = frames;
                low = omega (arith, again, add.node_at.low, add.node_at.high);
                word = omega (arith, again, add.node_at.word);
                size_eq = size ∙ add.size;
                compare_eq = (linked-Kept td1 fs p).compare ∙ add.compare;
                rest =
                    balanced (linked td1 fs p) fs ps' n
                      (linked-Holds td td1 fs ps ps' n h away add refl refl)
                      (omega (arith, size, add.size, few));
              },
            )
        | inr failed ↦ inr failed
      ]
