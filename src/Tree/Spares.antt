-- ===== src/Tree/Spares.antt =====
-- What the rewriting of nodes leaves alone: all bytes behind the header that are apart from the nodes
-- of the tree, and all of the btree's state but `top` and the resource.
use sdbm_tree.Common.{
  ℕ, ◌+◌, ◌≤◌, ◌≡◌, refl, sym, subst, ap, ◌∙◌, ◌⊎◌, inl, List, [], ◌∷◌, ◌++◌, map, arith, length,
}
use sdbm_tree.Types.{Td, Keyhead}
use sdbm_tree.Memory.{slice}
use sdbm_tree.Tree.{Node, Tree, node, inorder, left_of, right_of, Frames, plug, before, behind}
use sdbm_tree.Tree.Order.{inorder-plug}
use sdbm_tree.Tree.Separate.{wrote, wrote-Touches}
use sdbm_tree.Tree.Child.{redirected, with_top-Touches}
use sdbm_tree.Tree.Keep.{Entry, entry, entries}

-- The `k` bytes at `p` are apart from the nodes.
abbrev pub AwayFrom : ℕ → ℕ → List Node → Type 0
AwayFrom p k [] = Unit {0}
AwayFrom p k (n ∷ ns) = ((p + k ≤ n.ptr) ⊎ (n.ptr + (24 + length n.key) ≤ p)) × AwayFrom p k ns

pub AwayFrom-append :
    (p k : ℕ) (xs ys : List Node) → AwayFrom p k (xs ++ ys) → AwayFrom p k xs × AwayFrom p k ys
AwayFrom-append p k [] ys h = (tt, h)
AwayFrom-append p k (x ∷ xs) ys h = let r = AwayFrom-append p k xs ys h.1 in ((h.0, r.0), r.1)

AwayFrom-plug :
    (p k : ℕ) (fs : Frames) (t : Tree)
    → AwayFrom p k (inorder (plug fs t))
    → AwayFrom p k (before fs) × AwayFrom p k (inorder t) × AwayFrom p k (behind fs)
AwayFrom-plug p k fs t h =
    let x =
      AwayFrom-append p k (before fs) (inorder t ++ behind fs)
        (subst (AwayFrom p k) (inorder-plug fs t) h) in
    let y = AwayFrom-append p k (inorder t) (behind fs) x.1 in (x.0, y.0, y.1)

abbrev EntryAway : ℕ → ℕ → List Entry → Type 0
EntryAway p k [] = Unit {0}
EntryAway p k (e ∷ es) = ((p + k ≤ e.ptr) ⊎ (e.ptr + (24 + length e.key) ≤ p)) × EntryAway p k es

AwayFrom-to : (p k : ℕ) (ns : List Node) → AwayFrom p k ns → EntryAway p k (map entry ns)
AwayFrom-to p k [] h = tt
AwayFrom-to p k (n ∷ ns) h = (h.0, AwayFrom-to p k ns h.1)

AwayFrom-from : (p k : ℕ) (ns : List Node) → EntryAway p k (map entry ns) → AwayFrom p k ns
AwayFrom-from p k [] h = tt
AwayFrom-from p k (n ∷ ns) h = (h.0, AwayFrom-from p k ns h.1)

pub AwayFrom-entries :
    (p k : ℕ) (s t : Tree)
    → entries t ≡ entries s
    → AwayFrom p k (inorder s)
    → AwayFrom p k (inorder t)
AwayFrom-entries p k s t e h =
    AwayFrom-from p k (inorder t) (subst (EntryAway p k) (sym e) (AwayFrom-to p k (inorder s) h))

-- The state with another `top` and other bytes.
abbrev pub rewritten : Td → Td → Td
rewritten td td' = record td { header = record (td.header) { top = td'.header.top }; mem = td'.mem }

pub record Spares (td td' : Td) (t : Tree) : Type 0 where
  pub state : td' ≡ rewritten td td'
  pub outside : (p k : ℕ) → 44 ≤ p → AwayFrom p k (inorder t) → slice td'.mem p k ≡ slice td.mem p k

pub Spares-refl : (td : Td) (t : Tree) → Spares td td t
Spares-refl td t = record { state = refl; outside = λ p k low away. refl }

pub Spares-trans :
    (td td1 td2 : Td) (t t1 : Tree)
    → entries t1 ≡ entries t
    → Spares td td1 t
    → Spares td1 td2 t1
    → Spares td td2 t
Spares-trans td td1 td2 t t1 e a b = record {
  state = b.state ∙ ap (λ k. rewritten k td2) a.state;
  outside =
      λ p k low away. b.outside p k low (AwayFrom-entries p k t t1 e away) ∙ a.outside p k low away;
}

pub Spares-wrote :
    (td : Td) (l : Tree) (n : Node) (r : Tree) (fs : Frames) (h : Keyhead)
    → Spares td (wrote td n.ptr h) (plug fs (node l n r))
Spares-wrote td l n r fs h = record {
  state = refl;
  outside = λ p k low away.
      let x = AwayFrom-plug p k fs (node l n r) away in
      let y = AwayFrom-append p k (inorder l) (n ∷ inorder r) x.1 in
      (wrote-Touches td n.ptr h).outside p k low (ground (arith, y.1.0));
}

pub Spares-redirected :
    (td : Td) (fs : Frames) (t : Tree) (q : ℕ) → Spares td (redirected td fs q) (plug fs t)
Spares-redirected td [] t q = record {
  state = refl;
  outside = λ p k low away.
      (with_top-Touches td q (p + k) (omega arith)).outside p k low (inl (omega arith));
}
Spares-redirected td (left_of n r ∷ fs) t q =
    Spares-wrote td t n r fs (record (n.head) { previous = q })
Spares-redirected td (right_of l n ∷ fs) t q =
    Spares-wrote td l n t fs (record (n.head) { next = q })
