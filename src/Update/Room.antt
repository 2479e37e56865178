-- ===== src/Update/Room.antt =====
-- A btree that holds a tree and a list of free chunks, apart from one another.
use sdbm_tree.Common.{
  ℕ, ◌+◌, ◌≤◌, ◌≡◌, sym, subst, ap, ◌∙◌, ◌⊎◌, inl, inr, List, [], ◌∷◌, ◌++◌, arith, length,
}
use sdbm_tree.Types.{Td, Memory}
use sdbm_tree.Memory.{slice}
use sdbm_tree.Io.{word_at}
use sdbm_tree.Space.Chain.{link_at}
use sdbm_tree.Space.Free.{
  Free, Linked, SameHeads, BesideAll, Disjoint, Disjoint-middle, Linked-same,
}
use sdbm_tree.Space.Relink.{AwayFree, AwayFree-append}
use sdbm_tree.Space.Hold.{FreeAt, Remains}
use sdbm_tree.Tree.{Node, Tree, leaf, node, inorder, TreeAt}
use sdbm_tree.Tree.Separate.{NodeAt-same}
use sdbm_tree.Tree.Spares.{AwayFrom}
use sdbm_tree.Tree.Whole.{HoldsAt}

-- No node overlaps a free chunk.
abbrev pub NodesAway : List Node → List Free → Type 0
NodesAway [] ps = Unit {0}
NodesAway (n ∷ ns) ps = AwayFree n.ptr (24 + length n.key) ps × NodesAway ns ps

-- The header points to the tree, whose nodes do not overlap, and the free chunks are linked and
-- counted; none overlaps another, or a node.
pub record Holds (td : Td) (t : Tree) (ps : List Free) : Type 0 where
  pub tree : HoldsAt td t
  pub free : FreeAt td ps
  pub beside : NodesAway (inorder t) ps

pub NodesAway-append :
    (xs ys : List Node) (ps : List Free)
    → NodesAway (xs ++ ys) ps
    → NodesAway xs ps × NodesAway ys ps
NodesAway-append [] ys ps h = (tt, h)
NodesAway-append (x ∷ xs) ys ps h = let r = NodesAway-append xs ys ps h.1 in ((h.0, r.0), r.1)

pub NodesAway-join :
    (xs ys : List Node) (ps : List Free)
    → NodesAway xs ps
    → NodesAway ys ps
    → NodesAway (xs ++ ys) ps
NodesAway-join [] ys ps h h' = h'
NodesAway-join (x ∷ xs) ys ps h h' = (h.0, NodesAway-join xs ys ps h.1 h')

-- A part of bytes that are away from the free chunks.
pub AwayFree-part :
    (a k b j : ℕ) (ps : List Free) → AwayFree a k ps → a ≤ b → b + j ≤ a + k → AwayFree b j ps
AwayFree-part a k b j [] h lo hi = tt
AwayFree-part a k b j (f ∷ ps) h lo hi =
    let here = h.0 in (ground (arith, here, lo, hi), AwayFree-part a k b j ps h.1 lo hi)

pub AwayFree-join :
    (a k : ℕ) (xs ys : List Free) → AwayFree a k xs → AwayFree a k ys → AwayFree a k (xs ++ ys)
AwayFree-join a k [] ys h h' = h'
AwayFree-join a k (x ∷ xs) ys h h' = (h.0, AwayFree-join a k xs ys h.1 h')

-- Bytes within a chunk are away from those beside it.
BesideAll-AwayFree :
    (c : Free) (k : ℕ) (ps : List Free) → k ≤ c.size → BesideAll c ps → AwayFree c.ptr k ps
BesideAll-AwayFree c k [] small h = tt
BesideAll-AwayFree c k (f ∷ ps) small h =
    let here = h.0 in (ground (arith, here, small), BesideAll-AwayFree c k ps small h.1)

-- What is granted of a chunk is away from all that remains free.
pub Remains-AwayFree :
    (pre : List Free) (c : Free) (post rest : List Free) (given : ℕ)
    → Disjoint (pre ++ (c ∷ post))
    → Remains c given rest
    → AwayFree c.ptr given (pre ++ (rest ++ post))
Remains-AwayFree pre c post rest given d h =
    let (before, behind, others) = Disjoint-middle pre c post d in
    elim h [
      | inl (none_left, all) ↦
          AwayFree-join c.ptr given pre (rest ++ post)
            (BesideAll-AwayFree c given pre (omega (arith, all)) before)
            (subst (λ k. AwayFree c.ptr given (k ++ post)) (sym none_left)
              (BesideAll-AwayFree c given post (omega (arith, all)) behind))
      | inr (some_left, part) ↦
          AwayFree-join c.ptr given pre (rest ++ post)
            (BesideAll-AwayFree c given pre (omega (arith, part)) before)
            (subst (λ k. AwayFree c.ptr given (k ++ post)) (sym some_left)
              (inl (omega arith), BesideAll-AwayFree c given post (omega (arith, part)) behind))
    ]

-- What is away from the free chunks is away from what remains of them.
pub AwayFree-kept :
    (a k : ℕ) (pre : List Free) (c : Free) (post rest : List Free) (given : ℕ)
    → Remains c given rest
    → AwayFree a k (pre ++ (c ∷ post))
    → AwayFree a k (pre ++ (rest ++ post))
AwayFree-kept a k pre c post rest given h away =
    let (before, behind) = AwayFree-append a k pre (c ∷ post) away in
    let here = behind.0 in
    elim h [
      | inl (none_left, all) ↦
          AwayFree-join a k pre (rest ++ post) before
            (subst (λ r. AwayFree a k (r ++ post)) (sym none_left) behind.1)
      | inr (some_left, part) ↦ AwayFree-join a k pre (rest ++ post) before (
          subst (λ r. AwayFree a k (r ++ post)) (sym some_left)
            (ground (arith, here, part), behind.1))
    ]

-- The heads of free chunks away from the `w` bytes at `q`, which alone may have changed.
pub SameHeads-away :
    (limit : ℕ) (m k : Memory) (q w p z : ℕ) (ps : List Free)
    → ((a n : ℕ) → 44 ≤ a → (a + n ≤ q) ⊎ (q + w ≤ a) → slice k a n ≡ slice m a n)
    → AwayFree q w ps
    → Linked limit m p ps z
    → SameHeads m k ps
SameHeads-away limit m k q w p z [] same away l = tt
SameHeads-away limit m k q w p z (f ∷ ps) same away (e, at, l) =
    let here = away.0 in
    (
      ap (λ b. word_at b 0) (same f.ptr 4 at.low (ground (arith, here, at.room))),
      ap (λ b. word_at b 0)
          (same (f.ptr + 4) 4 (omega (arith, at.low)) (ground (arith, here, at.room))),
      SameHeads-away limit m k q w (link_at m f.ptr) z ps same away.1 l,
    )

-- The bytes of a free chunk are away from the nodes.
pub AwayFrom-free :
    (f : Free) (ps : List Free) (ns : List Node) (b j : ℕ)
    → NodesAway ns (f ∷ ps)
    → f.ptr ≤ b
    → b + j ≤ f.ptr + f.size
    → AwayFrom b j ns
AwayFrom-free f ps [] b j h lo hi = tt
AwayFrom-free f ps (n ∷ ns) b j h lo hi =
    let here = h.0.0 in (ground (arith, here, lo, hi), AwayFrom-free f ps ns b j h.1 lo hi)

NodesAway-tail :
    (f : Free) (ps : List Free) (ns : List Node) → NodesAway ns (f ∷ ps) → NodesAway ns ps
NodesAway-tail f ps [] h = tt
NodesAway-tail f ps (n ∷ ns) h = (h.0.1, NodesAway-tail f ps ns h.1)

-- The heads of free chunks where only nodes were rewritten.
pub SameHeads-spared :
    (limit : ℕ) (m k : Memory) (ns : List Node) (p z : ℕ) (ps : List Free)
    → ((a n : ℕ) → 44 ≤ a → AwayFrom a n ns → slice k a n ≡ slice m a n)
    → NodesAway ns ps
    → Linked limit m p ps z
    → SameHeads m k ps
SameHeads-spared limit m k ns p z [] same away l = tt
SameHeads-spared limit m k ns p z (f ∷ ps) same away (e, at, l) = (
  ap (λ b. word_at b 0)
      (same f.ptr 4 at.low
        (AwayFrom-free f ps ns f.ptr 4 away (omega arith) (omega (arith, at.room)))),
  ap (λ b. word_at b 0)
      (same (f.ptr + 4) 4 (omega (arith, at.low))
        (AwayFrom-free f ps ns (f.ptr + 4) 4 away (omega arith) (omega (arith, at.room)))),
  SameHeads-spared limit m k ns (link_at m f.ptr) z ps same (NodesAway-tail f ps ns away) l,
)

-- A list of free chunks whose heads are as before.
pub FreeAt-same :
    (td td' : Td) (ps : List Free)
    → FreeAt td ps
    → td'.header.size ≡ td.header.size
    → td'.header.off_e ≡ td.header.off_e
    → td'.header.nempties ≡ td.header.nempties
    → SameHeads td.mem td'.mem ps
    → FreeAt td' ps
FreeAt-same td td' ps f size off count heads = record {
  word = omega (arith, f.word, size);
  linked =
      subst (λ s. Linked s td'.mem td'.header.off_e ps 0) (sym size)
        (subst (λ p. Linked td.header.size td'.mem p ps 0) (sym off)
          (Linked-same td.header.size td.mem td'.mem td.header.off_e 0 ps heads f.linked));
  disjoint = f.disjoint;
  count = count ∙ f.count;
}

-- A tree where only bytes of free chunks were written.
pub TreeAt-kept :
    (td td' : Td) (ps : List Free) (t : Tree)
    → td'.header.size ≡ td.header.size
    → td'.header.flags ≡ td.header.flags
    → ((a n : ℕ) → AwayFree a n ps → slice td'.mem a n ≡ slice td.mem a n)
    → NodesAway (inorder t) ps
    → TreeAt td t
    → TreeAt td' t
TreeAt-kept td td' ps leaf size flags same away at = tt
TreeAt-kept td td' ps (node l n r) size flags same away (at, e, e', at_l, at_r) =
    let (left, others) = NodesAway-append (inorder l) (n ∷ inorder r) ps away in
    (
      NodeAt-same td td' size flags n
          (same n.ptr 24 (
            AwayFree-part n.ptr (24 + length n.key) n.ptr 24 ps others.0 (omega arith)
              (omega arith)))
          (same (n.ptr + 24) (length n.key) (
            AwayFree-part n.ptr (24 + length n.key) (n.ptr + 24) (length n.key) ps others.0
              (omega arith) (omega arith)))
          at,
      e,
      e',
      TreeAt-kept td td' ps l size flags same left at_l,
      TreeAt-kept td td' ps r size flags same others.1 at_r,
    )
