-- ===== src/Tree/Separate.antt =====
-- Nodes that do not overlap in the resource, and what a write to one leaves of the others.
use sdbm_tree.Common.{
  ℕ, ◌+◌, ◌≤◌, ◌≡◌, refl, sym, subst, ap, ◌∙◌, ◌⊎◌, inr, List, [], ◌∷◌, ◌++◌, arith, length, bit_or,
  if◌then◌else◌,
}
use sdbm_tree.Types.{Td, Keyhead, has_flag, checksum_flag}
use sdbm_tree.Memory.{slice}
use sdbm_tree.Io.{decode_keyhead}
use sdbm_tree.Io.Codec.{KeyheadWords}
use sdbm_tree.Io.Frame.{set_key, key_at-set_key_self, slice-set_key_outside}
use sdbm_tree.Checksum.{td_checksum_create}
use sdbm_tree.Tree.{
  Node, Tree, leaf, node, inorder, NodeAt, TreeAt, verifying, left_of, right_of, Frames, before,
  behind, FramesAt,
}

-- The bytes of the two nodes are apart.
abbrev pub Apart : Node → Node → Type 0
Apart n m = (n.ptr + (24 + length n.key) ≤ m.ptr) ⊎ (m.ptr + (24 + length m.key) ≤ n.ptr)

abbrev pub ApartFrom : Node → List Node → Type 0
ApartFrom n [] = Unit {0}
ApartFrom n (m ∷ ms) = Apart n m × ApartFrom n ms

abbrev pub Separated : List Node → Type 0
Separated [] = Unit {0}
Separated (n ∷ ns) = ApartFrom n ns × Separated ns

pub ApartFrom-append :
    (n : Node) (xs ys : List Node) → ApartFrom n (xs ++ ys) → ApartFrom n xs × ApartFrom n ys
ApartFrom-append n [] ys h = (tt, h)
ApartFrom-append n (x ∷ xs) ys h = let r = ApartFrom-append n xs ys h.1 in ((h.0, r.0), r.1)

-- A node in the middle is apart from the others.
pub Separated-middle :
    (xs : List Node) (n : Node) (ys : List Node)
    → Separated (xs ++ (n ∷ ys))
    → ApartFrom n xs × ApartFrom n ys
Separated-middle [] n ys s = (tt, s.0)
Separated-middle (x ∷ xs) n ys s =
    let r = Separated-middle xs n ys s.1 in
    let h = ApartFrom-append x xs (n ∷ ys) s.0 in ((ground arith, r.0), r.1)

-- Two states that give a node the same bytes, with the same limits.
module _ (td td' : Td) (size_eq : td'.header.size ≡ td.header.size)
    (flags_eq : td'.header.flags ≡ td.header.flags) where
  pub NodeAt-same :
      (n : Node)
      → slice td'.mem n.ptr 24 ≡ slice td.mem n.ptr 24
      → slice td'.mem (n.ptr + 24) (length n.key) ≡ slice td.mem (n.ptr + 24) (length n.key)
      → NodeAt td n
      → NodeAt td' n
  NodeAt-same n same_head same_key at = record {
    low = at.low;
    high = omega (arith, at.high);
    word = omega (arith, at.word);
    head = ap decode_keyhead same_head ∙ at.head;
    words = at.words;
    size = at.size;
    key = same_key ∙ at.key;
    sum =
        subst
          (λ f.
            (if has_flag (bit_or 0 f) checksum_flag
              then td_checksum_create n.key
              else n.head.checksum)
            ≡ n.head.checksum)
          (sym flags_eq) at.sum;
  }

-- From the first state to the second only the header and the 24 bytes at `q` may have changed.
pub record Touches (td td' : Td) (q : ℕ) : Type 0 where
  pub size_eq : td'.header.size ≡ td.header.size
  pub flags_eq : td'.header.flags ≡ td.header.flags
  pub outside :
      (p k : ℕ) → 44 ≤ p → (p + k ≤ q) ⊎ (q + 24 ≤ p) → slice td'.mem p k ≡ slice td.mem p k

module _ {td td' : Td} (q : Node) (t : Touches td td' q.ptr) where
  pub NodeAt-Touches : (n : Node) → Apart q n → NodeAt td n → NodeAt td' n
  NodeAt-Touches n apart at =
      NodeAt-same td td' t.size_eq t.flags_eq n (t.outside n.ptr 24 at.low (ground arith))
        (t.outside (n.ptr + 24) (length n.key) (omega (arith, at.low)) (ground arith)) at

  pub TreeAt-Touches : (x : Tree) → ApartFrom q (inorder x) → TreeAt td x → TreeAt td' x
  TreeAt-Touches leaf apart at = tt
  TreeAt-Touches (node l n r) apart (at, p, p', at_l, at_r) =
      let h = ApartFrom-append q (inorder l) (n ∷ inorder r) apart in
      (NodeAt-Touches n h.1.0 at, p, p', TreeAt-Touches l h.0 at_l, TreeAt-Touches r h.1.1 at_r)

  pub FramesAt-Touches :
      (fs : Frames) (p : ℕ)
      → ApartFrom q (before fs)
      → ApartFrom q (behind fs)
      → FramesAt td p fs
      → FramesAt td' p fs
  FramesAt-Touches [] p lo hi at = tt
  FramesAt-Touches (left_of n r ∷ fs) p lo hi (at, e, e', at_r, at_fs) =
      let h = ApartFrom-append q (inorder r) (behind fs) hi.1 in
      (
        NodeAt-Touches n hi.0 at,
        e,
        e',
        TreeAt-Touches r h.0 at_r,
        FramesAt-Touches fs n.ptr lo h.1 at_fs,
      )
  FramesAt-Touches (right_of l n ∷ fs) p lo hi (at, e, e', at_l, at_fs) =
      let h = ApartFrom-append q (before fs) (inorder l ++ (n ∷ [])) lo in
      let h' = ApartFrom-append q (inorder l) (n ∷ []) h.1 in
      (
        NodeAt-Touches n h'.1.0 at,
        e,
        e',
        TreeAt-Touches l h'.0 at_l,
        FramesAt-Touches fs n.ptr h.0 hi at_fs,
      )

-- A node with another head, as td_write_keyhead writes it.
abbrev pub with_head : Node → Keyhead → Node
with_head n k = record n { head = k }

abbrev pub wrote : Td → ℕ → Keyhead → Td
wrote td p k = record td { mem = set_key td.mem p k }

pub wrote-Touches : (td : Td) (p : ℕ) (k : Keyhead) → Touches td (wrote td p k) p
wrote-Touches td p k = record {
  size_eq = refl;
  flags_eq = refl;
  outside = λ q n low apart. slice-set_key_outside td.mem p k q n apart;
}

pub NodeAt-wrote :
    (td : Td) (n : Node) (k : Keyhead)
    → NodeAt td n
    → KeyheadWords k
    → k.size ≡ n.head.size
    → k.checksum ≡ n.head.checksum
    → NodeAt (wrote td n.ptr k) (with_head n k)
NodeAt-wrote td n k at w s c = record {
  low = at.low;
  high = at.high;
  word = at.word;
  head = key_at-set_key_self td.mem n.ptr k w;
  words = w;
  size = s ∙ at.size;
  key =
      slice-set_key_outside td.mem n.ptr k (n.ptr + 24) (length n.key) (inr (omega arith)) ∙ at.key;
  sum = subst (λ h. (if verifying td then td_checksum_create n.key else h) ≡ h) (sym c) at.sum;
}
