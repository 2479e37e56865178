-- ===== src/Tree.antt =====
-- Search trees as the resource holds them. A tree of key nodes stands at an offset if the words and
-- the key bytes of each of its nodes do, and the `previous` and `next` words are the offsets of its
-- subtrees.
pub mod Nodes
pub mod Zip
pub mod Next
pub mod Previous
pub mod Order
pub mod Find
pub mod Search
pub mod Separate
pub mod Child
pub mod Keep
pub mod Spares
pub mod Turn
pub mod Plug
pub mod Rotate
pub mod Entries
pub mod Level
pub mod Rebalance
pub mod Whole
use sdbm_tree.Common.{
  ℕ, zero, suc, ◌+◌, ◌≤◌, ◌<◌, ◌≡◌, Bool, List, [], ◌∷◌, ◌++◌, length, word_mod, if◌then◌else◌,
  bit_or,
}
use Prim.Native.Nat.{max}
use sdbm_tree.Types.{Keyhead, StackElt, Cmp, Td, checksum_flag, has_flag}
use sdbm_tree.Types.Cmp.{less, equal, more}
use sdbm_tree.Memory.{slice}
use sdbm_tree.Checksum.{td_checksum_create}
use sdbm_tree.Io.Codec.{KeyheadWords}
use sdbm_tree.Io.Frame.{key_at}

-- A key node: its offset, its head and the bytes of its key.
pub record Node : Type 0 where
  pub ptr : ℕ
  pub head : Keyhead
  pub key : List ℕ

pub data Tree : Type 0 where
  leaf : Tree
  node : Tree → Node → Tree → Tree

-- The offset by which a tree is pointed to.
abbrev pub root : Tree → ℕ
root leaf = 0
root (node l n r) = n.ptr

abbrev pub inorder : Tree → List Node
inorder leaf = []
inorder (node l n r) = inorder l ++ (n ∷ inorder r)

abbrev pub height : Tree → ℕ
height leaf = 0
height (node l n r) = suc (max (height l) (height r))

-- Whether keys are read with their checksum verified.
abbrev pub verifying : Td → Bool
verifying td = has_flag (bit_or 0 td.header.flags) checksum_flag

-- The node lies behind the header and within the resource.
pub record NodeAt (td : Td) (n : Node) : Type 0 where
  pub low : 44 ≤ n.ptr
  pub high : n.ptr + (24 + length n.key) ≤ td.header.size
  pub word : td.header.size < word_mod
  pub head : key_at td.mem n.ptr ≡ n.head
  pub words : KeyheadWords n.head
  pub size : n.head.size ≡ 24 + length n.key
  pub key : slice td.mem (n.ptr + 24) (length n.key) ≡ n.key
  pub sum : (if verifying td then td_checksum_create n.key else n.head.checksum) ≡ n.head.checksum

abbrev pub TreeAt : Td → Tree → Type 0
TreeAt td leaf = Unit {0}
TreeAt td (node l n r) =
    NodeAt td n × (n.head.previous ≡ root l) × (n.head.next ≡ root r) × TreeAt td l × TreeAt td r

-- The tree around a subtree, from the inside out: the subtree is on the `previous` side of the
-- node (`less`, with the other subtree behind it) or on its `next` side.
pub data Frame : Type 0 where
  left_of : Node → Tree → Frame
  right_of : Tree → Node → Frame

abbrev pub Frames : Type 0
Frames = List Frame

abbrev pub plug : Frames → Tree → Tree
plug [] t = t
plug (left_of n r ∷ fs) t = plug fs (node t n r)
plug (right_of l n ∷ fs) t = plug fs (node l n t)

-- The stack elements of a path down to the hole.
abbrev pub elt_of : Node → Cmp → StackElt
elt_of n c = record { ptr = n.ptr; keyhead = n.head; cmp = c }

abbrev pub elts : Frames → List StackElt
elts [] = []
elts (left_of n r ∷ fs) = elt_of n less ∷ elts fs
elts (right_of l n ∷ fs) = elt_of n more ∷ elts fs

-- The nodes before and behind the hole, in order.
abbrev pub before : Frames → List Node
before [] = []
before (left_of n r ∷ fs) = before fs
before (right_of l n ∷ fs) = before fs ++ (inorder l ++ (n ∷ []))

abbrev pub behind : Frames → List Node
behind [] = []
behind (left_of n r ∷ fs) = n ∷ (inorder r ++ behind fs)
behind (right_of l n ∷ fs) = behind fs

abbrev pub FramesAt : Td → ℕ → Frames → Type 0
FramesAt td p [] = Unit {0}
FramesAt td p (left_of n r ∷ fs) =
    NodeAt td n
    × (n.head.previous ≡ p)
    × (n.head.next ≡ root r)
    × TreeAt td r
    × FramesAt td n.ptr fs
FramesAt td p (right_of l n ∷ fs) =
    NodeAt td n
    × (n.head.previous ≡ root l)
    × (n.head.next ≡ p)
    × TreeAt td l
    × FramesAt td n.ptr fs
