-- ===== src/Tests/Samples.antt =====
-- A btree with the keys "a", "b" and "c": the nodes lie at 44, 100 and 160, "b" is the top, its value is
-- in a chunk of 20 bytes at 270, and 60 bytes at 200 are free.
use sdbm_tree.Tree.Separate.{Separated}
use sdbm_tree.Common.{◌+◌, ℕ, ◌<◌, refl, List, [], ◌∷◌, ◌++◌, arith, length, word_mod, inl}
use sdbm_tree.Types.{Td, Header, Memory}
use sdbm_tree.Memory.{blit}
use sdbm_tree.Io.{encode_keyhead, encode_header}
use sdbm_tree.Io.Codec.{KeyheadWords}
use sdbm_tree.Compare.{td_compare}
use sdbm_tree.Init.{td_init}
use sdbm_tree.Tree.{Node, Tree, leaf, node, NodeAt, TreeAt, inorder}
use sdbm_tree.Tests.{machine}

abbrev pub key_node : (value ptr previous next : ℕ) (key : List ℕ) → Node
key_node value ptr previous next key = record {
  ptr = ptr;
  head = record {
    value = value;
    size = 24 + length key;
    scn = 1;
    checksum = 0;
    next = next;
    previous = previous;
  };
  key = key;
}

abbrev pub node_a : Node
node_a = key_node 0 44 0 0 (97 ∷ [])

abbrev pub node_b : Node
node_b = key_node 270 100 44 160 (98 ∷ [])

abbrev pub node_c : Node
node_c = key_node 0 160 0 0 (99 ∷ [])

abbrev pub tree_a : Tree
tree_a = node leaf node_a leaf

abbrev pub tree_c : Tree
tree_c = node leaf node_c leaf

abbrev pub tree_abc : Tree
tree_abc = node tree_a node_b tree_c

abbrev pub bytes_of_node : Node → List ℕ
bytes_of_node n = encode_keyhead n.head ++ n.key

abbrev sample_header : Header
sample_header = record (td_init (λ a. 0)).header {
  size = 300;
  align = 1;
  top = 100;
  off_e = 200;
  nentries = 3;
  nempties = 1;
  nchunks = 1;
}

abbrev with_nodes : Memory → Memory
with_nodes m =
    blit
      (blit
        (blit (blit (blit m 44 (bytes_of_node node_a)) 100 (bytes_of_node node_b)) 160
          (bytes_of_node node_c))
        204 (60 ∷ []))
      274 (20 ∷ 0 ∷ 0 ∷ 0 ∷ 0 ∷ 0 ∷ 0 ∷ 0 ∷ 1 ∷ [])

abbrev pub btree : Td
btree = record (td_init (λ a. 0)) {
  header = sample_header;
  compare = td_compare;
  mem = blit (with_nodes (λ a. 0)) 0 (encode_header sample_header);
}

pub words_of_node :
    (v p q : ℕ)
    → v < word_mod
    → p < word_mod
    → q < word_mod
    → KeyheadWords (key_node v 0 p q (0 ∷ [])).head
words_of_node v p q k h h' = record {
  value = k;
  size = omega arith;
  scn = omega arith;
  checksum = omega arith;
  next = h';
  previous = h;
}

pub node_a-NodeAt : NodeAt btree node_a
unfolding machine
node_a-NodeAt = record {
  low = omega arith;
  high = omega arith;
  word = omega arith;
  head = refl;
  words = words_of_node 0 0 0 (omega arith) (omega arith) (omega arith);
  size = refl;
  key = refl;
  sum = refl;
}

pub node_b-NodeAt : NodeAt btree node_b
unfolding machine
node_b-NodeAt = record {
  low = omega arith;
  high = omega arith;
  word = omega arith;
  head = refl;
  words = words_of_node 270 44 160 (omega arith) (omega arith) (omega arith);
  size = refl;
  key = refl;
  sum = refl;
}

pub node_c-NodeAt : NodeAt btree node_c
unfolding machine
node_c-NodeAt = record {
  low = omega arith;
  high = omega arith;
  word = omega arith;
  head = refl;
  words = words_of_node 0 0 0 (omega arith) (omega arith) (omega arith);
  size = refl;
  key = refl;
  sum = refl;
}

pub tree_a-TreeAt : TreeAt btree tree_a
tree_a-TreeAt = (node_a-NodeAt, refl, refl, tt, tt)

pub tree_c-TreeAt : TreeAt btree tree_c
tree_c-TreeAt = (node_c-NodeAt, refl, refl, tt, tt)

pub tree_abc-TreeAt : TreeAt btree tree_abc
tree_abc-TreeAt = (node_b-NodeAt, refl, refl, tree_a-TreeAt, tree_c-TreeAt)

-- The same keys with each node on the `next` side of the one before.
abbrev pub chain_a : Node
chain_a = key_node 0 44 0 100 (97 ∷ [])

abbrev pub chain_b : Node
chain_b = key_node 270 100 0 160 (98 ∷ [])

abbrev pub chain : Td
chain = record btree {
  header = record (btree.header) { top = 44 };
  mem = blit (blit btree.mem 44 (bytes_of_node chain_a)) 100 (bytes_of_node chain_b);
}

chain_a-NodeAt : NodeAt chain chain_a
unfolding machine
chain_a-NodeAt = record {
  low = omega arith;
  high = omega arith;
  word = omega arith;
  head = refl;
  words = words_of_node 0 0 100 (omega arith) (omega arith) (omega arith);
  size = refl;
  key = refl;
  sum = refl;
}

chain_b-NodeAt : NodeAt chain chain_b
unfolding machine
chain_b-NodeAt = record {
  low = omega arith;
  high = omega arith;
  word = omega arith;
  head = refl;
  words = words_of_node 270 0 160 (omega arith) (omega arith) (omega arith);
  size = refl;
  key = refl;
  sum = refl;
}

chain_c-NodeAt : NodeAt chain node_c
unfolding machine
chain_c-NodeAt = record {
  low = omega arith;
  high = omega arith;
  word = omega arith;
  head = refl;
  words = words_of_node 0 0 0 (omega arith) (omega arith) (omega arith);
  size = refl;
  key = refl;
  sum = refl;
}

abbrev pub chain_bc : Tree
chain_bc = node leaf chain_b tree_c

pub chain-TreeAt : TreeAt chain (node leaf chain_a chain_bc)
chain-TreeAt = (
  chain_a-NodeAt,
  refl,
  refl,
  tt,
  (chain_b-NodeAt, refl, refl, tt, (chain_c-NodeAt, refl, refl, tt, tt)),
)

pub Separated-abc : Separated (inorder tree_abc)
Separated-abc = ((inl (omega arith), (inl (omega arith), tt)), ((inl (omega arith), tt), (tt, tt)))
