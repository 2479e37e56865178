-- ===== src/Tests/Cursors.antt =====
-- The theorem on cursors, on a btree with the keys "a", "b" and "c": the value of "a" is in a chunk at
-- 300, that of "b" in chunks at 320 and 340, and that of "c" in a chunk at 360.
use mathlib.Core.Bool.{false≢true}
use sdbm_tree.Common.{◌≡◌, ◌==◌, if◌then◌else◌, refl, ℕ, List, [], ◌∷◌, ◌++◌, true, some, arith}
use sdbm_tree.Types.{Td, Header, alloctdt}
use sdbm_tree.Machine.{ok}
use sdbm_tree.Memory.{blit}
use sdbm_tree.Io.{td_read_header, encode_header}
use sdbm_tree.Value.Chunks.{Chunk, ChunkAt}
use sdbm_tree.Value.Read.{Allocates}
use sdbm_tree.Init.{td_init}
use sdbm_tree.Tree.{Node, NodeAt, TreeAt, leaf, node}
use sdbm_tree.Cursor.{Tdc, tdc_init_locked}
use sdbm_tree.Cursor.Read.{Asks, ValueAt}
use sdbm_tree.Cursor.Walk.{walk, tdc_init-walk}
use sdbm_tree.Tests.{machine}
use sdbm_tree.Tests.Samples.{key_node, bytes_of_node, words_of_node, btree}

abbrev key_a : Node
key_a = key_node 300 44 0 0 (97 ∷ [])

abbrev key_b : Node
key_b = key_node 320 100 44 160 (98 ∷ [])

abbrev key_c : Node
key_c = key_node 360 160 0 0 (99 ∷ [])

abbrev chunk_a : Chunk
chunk_a = record { ptr = 300; bytes = 7 ∷ 8 ∷ [] }

abbrev chunk_b : Chunk
chunk_b = record { ptr = 320; bytes = 1 ∷ [] }

abbrev last_b : Chunk
last_b = record { ptr = 340; bytes = 2 ∷ [] }

abbrev chunk_c : Chunk
chunk_c = record { ptr = 360; bytes = 9 ∷ [] }

-- A chunk head with the lowest byte of its words.
abbrev low_bytes : (next0 next1 size : ℕ) → List ℕ
low_bytes next0 next1 size =
    next0 ∷ next1 ∷ 0 ∷ 0 ∷ size ∷ 0 ∷ 0 ∷ 0 ∷ 0 ∷ 0 ∷ 0 ∷ 0 ∷ 1 ∷ 0 ∷ 0 ∷ 0 ∷ []

abbrev shelf_header : Header
shelf_header = record (btree.header) { size = 400; nempties = 0; off_e = 0; nchunks = 4 }

abbrev shelf : Td
shelf = record (td_init (λ a. 0)) {
  header = shelf_header;
  compare = btree.compare;
  realloc = some (λ n. true);
  mem =
      blit
        (blit
          (blit
            (blit
              (blit
                (blit (blit (blit (λ a. 0) 0 (encode_header shelf_header)) 44 (bytes_of_node key_a))
                  100 (bytes_of_node key_b))
                160 (bytes_of_node key_c))
              300 (low_bytes 0 0 18 ++ (7 ∷ 8 ∷ [])))
            320 (low_bytes 84 1 17 ++ (1 ∷ [])))
          340 (low_bytes 0 0 17 ++ (2 ∷ [])))
        360 (low_bytes 0 0 17 ++ (9 ∷ []));
}

abbrev value_of : Node → List ℕ
value_of n = if n.ptr == 44 then 7 ∷ 8 ∷ [] else if n.ptr == 100 then 1 ∷ 2 ∷ [] else 9 ∷ []

key_a-NodeAt : NodeAt shelf key_a
unfolding machine
key_a-NodeAt = record {
  low = omega arith;
  high = omega arith;
  word = omega arith;
  head = refl;
  words = words_of_node 300 0 0 (omega arith) (omega arith) (omega arith);
  size = refl;
  key = refl;
  sum = refl;
}

key_b-NodeAt : NodeAt shelf key_b
unfolding machine
key_b-NodeAt = record {
  low = omega arith;
  high = omega arith;
  word = omega arith;
  head = refl;
  words = words_of_node 320 44 160 (omega arith) (omega arith) (omega arith);
  size = refl;
  key = refl;
  sum = refl;
}

key_c-NodeAt : NodeAt shelf key_c
unfolding machine
key_c-NodeAt = record {
  low = omega arith;
  high = omega arith;
  word = omega arith;
  head = refl;
  words = words_of_node 360 0 0 (omega arith) (omega arith) (omega arith);
  size = refl;
  key = refl;
  sum = refl;
}

chunk_a-ChunkAt : ChunkAt shelf alloctdt chunk_a 0
unfolding machine
chunk_a-ChunkAt = record {
  low = omega arith;
  high = omega arith;
  word = omega arith;
  size_eq = refl;
  next_eq = refl;
  bytes_eq = refl;
  sum = λ on. absurd (false≢true on);
}

chunk_b-ChunkAt : ChunkAt shelf alloctdt chunk_b 340
unfolding machine
chunk_b-ChunkAt = record {
  low = omega arith;
  high = omega arith;
  word = omega arith;
  size_eq = refl;
  next_eq = refl;
  bytes_eq = refl;
  sum = λ on. absurd (false≢true on);
}

last_b-ChunkAt : ChunkAt shelf alloctdt last_b 0
unfolding machine
last_b-ChunkAt = record {
  low = omega arith;
  high = omega arith;
  word = omega arith;
  size_eq = refl;
  next_eq = refl;
  bytes_eq = refl;
  sum = λ on. absurd (false≢true on);
}

chunk_c-ChunkAt : ChunkAt shelf alloctdt chunk_c 0
unfolding machine
chunk_c-ChunkAt = record {
  low = omega arith;
  high = omega arith;
  word = omega arith;
  size_eq = refl;
  next_eq = refl;
  bytes_eq = refl;
  sum = λ on. absurd (false≢true on);
}

key_a-ValueAt : ValueAt shelf alloctdt key_a (value_of key_a)
unfolding machine
key_a-ValueAt = record {
  first = chunk_a;
  others = [];
  points = refl;
  chain = (chunk_a-ChunkAt, tt);
  few = omega arith;
  short = omega arith;
  bytes_eq = refl;
}

key_b-ValueAt : ValueAt shelf alloctdt key_b (value_of key_b)
unfolding machine
key_b-ValueAt = record {
  first = chunk_b;
  others = last_b ∷ [];
  points = refl;
  chain = (chunk_b-ChunkAt, (last_b-ChunkAt, tt));
  few = omega arith;
  short = omega arith;
  bytes_eq = refl;
}

key_c-ValueAt : ValueAt shelf alloctdt key_c (value_of key_c)
unfolding machine
key_c-ValueAt = record {
  first = chunk_c;
  others = [];
  points = refl;
  chain = (chunk_c-ChunkAt, tt);
  few = omega arith;
  short = omega arith;
  bytes_eq = refl;
}

shelf-TreeAt : TreeAt shelf (node (node leaf key_a leaf) key_b (node leaf key_c leaf))
shelf-TreeAt = (
  key_b-NodeAt,
  refl,
  refl,
  (key_a-NodeAt, refl, refl, tt, tt),
  (key_c-NodeAt, refl, refl, tt, tt),
)

header_in_step : td_read_header shelf ≡ ok tt shelf
unfolding machine
header_in_step = refl

shelf-Allocates : Allocates shelf
unfolding machine
shelf-Allocates = record { realloc = λ n. true; is_set = refl; gives = λ n. refl }

shelf-Asks : Asks shelf alloctdt
unfolding machine
shelf-Asks = record { key = refl; value = refl; sums = refl }

tdc_init-walk_example :
    (tdc : Tdc) × (tdc_init_locked shelf ≡ ok tdc shelf)
    × (walk 5 alloctdt tdc shelf
        ≡ ok ((97 ∷ [], 7 ∷ 8 ∷ []) ∷ (98 ∷ [], 1 ∷ 2 ∷ []) ∷ (99 ∷ [], 9 ∷ []) ∷ []) shelf)
unfolding machine
tdc_init-walk_example =
    tdc_init-walk shelf header_in_step shelf-Allocates alloctdt shelf-Asks value_of
      (node leaf key_a leaf) key_b (node leaf key_c leaf) shelf-TreeAt refl (omega arith)
      (key_a-ValueAt, (key_b-ValueAt, (key_c-ValueAt, tt)))
