-- ===== src/Cursor/Read.antt =====
-- tdc_get_locked.c at a node of a tree, into two empty containers that it allocates.
use sdbm_tree.Common.{
  ℕ, ◌≤◌, ◌<◌, ◌≡◌, refl, ap, take, ◌∙◌, List, [], ◌∷◌, true, some, arith, length, word_mod, add32,
  bit_or,
}
use sdbm_tree.Tdt
use sdbm_tree.Types.{Td, alloctdt, allockey, checksum_flag, has_flag}
use sdbm_tree.Machine.{ok}
use sdbm_tree.Tdt.{
  Tdt, empty, buffer_of, bytes_of, regrown, overlaid, key_room, reallocating, is_null,
  realloc_succeeds, td_read_keydata,
}
use sdbm_tree.Value.{td_read_value}
use sdbm_tree.Value.Chunks.{Chunk, ChainAt, contents}
use sdbm_tree.Value.Read.{Allocates, regrown-front, overlaid-front, td_read_value-contents}
use sdbm_tree.Tree.{Node, NodeAt, verifying}
use sdbm_tree.Tree.Nodes.{behind_header, key_size, key_offset, read_key, verify_key}

-- The flags of the call and of the header ask for keys and values to be allocated, and the flags of
-- the call ask for no checksum that those of the header do not.
pub record Asks (td : Td) (flags : ℕ) : Type 0 where
  pub key : has_flag (bit_or flags td.header.flags) (bit_or alloctdt allockey) ≡ true
  pub value : has_flag (bit_or flags td.header.flags) alloctdt ≡ true
  pub sums : has_flag (bit_or flags td.header.flags) checksum_flag ≡ verifying td

-- The value of a node: the bytes of a chain of chunks in the resource, which are not more in number
-- than the resource has bytes, with bytes that are less than 2 ^ 32.
pub record ValueAt (td : Td) (flags : ℕ) (n : Node) (bytes : List ℕ) : Type 0 where
  pub first : Chunk
  pub others : List Chunk
  pub points : n.head.value ≡ first.ptr
  pub chain : ChainAt td (bit_or flags td.header.flags) (first ∷ others)
  pub few : length (first ∷ others) ≤ td.header.size
  pub short : length (contents (first ∷ others)) < word_mod
  pub bytes_eq : contents (first ∷ others) ≡ bytes

module _ (td : Td) (alloc : Allocates td) (flags : ℕ) (asks : Asks td flags) where
  fresh_key :
      (k : ℕ)
      → key_room td empty (bit_or flags td.header.flags) k td
        ≡ ok (record { mem = some (regrown [] k); size = k }) td
  unfolding key_room reallocating is_null realloc_succeeds sdbm_tree.Tdt.is_set
  fresh_key k = rw (asks.key, alloc.is_set, alloc.gives (add32 k 1)) refl

  module _ {n : Node} (at : NodeAt td n) where
    pub read_key-empty :
        (k : Tdt) × (td_read_keydata n.ptr n.head empty flags td ≡ ok k td) × (bytes_of k ≡ n.key)
    unfolding td_read_keydata bytes_of
    read_key-empty =
        let room = some (regrown [] (length n.key)) in
        let long = (regrown-front [] 0 (length n.key) (omega arith) (omega arith)).1 in
        let laid = overlaid-front room 0 n.key (omega (arith, long)) in
        (
          record { mem = overlaid room 0 n.key; size = length n.key },
          rw
              (
                behind_header at,
                key_size at,
                fresh_key (length n.key),
                key_offset at,
                read_key at,
                asks.sums,
                verify_key at,
              )
              refl,
          ap (λ j. take j (buffer_of (overlaid room 0 n.key))) (omega arith) ∙ laid.1,
        )

    pub read_value-empty :
        (bytes : List ℕ)
        → ValueAt td flags n bytes
        → (v : Tdt) × (td_read_value n.head.value empty flags td ≡ ok v td) × (bytes_of v ≡ bytes)
    read_value-empty bytes holds =
        let (v, run, same) =
          td_read_value-contents td alloc flags holds.first holds.others asks.value holds.chain
            holds.few holds.short in
        (v, rw holds.points run, same ∙ holds.bytes_eq)
