-- ===== src/Value/Store.antt =====
-- td_store_valuechunk puts a chunk before a chain, and td_read_value reads the whole back.
use sdbm_tree.Common.{
  ℕ, ◌+◌, ◌≤◌, ◌<◌, ◌≡◌, ◌⊎◌, refl, ap, ◌∙◌, List, [], ◌∷◌, ◌++◌, true, arith, length, word_mod,
  add32, bit_or, inl,
}
use sdbm_tree.Types.{Td, Chunkhead, alloctdt, has_flag}
use sdbm_tree.Machine.{ok}
use sdbm_tree.Memory.{slice, blit}
use sdbm_tree.Memory.Laws.{slice-blit_self, slice-blit_outside}
use sdbm_tree.Io.{encode_chunkhead, decode_chunkhead}
use sdbm_tree.Io.Codec.{length-encode_chunkhead}
use sdbm_tree.Io.Frame.{
  Fits, chunk_at, set_chunk, td_write-ok, td_write_chunkhead-ok, chunk_at-set_chunk_self,
}
use sdbm_tree.Checksum.{td_checksum_create}
use sdbm_tree.Tdt.{Tdt, empty, bytes_of}
use sdbm_tree.Value.{checksum_field, count_chunk, td_store_valuechunk, td_read_value}
use sdbm_tree.Value.Chunks.{Chunk, ChunkAt, ChainAt, head_of, contents}
use sdbm_tree.Value.Read.{Allocates, td_read_value-contents}

abbrev pub extent : Chunk → ℕ
extent c = 16 + length c.bytes

-- The chunks lie before `off` or behind the `n` bytes from there on.
abbrev pub AllApart : ℕ → ℕ → List Chunk → Type 0
AllApart off n [] = Unit {0}
AllApart off n (c ∷ cs) = ((c.ptr + extent c ≤ off) ⊎ (off + n ≤ c.ptr)) × AllApart off n cs

abbrev new_head : (next flags refcount : ℕ) → List ℕ → Chunkhead
new_head next flags refcount bytes = record {
  next = next;
  size = add32 (length bytes) 16;
  checksum = checksum_field flags bytes;
  refcount = refcount;
}

-- The state that td_store_valuechunk leaves.
abbrev pub with_chunk : Td → (flags refcount : ℕ) → Chunk → ℕ → Td
with_chunk td flags refcount c next = record td {
  header = record (td.header) { nchunks = add32 td.header.nchunks 1 };
  mem = blit (set_chunk td.mem c.ptr (new_head next flags refcount c.bytes)) (c.ptr + 16) c.bytes;
}

with_chunk-outside :
    (td : Td) (flags refcount : ℕ) (c : Chunk) (next a n : ℕ)
    → (a + n ≤ c.ptr) ⊎ (c.ptr + extent c ≤ a)
    → slice (with_chunk td flags refcount c next).mem a n ≡ slice td.mem a n
with_chunk-outside td flags refcount c next a n apart =
    slice-blit_outside (set_chunk td.mem c.ptr (new_head next flags refcount c.bytes)) (c.ptr + 16)
      c.bytes a n (ground (arith, apart))
    ∙ slice-blit_outside td.mem c.ptr (encode_chunkhead (new_head next flags refcount c.bytes)) a n
        (ground (arith, apart, length-encode_chunkhead (new_head next flags refcount c.bytes)))

checksum_field-IsWord : (flags : ℕ) (bytes : List ℕ) → checksum_field flags bytes < word_mod
unfolding checksum_field td_checksum_create
checksum_field-IsWord flags bytes = ground arith

module _ (td : Td) (flags refcount : ℕ) (c : Chunk) (next : ℕ) (fits : Fits td c.ptr (extent c))
    (next_word : next < word_mod) (refcount_word : refcount < word_mod) where
  stored_head :
      chunk_at (with_chunk td flags refcount c next).mem c.ptr
      ≡ new_head next flags refcount c.bytes
  stored_head =
      ap decode_chunkhead (
        slice-blit_outside (set_chunk td.mem c.ptr (new_head next flags refcount c.bytes))
          (c.ptr + 16) c.bytes c.ptr 16 (inl (omega arith)))
      ∙ chunk_at-set_chunk_self td.mem c.ptr (new_head next flags refcount c.bytes) (record {
        next = next_word;
        size = omega arith;
        checksum = checksum_field-IsWord flags c.bytes;
        refcount = refcount_word;
      })

  with_chunk-ChunkAt : ChunkAt (with_chunk td flags refcount c next) flags c next
  unfolding checksum_field
  with_chunk-ChunkAt = record {
    low = fits.low;
    high = fits.high;
    word = fits.word;
    size_eq = ap (λ h. h.size) stored_head ∙ omega (arith, fits.high, fits.word);
    next_eq = ap (λ h. h.next) stored_head;
    bytes_eq =
        slice-blit_self (set_chunk td.mem c.ptr (new_head next flags refcount c.bytes)) (c.ptr + 16)
          c.bytes;
    sum = λ on. ap (λ h. h.checksum) stored_head ∙ rw on refl;
  }

  store-run :
      td_store_valuechunk c.ptr next c.bytes refcount flags td
      ≡ ok tt (with_chunk td flags refcount c next)
  unfolding td_store_valuechunk count_chunk
  store-run =
      let head = new_head next flags refcount c.bytes in
      let behind : add32 c.ptr 16 ≡ c.ptr + 16 = omega (arith, fits.high, fits.word) in
      rw
        (
          td_write_chunkhead-ok td c.ptr head
              (record { low = fits.low; high = omega (arith, fits.high); word = fits.word }),
          behind,
          td_write-ok (record td { mem = set_chunk td.mem c.ptr head }) (c.ptr + 16) c.bytes
              (record {
                low = omega (arith, fits.low);
                high = omega (arith, fits.high);
                word = fits.word;
              }),
        )
        refl

  rest-ChainAt :
      (cs : List Chunk)
      → AllApart c.ptr (extent c) cs
      → ChainAt td flags cs
      → ChainAt (with_chunk td flags refcount c next) flags cs
  rest-ChainAt [] apart chain = tt
  rest-ChainAt (d ∷ cs) (apart, aparts) (at, chain) =
      let same = with_chunk-outside td flags refcount c next in
      let head : chunk_at (with_chunk td flags refcount c next).mem d.ptr ≡ chunk_at td.mem d.ptr =
        ap decode_chunkhead (same d.ptr 16 (ground (arith, apart))) in
      (
        record {
          low = at.low;
          high = at.high;
          word = at.word;
          size_eq = ap (λ h. h.size) head ∙ at.size_eq;
          next_eq = ap (λ h. h.next) head ∙ at.next_eq;
          bytes_eq = same (d.ptr + 16) (length d.bytes) (ground (arith, apart)) ∙ at.bytes_eq;
          sum = λ on. ap (λ h. h.checksum) head ∙ at.sum on;
        },
        rest-ChainAt cs aparts chain,
      )

-- td_store_valuechunk puts a chunk that points to a chain of chunks, which lie apart from it. The chunk
-- lies behind the header and within the resource, and the reference count is a word. It returns
-- with no error, and the bytes outside the chunk are as before. Then td_read_value at the
-- chunk, with TDFLG_ALLOCTDT and an allocation that gives what it is asked for, gives the bytes stored
-- followed by those of the chain; the checksums that the flags ask for are right. The chunks are not
-- more in number than the resource has bytes, and the bytes less than 2 ^ 32.
pub td_store_valuechunk-td_read_value :
    (td : Td) (flags refcount : ℕ) (c : Chunk) (cs : List Chunk)
    → Allocates td
    → Fits td c.ptr (extent c)
    → head_of cs < word_mod
    → refcount < word_mod
    → has_flag (bit_or flags td.header.flags) alloctdt ≡ true
    → ChainAt td (bit_or flags td.header.flags) cs
    → AllApart c.ptr (extent c) cs
    → length (c ∷ cs) ≤ td.header.size
    → length (contents (c ∷ cs)) < word_mod
    → (td' : Td) × (td_store_valuechunk c.ptr
          (head_of cs)
          c.bytes
          refcount
          (bit_or flags td.header.flags)
          td
        ≡ ok tt td')
      × ((a n : ℕ)
          → (a + n ≤ c.ptr) ⊎ (c.ptr + extent c ≤ a)
          → slice td'.mem a n ≡ slice td.mem a n)
      × ((v : Tdt) × (td_read_value c.ptr empty flags td' ≡ ok v td')
          × (bytes_of v ≡ c.bytes ++ contents cs))
td_store_valuechunk-td_read_value td flags refcount c cs alloc fits link count asked chain apart few
      short =
    let all = bit_or flags td.header.flags in
    let td' = with_chunk td all refcount c (head_of cs) in
    (
      td',
      store-run td all refcount c (head_of cs) fits link count,
      with_chunk-outside td all refcount c (head_of cs),
      td_read_value-contents td'
          (record { realloc = alloc.realloc; is_set = alloc.is_set; gives = alloc.gives }) flags c
          cs asked
          (
            with_chunk-ChunkAt td all refcount c (head_of cs) fits link count,
            rest-ChainAt td all refcount c (head_of cs) fits link count cs apart chain,
          )
          few short,
    )
