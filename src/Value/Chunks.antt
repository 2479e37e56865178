-- ===== src/Value/Chunks.antt =====
-- The chain of chunks that a value is stored in.
use sdbm_tree.Common.{
  ℕ, ◌+◌, ◌≤◌, ◌<◌, ◌≡◌, refl, ap, ◌∙◌, List, [], ◌∷◌, ◌++◌, arith, length, word_mod, add32, sub32,
  Bool, if◌then◌else◌, ◌==◌, false, Bool-cases, inl, inr,
}
use sdbm_tree.Types.{Td, checksum_flag, has_flag}
use sdbm_tree.Machine.{ok, pure}
use sdbm_tree.Memory.{slice}
use sdbm_tree.Io.{td_read, td_read_chunkhead}
use sdbm_tree.Io.Frame.{chunk_at, td_read-ok, td_read_chunkhead-ok}
use sdbm_tree.Checksum.{td_checksum_create, td_checksum_verify}

-- A chunk: its offset and the part of the value in it.
pub record Chunk : Type 0 where
  pub ptr : ℕ
  pub bytes : List ℕ

-- The chunk lies within the resource, with its size, its link and its bytes; its checksum is right if
-- the flags ask for one.
pub record ChunkAt (td : Td) (flags : ℕ) (c : Chunk) (next : ℕ) : Type 0 where
  pub low : 44 ≤ c.ptr
  pub high : c.ptr + (16 + length c.bytes) ≤ td.header.size
  pub word : td.header.size < word_mod
  pub size_eq : (chunk_at td.mem c.ptr).size ≡ length c.bytes + 16
  pub next_eq : (chunk_at td.mem c.ptr).next ≡ next
  pub bytes_eq : slice td.mem (c.ptr + 16) (length c.bytes) ≡ c.bytes
  pub sum :
      has_flag flags checksum_flag ≡ Bool.true
      → (chunk_at td.mem c.ptr).checksum ≡ td_checksum_create c.bytes

abbrev pub head_of : List Chunk → ℕ
head_of [] = 0
head_of (c ∷ cs) = c.ptr

abbrev pub ChainAt : Td → ℕ → List Chunk → Type 0
ChainAt td flags [] = Unit {0}
ChainAt td flags (c ∷ cs) = ChunkAt td flags c (head_of cs) × ChainAt td flags cs

-- The value, from the first chunk on.
abbrev pub contents : List Chunk → List ℕ
contents [] = []
contents (c ∷ cs) = c.bytes ++ contents cs

module _ {td : Td} {flags : ℕ} {c : Chunk} {next : ℕ} (at : ChunkAt td flags c next) where
  pub read_head : td_read_chunkhead c.ptr td ≡ ok (chunk_at td.mem c.ptr) td
  read_head =
      td_read_chunkhead-ok td c.ptr
        (record { low = at.low; high = omega (arith, at.high); word = at.word })

  pub data_size : sub32 (chunk_at td.mem c.ptr).size 16 ≡ length c.bytes
  data_size = omega (arith, at.size_eq, at.high, at.word)

  pub data_offset : add32 c.ptr 16 ≡ c.ptr + 16
  data_offset = omega (arith, at.high, at.word)

  pub read_bytes : td_read (c.ptr + 16) (length c.bytes) td ≡ ok c.bytes td
  read_bytes =
      td_read-ok td (c.ptr + 16) (length c.bytes)
        (record { low = omega (arith, at.low); high = omega (arith, at.high); word = at.word })
      ∙ ap (λ k. ok k td) at.bytes_eq

  pub verify_bytes :
      (if has_flag flags checksum_flag
          then td_checksum_verify c.bytes (chunk_at td.mem c.ptr).checksum
          else pure tt)
        td
      ≡ ok tt td
  unfolding td_checksum_verify
  verify_bytes = elim (Bool-cases (has_flag flags checksum_flag)) [
    | inl on ↦ let e = at.sum on in rw on (ground (arith, e))
    | inr off ↦ rw off refl
  ]

  pub nonzero : (c.ptr == 0) ≡ false
  nonzero = ground (arith, at.low)
