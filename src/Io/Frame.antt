-- ===== src/Io/Frame.antt =====
-- The words of a structure in memory, as the accesses of Io read and write them.
use sdbm_tree.Common.{ℕ, ◌+◌, ◌≤◌, ◌<◌, ◌≡◌, ap, ◌∙◌, ◌⊎◌, List, arith, length, word_mod}
use sdbm_tree.Types.{Keyhead, Chunkhead, Memory, Td}
use sdbm_tree.Machine.{ok}
use sdbm_tree.Memory.{slice, blit}
use sdbm_tree.Memory.Laws.{slice-blit_self, slice-blit_outside}
use sdbm_tree.Io.{
  td_read, td_write, encode_keyhead, decode_keyhead, encode_chunkhead, decode_chunkhead,
  td_read_keyhead, td_write_keyhead, td_read_chunkhead, td_write_chunkhead,
}
use sdbm_tree.Io.Codec.{
  KeyheadWords, ChunkheadWords, decode-encode_keyhead, decode-encode_chunkhead,
  length-encode_keyhead, length-encode_chunkhead,
}

abbrev pub key_at : Memory → ℕ → Keyhead
key_at m p = decode_keyhead (slice m p 24)

abbrev pub set_key : Memory → ℕ → Keyhead → Memory
set_key m p k = blit m p (encode_keyhead k)

abbrev pub chunk_at : Memory → ℕ → Chunkhead
chunk_at m p = decode_chunkhead (slice m p 16)

abbrev pub set_chunk : Memory → ℕ → Chunkhead → Memory
set_chunk m p c = blit m p (encode_chunkhead c)

-- `p` is an offset behind the header, with `n` bytes of the resource after it.
pub record Fits (td : Td) (p n : ℕ) : Type 0 where
  pub low : 44 ≤ p
  pub high : p + n ≤ td.header.size
  pub word : td.header.size < word_mod

module _ (td : Td) (p : ℕ) where
  pub td_read-ok : (n : ℕ) → Fits td p n → td_read p n td ≡ ok (slice td.mem p n) td
  unfolding td_read
  td_read-ok n f = ground arith

  pub td_write-ok :
      (buf : List ℕ)
      → Fits td p (length buf)
      → td_write p buf td ≡ ok tt (record td { mem = blit td.mem p buf })
  unfolding td_write
  td_write-ok buf f = ground arith

  pub td_read_keyhead-ok : Fits td p 24 → td_read_keyhead p td ≡ ok (key_at td.mem p) td
  unfolding td_read_keyhead
  td_read_keyhead-ok f = ground arith

  pub td_write_keyhead-ok :
      (k : Keyhead)
      → Fits td p 24
      → td_write_keyhead p k td ≡ ok tt (record td { mem = set_key td.mem p k })
  unfolding td_write_keyhead
  td_write_keyhead-ok k f = ground (arith, length-encode_keyhead k)

  pub td_read_chunkhead-ok : Fits td p 16 → td_read_chunkhead p td ≡ ok (chunk_at td.mem p) td
  unfolding td_read_chunkhead
  td_read_chunkhead-ok f = ground arith

  pub td_write_chunkhead-ok :
      (c : Chunkhead)
      → Fits td p 16
      → td_write_chunkhead p c td ≡ ok tt (record td { mem = set_chunk td.mem p c })
  unfolding td_write_chunkhead
  td_write_chunkhead-ok c f = ground (arith, length-encode_chunkhead c)

module _ (m : Memory) (p : ℕ) where
  pub key_at-set_key_self : (k : Keyhead) → KeyheadWords k → key_at (set_key m p k) p ≡ k
  unfolding encode_keyhead
  key_at-set_key_self k w =
      ap decode_keyhead (slice-blit_self m p (encode_keyhead k)) ∙ decode-encode_keyhead k w

  pub chunk_at-set_chunk_self :
      (c : Chunkhead) → ChunkheadWords c → chunk_at (set_chunk m p c) p ≡ c
  unfolding encode_chunkhead
  chunk_at-set_chunk_self c w =
      ap decode_chunkhead (slice-blit_self m p (encode_chunkhead c)) ∙ decode-encode_chunkhead c w

  pub slice-set_key_outside :
      (k : Keyhead) (q n : ℕ) → (q + n ≤ p) ⊎ (p + 24 ≤ q) → slice (set_key m p k) q n ≡ slice m q n
  slice-set_key_outside k q n apart =
      slice-blit_outside m p (encode_keyhead k) q n (ground (arith, length-encode_keyhead k))
