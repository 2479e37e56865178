-- ===== src/Io/Stored.antt =====
-- td_write_header.c and td_read_header.c: the header in the resource, and its words there.
use sdbm_tree.Common.{ℕ, ◌+◌, ◌≤◌, ◌≡◌, subst, ap, ◌∙◌, inr, [], ◌∷◌, arith, ltb, false}
use sdbm_tree.Types.{Td, Header}
use sdbm_tree.Machine.{ok}
use sdbm_tree.Memory.{slice, blit}
use sdbm_tree.Memory.Laws.{slice-blit_self, slice-blit_outside}
use sdbm_tree.Io.{
  td_read, td_read_uint, td_read_header, td_write_header, td_write, encode_header, decode_header,
}
use sdbm_tree.Io.Codec.{HeaderWords, decode-encode_header, length-encode_header}

-- The magic and the words of a header at the offsets that the struct gives them.
pub record Laid (td : Td) (h : Header) : Type 0 where
  pub magic : td_read 0 4 td ≡ ok (h.magic0 ∷ h.magic1 ∷ h.magic2 ∷ h.magic3 ∷ []) td
  pub flags : td_read_uint 4 td ≡ ok h.flags td
  pub size : td_read_uint 8 td ≡ ok h.size td
  pub align : td_read_uint 12 td ≡ ok h.align td
  pub top : td_read_uint 16 td ≡ ok h.top td
  pub level : td_read_uint 20 td ≡ ok h.level td
  pub off_e : td_read_uint 24 td ≡ ok h.off_e td
  pub scn : td_read_uint 28 td ≡ ok h.scn td
  pub nentries : td_read_uint 32 td ≡ ok h.nentries td
  pub nempties : td_read_uint 36 td ≡ ok h.nempties td
  pub nchunks : td_read_uint 40 td ≡ ok h.nchunks td

read_within :
    (td : Td) (p n : ℕ)
    → p + n ≤ 44
    → 44 ≤ td.header.size
    → td_read p n td ≡ ok (slice td.mem p n) td
unfolding td_read
read_within td p n inside low = ground (arith, inside, low)

-- A header that decodes from the bytes of the resource.
module _ (td : Td) (h : Header) (low : 44 ≤ td.header.size)
    (stored : decode_header (slice td.mem 0 44) ≡ h) where
  lays : Laid td h
  unfolding td_read_uint decode_header slice
  lays = record {
    magic =
        read_within td 0 4 (omega arith) low
        ∙ ap (λ k. ok (k.magic0 ∷ k.magic1 ∷ k.magic2 ∷ k.magic3 ∷ []) td) stored;
    flags = rw (read_within td 4 4 (omega arith) low) (ap (λ k. ok k.flags td) stored);
    size = rw (read_within td 8 4 (omega arith) low) (ap (λ k. ok k.size td) stored);
    align = rw (read_within td 12 4 (omega arith) low) (ap (λ k. ok k.align td) stored);
    top = rw (read_within td 16 4 (omega arith) low) (ap (λ k. ok k.top td) stored);
    level = rw (read_within td 20 4 (omega arith) low) (ap (λ k. ok k.level td) stored);
    off_e = rw (read_within td 24 4 (omega arith) low) (ap (λ k. ok k.off_e td) stored);
    scn = rw (read_within td 28 4 (omega arith) low) (ap (λ k. ok k.scn td) stored);
    nentries = rw (read_within td 32 4 (omega arith) low) (ap (λ k. ok k.nentries td) stored);
    nempties = rw (read_within td 36 4 (omega arith) low) (ap (λ k. ok k.nempties td) stored);
    nchunks = rw (read_within td 40 4 (omega arith) low) (ap (λ k. ok k.nchunks td) stored);
  }

  reads_back :
      (other : Header)
      → 44 ≤ other.size
      → td_read_header (record td { header = other }) ≡ ok tt (record td { header = h })
  unfolding td_read_header td_read decode_header
  reads_back other room =
      let fits : ltb other.size 44 ≡ false = ground (arith, room) in
      rw fits (ap (λ k. ok tt (record td { header = k })) stored)

writes_header :
    (td : Td)
    → 44 ≤ td.header.size
    → td_write_header td ≡ ok tt (record td { mem = blit td.mem 0 (encode_header td.header) })
unfolding td_write_header td_write
writes_header td low = ground (arith, low, length-encode_header td.header)

-- td_write_header in a resource of 44 bytes at least, with a header whose fields are words: it returns
-- with no error and changes no byte behind the header; the resource then has the magic in its first
-- four bytes, and flags, size, align, top, level, off_e, scn, nentries, nempties and nchunks in the ten
-- words after it, as td_read_uint reads them. td_read_header on it returns with no error and gives the
-- header that was written, whatever header was in memory, if its size is 44 at least.
pub td_write_header-td_read_header :
    (td : Td) (other : Header)
    → HeaderWords td.header
    → 44 ≤ td.header.size
    → 44 ≤ other.size
    → (td' : Td) × (td_write_header td ≡ ok tt td')
      × (td_read_header (record td' { header = other }) ≡ ok tt td')
      × Laid td' td.header
      × ((p n : ℕ) → 44 ≤ p → slice td'.mem p n ≡ slice td.mem p n)
td_write_header-td_read_header td other w low room =
    let td' = record td { mem = blit td.mem 0 (encode_header td.header) } in
    let stored =
      ap decode_header (
        subst (λ k. slice td'.mem 0 k ≡ encode_header td.header) (length-encode_header td.header)
          (slice-blit_self td.mem 0 (encode_header td.header)))
      ∙ decode-encode_header td.header w in
    (
      td',
      writes_header td low,
      reads_back td' td.header low stored other room,
      lays td' td.header low stored,
      λ p n behind_header.
          slice-blit_outside td.mem 0 (encode_header td.header) p n
            (inr (omega (arith, length-encode_header td.header))),
    )
