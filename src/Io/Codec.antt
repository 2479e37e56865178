-- ===== src/Io/Codec.antt =====
-- A structure that is written and read again is the same, provided that its fields are words.
use sdbm_tree.Common.{ℕ, ◌<◌, ◌≡◌, refl, length, word_mod, word_of-word_bytes}
use sdbm_tree.Types.{Chunkhead, Keyhead, Header}
use sdbm_tree.Io.{
  encode_chunkhead, decode_chunkhead, encode_keyhead, decode_keyhead, encode_header, decode_header,
}

abbrev pub IsWord : ℕ → Type 0
IsWord n = n < word_mod

pub record KeyheadWords (h : Keyhead) : Type 0 where
  pub value : IsWord h.value
  pub size : IsWord h.size
  pub scn : IsWord h.scn
  pub checksum : IsWord h.checksum
  pub next : IsWord h.next
  pub previous : IsWord h.previous

pub record ChunkheadWords (h : Chunkhead) : Type 0 where
  pub next : IsWord h.next
  pub size : IsWord h.size
  pub checksum : IsWord h.checksum
  pub refcount : IsWord h.refcount

pub record HeaderWords (h : Header) : Type 0 where
  pub flags : IsWord h.flags
  pub size : IsWord h.size
  pub align : IsWord h.align
  pub top : IsWord h.top
  pub level : IsWord h.level
  pub off_e : IsWord h.off_e
  pub scn : IsWord h.scn
  pub nentries : IsWord h.nentries
  pub nempties : IsWord h.nempties
  pub nchunks : IsWord h.nchunks

pub decode-encode_keyhead : (h : Keyhead) → KeyheadWords h → decode_keyhead (encode_keyhead h) ≡ h
unfolding decode_keyhead encode_keyhead
decode-encode_keyhead h w = λ i. record {
  value = word_of-word_bytes h.value w.value i;
  size = word_of-word_bytes h.size w.size i;
  scn = word_of-word_bytes h.scn w.scn i;
  checksum = word_of-word_bytes h.checksum w.checksum i;
  next = word_of-word_bytes h.next w.next i;
  previous = word_of-word_bytes h.previous w.previous i;
}

pub decode-encode_chunkhead :
    (h : Chunkhead) → ChunkheadWords h → decode_chunkhead (encode_chunkhead h) ≡ h
unfolding decode_chunkhead encode_chunkhead
decode-encode_chunkhead h w = λ i. record {
  next = word_of-word_bytes h.next w.next i;
  size = word_of-word_bytes h.size w.size i;
  checksum = word_of-word_bytes h.checksum w.checksum i;
  refcount = word_of-word_bytes h.refcount w.refcount i;
}

-- A header whose fields are words is read back from its bytes as it was written.
pub decode-encode_header : (h : Header) → HeaderWords h → decode_header (encode_header h) ≡ h
unfolding decode_header encode_header
decode-encode_header h w = λ i. record {
  magic0 = h.magic0;
  magic1 = h.magic1;
  magic2 = h.magic2;
  magic3 = h.magic3;
  flags = word_of-word_bytes h.flags w.flags i;
  size = word_of-word_bytes h.size w.size i;
  align = word_of-word_bytes h.align w.align i;
  top = word_of-word_bytes h.top w.top i;
  level = word_of-word_bytes h.level w.level i;
  off_e = word_of-word_bytes h.off_e w.off_e i;
  scn = word_of-word_bytes h.scn w.scn i;
  nentries = word_of-word_bytes h.nentries w.nentries i;
  nempties = word_of-word_bytes h.nempties w.nempties i;
  nchunks = word_of-word_bytes h.nchunks w.nchunks i;
}

pub length-encode_keyhead : (h : Keyhead) → length (encode_keyhead h) ≡ 24
unfolding encode_keyhead
length-encode_keyhead h = refl

pub length-encode_chunkhead : (h : Chunkhead) → length (encode_chunkhead h) ≡ 16
unfolding encode_chunkhead
length-encode_chunkhead h = refl

pub length-encode_header : (h : Header) → length (encode_header h) ≡ 44
unfolding encode_header
length-encode_header h = refl
