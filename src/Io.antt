-- ===== src/Io.antt =====
-- Access to the resource with bounds: td_read.c, td_write.c, td_read_uint.c, td_write_uint.c,
-- td_{read,write}_{header,chunkhead,keyhead}.c. A structure lies in memory as its words, each in
-- four bytes, the lowest first: encode_* and decode_* are this layout, which the source has from the
-- compiler and copies with memcpy.
pub mod Bounds
pub mod Codec
pub mod Frame
pub mod Stored
use sdbm_tree.Common.{
  ℕ, ◌+◌, List, [], ◌∷◌, ◌++◌, ltb, if◌then◌else◌, get_or, length, add32, word_bytes, word_of,
}
use sdbm_tree.Types.{
  Header, Chunkhead, Keyhead, Memory, Td, header_size, chunkhead_size, keyhead_size,
}
use sdbm_tree.Types.Error.{bounds}
use sdbm_tree.Machine.{Cmd, Command, ok, fail, ◌>>=◌, ◌>>◌, pure, modify_header}
use sdbm_tree.Memory.{slice, blit}

unfoldable pub td_read : ℕ → ℕ → Cmd (List ℕ)
td_read off size td =
    if ltb td.header.size (add32 off size) then fail bounds td else ok (slice td.mem off size) td

unfoldable pub td_write : ℕ → List ℕ → Command
td_write off buf td =
    if ltb td.header.size (add32 off (length buf))
    then fail bounds td
    else ok tt (record td { mem = blit td.mem off buf })

-- The word at byte `i` of a buffer.
abbrev pub word_at : List ℕ → ℕ → ℕ
word_at buf i =
    word_of (get_or buf i 0) (get_or buf (i + 1) 0) (get_or buf (i + 2) 0) (get_or buf (i + 3) 0)

unfoldable pub encode_chunkhead : Chunkhead → List ℕ
encode_chunkhead h =
    word_bytes h.next ++ (word_bytes h.size ++ (word_bytes h.checksum ++ word_bytes h.refcount))

unfoldable pub decode_chunkhead : List ℕ → Chunkhead
decode_chunkhead buf = record {
  next = word_at buf 0;
  size = word_at buf 4;
  checksum = word_at buf 8;
  refcount = word_at buf 12;
}

unfoldable pub encode_keyhead : Keyhead → List ℕ
encode_keyhead h =
    word_bytes h.value
    ++ (word_bytes h.size
        ++ (word_bytes h.scn
            ++ (word_bytes h.checksum ++ (word_bytes h.next ++ word_bytes h.previous))))

unfoldable pub decode_keyhead : List ℕ → Keyhead
decode_keyhead buf = record {
  value = word_at buf 0;
  size = word_at buf 4;
  scn = word_at buf 8;
  checksum = word_at buf 12;
  next = word_at buf 16;
  previous = word_at buf 20;
}

unfoldable pub encode_header : Header → List ℕ
encode_header h =
    h.magic0
    ∷ h.magic1
    ∷ h.magic2
    ∷ h.magic3
    ∷ (word_bytes h.flags
        ++ (word_bytes h.size
            ++ (word_bytes h.align
                ++ (word_bytes h.top
                    ++ (word_bytes h.level
                        ++ (word_bytes h.off_e
                            ++ (word_bytes h.scn
                                ++ (word_bytes h.nentries
                                    ++ (word_bytes h.nempties ++ word_bytes h.nchunks)))))))))

unfoldable pub decode_header : List ℕ → Header
decode_header buf = record {
  magic0 = get_or buf 0 0;
  magic1 = get_or buf 1 0;
  magic2 = get_or buf 2 0;
  magic3 = get_or buf 3 0;
  flags = word_at buf 4;
  size = word_at buf 8;
  align = word_at buf 12;
  top = word_at buf 16;
  level = word_at buf 20;
  off_e = word_at buf 24;
  scn = word_at buf 28;
  nentries = word_at buf 32;
  nempties = word_at buf 36;
  nchunks = word_at buf 40;
}

unfoldable pub td_read_header : Command
unfolding td_read decode_header
td_read_header = do buf ← td_read 0 header_size; modify_header (λ _. decode_header buf)

unfoldable pub td_write_header : Command
unfolding td_write encode_header
td_write_header td = td_write 0 (encode_header td.header) td

unfoldable pub td_read_uint : ℕ → Cmd ℕ
unfolding td_read
td_read_uint off = do buf ← td_read off 4; pure (word_at buf 0)

unfoldable pub td_write_uint : ℕ → ℕ → Command
unfolding td_write
td_write_uint off value = td_write off (word_bytes value)

unfoldable pub td_read_chunkhead : ℕ → Cmd Chunkhead
unfolding td_read decode_chunkhead
td_read_chunkhead off =
    if ltb off header_size
    then fail bounds
    else do buf ← td_read off chunkhead_size; pure (decode_chunkhead buf)

unfoldable pub td_write_chunkhead : ℕ → Chunkhead → Command
unfolding td_write encode_chunkhead
td_write_chunkhead off head = td_write off (encode_chunkhead head)

unfoldable pub td_read_keyhead : ℕ → Cmd Keyhead
unfolding td_read decode_keyhead
td_read_keyhead off =
    if ltb off header_size
    then fail bounds
    else do buf ← td_read off keyhead_size; pure (decode_keyhead buf)

unfoldable pub td_write_keyhead : ℕ → Keyhead → Command
unfolding td_write encode_keyhead
td_write_keyhead off head = td_write off (encode_keyhead head)
