-- ===== src/Tdt.antt =====
-- tdt_t of td_types.h, td_read_keydata.c and the calls of memcpy into a tdt_t. A tdt_t is a pointer,
-- `none` if NULL, to a buffer, and a size; a buffer that `realloc` gave has one byte more, set to 0.
pub mod Contents
pub mod Extra
pub mod Shifted
use sdbm_tree.Common.{
  ℕ, ◌+◌, Bool, ◌&&◌, List, [], ◌∷◌, ◌++◌, Option, none, some, ltb, ◌==◌, if◌then◌else◌, length,
  take, drop, replicate, add32, sub32, bit_or,
}
use sdbm_tree.Types.{
  Keyhead, Td, header_size, keyhead_size, alloctdt, allockey, checksum_flag, has_flag,
}
use sdbm_tree.Types.Error.{bounds, nomem}
use sdbm_tree.Machine.{Cmd, fail, pure, get, ◌>>=◌, ◌>>◌}
use sdbm_tree.Io.{td_read}
use sdbm_tree.Checksum.{td_checksum_verify}

pub record Tdt : Type 0 where
  pub mem : Option (List ℕ)
  pub size : ℕ

-- { NULL, 0 }
abbrev pub empty : Tdt
empty = record { mem = none; size = 0 }

-- A caller's own array of so many bytes.
abbrev pub array : ℕ → Tdt
array n = record { mem = some (replicate n 0); size = n }

abbrev pub buffer_of : Option (List ℕ) → List ℕ
buffer_of none = []
buffer_of (some buf) = buf

-- The bytes that a tdt_t stands for.
unfoldable pub bytes_of : Tdt → List ℕ
bytes_of t = take t.size (buffer_of t.mem)

-- memcpy(buf + off, bytes, …)
unfoldable pub overlay : List ℕ → ℕ → List ℕ → List ℕ
overlay buf off bytes = take off buf ++ (bytes ++ drop (off + length bytes) buf)

-- The same at a pointer that may be NULL, where no byte may be copied.
abbrev pub overlaid : Option (List ℕ) → ℕ → List ℕ → Option (List ℕ)
overlaid none off bytes = none
overlaid (some buf) off bytes = some (overlay buf off bytes)

-- The buffer after `realloc(buf, n + 1)` and `mem[n] = 0`.
unfoldable pub regrown : List ℕ → ℕ → List ℕ
regrown buf n = take n (buf ++ replicate n 0) ++ 0 ∷ []

unfoldable pub is_null : Option (List ℕ) → Bool
is_null none = Bool.true
is_null (some buf) = Bool.false

unfoldable pub is_set : Option (ℕ → Bool) → Bool
is_set none = Bool.false
is_set (some f) = Bool.true

-- Whether a tdt_t that is to be filled is allocated: it is { NULL, 0 }, a flag of `mask` asks for
-- it, and the callback is set.
unfoldable pub reallocating : Td → Tdt → ℕ → ℕ → Bool
reallocating td t flags mask =
    is_null t.mem && (t.size == 0) && has_flag flags mask && is_set td.realloc

-- td->realloc(td, ptr, n, arg) != 0
unfoldable pub realloc_succeeds : Option (ℕ → Bool) → ℕ → Bool
realloc_succeeds none n = Bool.false
realloc_succeeds (some f) n = f n

-- The container that td_read_keydata fills, for a key of `keysize` bytes.
unfoldable pub key_room : Td → Tdt → ℕ → ℕ → Cmd Tdt
key_room td key flags keysize =
    if reallocating td key flags (bit_or alloctdt allockey)
    then (if realloc_succeeds td.realloc (add32 keysize 1)
        then pure (record { mem = some (regrown [] keysize); size = keysize })
        else fail nomem)
    else if ltb key.size keysize
    then pure key
    else pure (record key { size = keysize })

unfoldable pub td_read_keydata : ℕ → Keyhead → Tdt → ℕ → Cmd Tdt
td_read_keydata keyoff keyhead key flags = if ltb keyoff header_size then fail bounds else do
  td ← get
  let flags' = bit_or flags td.header.flags
  room ← key_room td key flags' (sub32 keyhead.size keyhead_size)
  bytes ← td_read (add32 keyoff keyhead_size) room.size
  if has_flag flags' checksum_flag && (room.size == sub32 keyhead.size keyhead_size)
      then td_checksum_verify bytes keyhead.checksum
      else pure tt
  pure (record room { mem = overlaid room.mem 0 bytes })
