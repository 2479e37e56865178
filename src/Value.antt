-- ===== src/Value.antt =====
-- Values, in chains of chunks: td_store_value.c, td_store_valuechunk.c, td_read_value.c and
-- td_unlink_value.c.
pub mod Chunks
pub mod Read
pub mod Store
use sdbm_tree.Common.{
  ℕ, zero, suc, ◌+◌, ◌-◌, Bool, false, ◌&&◌, List, [], ◌∷◌, ◌++◌, some, ltb, leb, ◌==◌,
  if◌then◌else◌, length, take, drop, add32, sub32, bit_or,
}
use sdbm_tree.Types.{header_size, chunkhead_size, alloctdt, checksum_flag, has_flag}
use sdbm_tree.Types.Error.{bounds, inval, nomem, struct_error}
use sdbm_tree.Machine.{Cmd, Command, fail, stuck, pure, get, modify_header, check2, ◌>>=◌, ◌>>◌}
use sdbm_tree.Io.{td_read, td_write, td_read_chunkhead, td_write_chunkhead}
use sdbm_tree.Checksum.{td_checksum_create, td_checksum_verify}
use sdbm_tree.Space.{td_claim, td_yield_all}
use sdbm_tree.Tdt.{Tdt, buffer_of, overlaid, regrown, reallocating, realloc_succeeds}

-- td_checksum_create if the flags ask for it, else 0
unfoldable pub checksum_field : ℕ → List ℕ → ℕ
checksum_field flags bytes = if has_flag flags checksum_flag then td_checksum_create bytes else 0

unfoldable pub count_chunk : Command
count_chunk = modify_header (λ h. record h { nchunks = add32 h.nchunks 1 })

unfoldable pub td_store_valuechunk : (chunkoff next : ℕ) → List ℕ → (refcount flags : ℕ) → Command
td_store_valuechunk chunkoff next bytes refcount flags = do
  td_write_chunkhead chunkoff (record {
    next = next;
    size = add32 (length bytes) chunkhead_size;
    checksum = checksum_field flags bytes;
    refcount = refcount;
  })
  td_write (add32 chunkoff chunkhead_size) bytes
  count_chunk

unfoldable pub td_store_empty_value : (refcount flags : ℕ) → Cmd ℕ
td_store_empty_value refcount flags = do
  (chunkoff, given) ← td_claim false chunkhead_size
  if given == chunkhead_size then pure tt else fail struct_error
  td_write_chunkhead chunkoff (record {
    next = 0;
    size = chunkhead_size;
    checksum = checksum_field flags [];
    refcount = refcount;
  })
  count_chunk
  pure chunkoff

-- struct tdvbuf: a segment of the value, and how many bytes of it, from its end, are stored.
pub record Tdvbuf : Type 0 where
  pub value : List ℕ
  pub used : ℕ

-- struct tdvvec: the segment at `offset`, and those before it, the nearest first.
pub record Tdvvec : Type 0 where
  pub curval : Tdvbuf
  pub before : List Tdvbuf

-- `if (vec->offset) --(vec->offset)`
unfoldable pub step_back : Tdvbuf → List Tdvbuf → Tdvvec
step_back cur [] = record { curval = cur; before = [] }
step_back cur (b ∷ before) = record { curval = b; before = before }

unfoldable pub td_store_chunk_nocopy :
    (chunkoff size next : ℕ) → Tdvvec → (refcount flags : ℕ) → Cmd Tdvvec
td_store_chunk_nocopy chunkoff size next vec refcount flags = do
  let cur = vec.curval
  check2
      (td_store_valuechunk chunkoff next
        (take size (drop (length cur.value - (cur.used + size)) cur.value)) refcount flags)
      (td_yield_all chunkoff)
  let cur' = record cur { used = cur.used + size }
  pure (
      if cur'.used == length cur.value
      then step_back cur' vec.before
      else record { curval = cur'; before = vec.before })

-- The bytes that the loop of td_store_chunk_copy takes from a segment: those behind the first
-- `used` ones.
abbrev pub taken : Tdvbuf → List ℕ
taken cur = drop cur.used cur.value

abbrev pub room_left : Tdvbuf → ℕ
room_left cur = length cur.value - cur.used

-- The loop of td_store_chunk_copy: what is still to be filled of the chunk, and what was filled,
-- from its end.
pub record Gathered : Type 0 where
  pub missing : ℕ
  pub chunk : List ℕ
  pub vec : Tdvvec

unfoldable pub gather : Tdvbuf → List Tdvbuf → ℕ → List ℕ → Cmd Gathered
gather cur [] size chunk =
    if leb (room_left cur) size
    then (if size - room_left cur == 0
        then pure (record {
          missing = 0;
          chunk = taken cur ++ chunk;
          vec = record { curval = record cur { used = length cur.value }; before = [] };
        })
        else fail struct_error)
    else pure (record { missing = size; chunk = chunk; vec = record { curval = cur; before = [] } })
gather cur (b ∷ before) size chunk =
    let rest = gather b before (size - room_left cur) (taken cur ++ chunk) in
    if leb (room_left cur) size
    then rest
    else pure (record {
      missing = size;
      chunk = chunk;
      vec = record { curval = cur; before = b ∷ before };
    })

-- The rest of the chunk, from the end of the segment that the loop stopped at.
unfoldable pub fill_front : Gathered → List ℕ × Tdvvec
fill_front g =
    let cur = g.vec.curval in
    if g.missing == 0 then (g.chunk, g.vec) else (
      drop (length cur.value - g.missing) cur.value ++ g.chunk,
      record { curval = record cur { used = cur.used + g.missing }; before = g.vec.before },
    )

unfoldable pub td_store_chunk_copy :
    (chunkoff size next : ℕ) → Tdvvec → (refcount flags : ℕ) → Cmd Tdvvec
td_store_chunk_copy chunkoff size next vec refcount flags = do
  gathered ← gather vec.curval vec.before size []
  let (chunk, vec') = fill_front gathered
  check2 (td_store_valuechunk chunkoff next chunk refcount flags) (td_yield_all chunkoff)
  pure vec'

unfoldable pub td_store_chunk :
    (chunkoff size next : ℕ) → Tdvvec → (refcount flags : ℕ) → Cmd Tdvvec
td_store_chunk chunkoff size next vec refcount flags =
    if leb size (room_left vec.curval)
    then td_store_chunk_nocopy chunkoff size next vec refcount flags
    else td_store_chunk_copy chunkoff size next vec refcount flags

-- The loop of td_store_value: it stores from the end of the value on, each chunk before the last.
unfoldable pub store_loop : ℕ → (needed next : ℕ) → Tdvvec → (refcount flags : ℕ) → Cmd ℕ
store_loop zero needed next vec refcount flags = stuck
store_loop (suc fuel) needed next vec refcount flags = if needed == 0 then pure next else do
  (chunkoff, given) ← td_claim false (add32 needed chunkhead_size)
  if ltb given chunkhead_size then fail struct_error else pure tt
  let useful = sub32 given chunkhead_size
  vec' ← td_store_chunk chunkoff useful next vec refcount flags
  store_loop fuel (sub32 needed useful) chunkoff vec' refcount flags

abbrev pub unused : List ℕ → Tdvbuf
unused bytes = record { value = bytes; used = 0 }

-- The segments from the last to the first.
unfoldable pub backwards : Tdvvec → List (List ℕ) → Tdvvec
backwards vec [] = vec
backwards vec (v ∷ vs) =
    backwards (record { curval = unused v; before = vec.curval ∷ vec.before }) vs

unfoldable pub total_size : List (List ℕ) → ℕ
total_size [] = 0
total_size (v ∷ vs) = add32 (length v) (total_size vs)

-- `value` is the array of segments; the result is the offset of the first chunk.
unfoldable pub td_store_value : List (List ℕ) → (refcount flags : ℕ) → Cmd ℕ
td_store_value [] refcount flags = fail inval
td_store_value (v ∷ vs) refcount flags = do
  let needed = total_size (v ∷ vs)
  td ← get
  if needed == 0
      then td_store_empty_value refcount flags
      else store_loop (needed + td.header.size + 1) needed 0
          (backwards (record { curval = unused v; before = [] }) vs) refcount flags

-- A value container is grown for the next chunk, if it may be.
unfoldable pub grow : Bool → ℕ → Tdt → Cmd Tdt
grow may wanted value td =
    if may && ltb value.size wanted
    then (if realloc_succeeds td.realloc (add32 wanted 1)
        then pure (record { mem = some (regrown (buffer_of value.mem) wanted); size = wanted }) td
        else fail nomem td)
    else pure value td

-- The loop of td_read_value, over the chunks from `ptr` on; `off` bytes are in the container.
unfoldable pub read_loop : ℕ → (flags : ℕ) → Bool → (ptr off : ℕ) → Tdt → Cmd Tdt
read_loop zero flags may ptr off value = stuck
read_loop (suc fuel) flags may ptr off value =
    if ptr == 0 then pure (record value { size = off }) else do
      chunkhead ← td_read_chunkhead ptr
      let chunkdatasize = sub32 chunkhead.size chunkhead_size
      chunkdata ← td_read (add32 ptr chunkhead_size) chunkdatasize
      if has_flag flags checksum_flag
          then td_checksum_verify chunkdata chunkhead.checksum
          else pure tt
      let wantedsize = add32 off chunkdatasize
      value' ← grow may wantedsize value
      if ltb value'.size wantedsize
          then pure
              (record value' { mem = overlaid value'.mem off (take (value'.size - off) chunkdata) })
          else read_loop fuel flags may chunkhead.next wantedsize
              (record value' { mem = overlaid value'.mem off chunkdata })

unfoldable pub td_read_value : ℕ → Tdt → ℕ → Cmd Tdt
td_read_value ptr value flags = if ltb ptr header_size then fail bounds else do
  td ← get
  let flags' = bit_or flags td.header.flags
  read_loop (td.header.size + 1) flags' (reallocating td value flags' alloctdt) ptr 0 value

unfoldable pub td_unlink_value : ℕ → Command
td_unlink_value valueptr = do
  chunkheader ← td_read_chunkhead valueptr
  if leb chunkheader.refcount 1
      then td_yield_all valueptr
      else td_write_chunkhead valueptr
          (record chunkheader { refcount = sub32 chunkheader.refcount 1 })
