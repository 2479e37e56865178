-- ===== src/Stream.antt =====
-- Values that are read from and written to a stream: td_store_value_stream.c, td_put_stream.c,
-- td_put_stream_locked_key.c, td_read_value_stream.c, td_get_stream.c and tdc_get_stream.c. What the
-- calls of read(2) give is a list, and write(2) is a function; the bytes written before an error are
-- not kept.
pub mod Empty
pub mod Written
use sdbm_tree.Common.{
  ℕ, zero, suc, ◌+◌, ◌-◌, false, List, [], ◌∷◌, ◌++◌, Option, none, some, ltb, ◌==◌, if◌then◌else◌,
  length, take, drop, add32, sub32, bit_or,
}
use sdbm_tree.Types.{header_size, chunkhead_size, checksum_flag, has_flag}
use sdbm_tree.Types.Cmp.{less, equal, more}
use sdbm_tree.Types.Error.{bounds, space, notfound}
use sdbm_tree.Machine.{Cmd, Command, fail, stuck, pure, get, check2, ◌>>=◌, ◌>>◌}
use sdbm_tree.Io.{td_read, td_read_header, td_read_chunkhead, td_write_uint}
use sdbm_tree.Checksum.{td_checksum_verify}
use sdbm_tree.Space.{td_claim, td_yield_all}
use sdbm_tree.Tdt.{Tdt, td_read_keydata, overlay}
use sdbm_tree.Value.{td_store_valuechunk}
use sdbm_tree.Search.{path_init, td_iterate}
use sdbm_tree.Update.{td_put_key, give_back, read_into}
use sdbm_tree.Lock.{locked}
use sdbm_tree.Db.{with_flags}
use sdbm_tree.Cursor.{Tdc, current}

-- What read(2) gave: -1, or the bytes; none at the end of the stream.
pub data Reading : Type 0 where
  failure : Reading
  bytes : List ℕ → Reading

-- write(2) on what was written before and the bytes that it is offered: how many it takes, 0 where it
-- returns -1 or 0.
abbrev pub Writer : Type 0
Writer = List ℕ → List ℕ → ℕ

-- The size of `chunk`
abbrev pub stream_chunk : ℕ
stream_chunk = 4080

unfoldable pub td_update_valuechunk : (chunkoff next : ℕ) → Command
td_update_valuechunk chunkoff next = td_write_uint chunkoff next

-- The chunk before this one, if there is one, is made to point to it.
unfoldable pub link_last : (lastchunkoff chunkoff : ℕ) → Command
link_last lastchunkoff chunkoff =
    if lastchunkoff == 0 then pure tt else td_update_valuechunk lastchunkoff chunkoff

-- `off` is the first chunk and `lastchunkoff` the last one, 0 as long as there is none.
pub record Stored : Type 0 where
  pub off : ℕ
  pub lastchunkoff : ℕ

-- `if ((*off) == 0) (*off) = chunkoff`
unfoldable pub first_or : ℕ → ℕ → ℕ
first_or off chunkoff = if off == 0 then chunkoff else off

-- The inner loop: the bytes of `chunk` from `o` on, of which `r` were read.
unfoldable pub store_read : ℕ → List ℕ → (r o : ℕ) → (refcount flags : ℕ) → Stored → Cmd Stored
store_read zero chunk r o refcount flags s = stuck
store_read (suc fuel) chunk r o refcount flags s =
    if ltb o r
    then (do
      (chunkoff, given) ← td_claim false (add32 (r - o) chunkhead_size)
      let off = first_or s.off chunkoff
      let useful = sub32 given chunkhead_size
      check2 (td_store_valuechunk chunkoff 0 (take useful (drop o chunk)) refcount flags)
          (td_yield_all off)
      check2 (link_last s.lastchunkoff chunkoff) (td_yield_all off)
      store_read fuel chunk r (add32 o useful) refcount flags
          (record { off = off; lastchunkoff = chunkoff }))
    else pure s

-- The outer loop, over the calls of read(2); at the end of the list every further call gives the end
-- of the stream. `stack` is what the array `chunk` holds when it is not written yet.
unfoldable pub stream_loop : ℕ → List ℕ → List Reading → (refcount flags : ℕ) → Stored → Cmd ℕ
stream_loop zero stack readings refcount flags s = stuck
stream_loop (suc fuel) stack [] refcount flags s =
    if s.off == 0 then stream_loop fuel stack [] refcount flags s else pure s.off
stream_loop (suc fuel) stack (failure ∷ readings) refcount flags s = fail space
stream_loop (suc fuel) stack (bytes b ∷ readings) refcount flags s = do
  td ← get
  if (length b == 0)
      then (if s.off == 0 then stream_loop fuel stack readings refcount flags s else pure s.off)
      else (do
        s' ←
            store_read (length b + td.header.size + 1) (overlay stack 0 b) (length b) 0 refcount
              flags s
        stream_loop fuel stack readings refcount flags s')

unfoldable pub td_store_value_stream : ℕ → List ℕ → List Reading → (refcount flags : ℕ) → Cmd ℕ
td_store_value_stream fuel stack readings refcount flags =
    stream_loop fuel stack readings refcount flags (record { off = 0; lastchunkoff = 0 })

unfoldable pub td_put_stream_locked_key : ℕ → List ℕ → List ℕ → List Reading → ℕ → Command
td_put_stream_locked_key fuel stack key readings flags = do
  td_read_header
  valueptr ← td_store_value_stream fuel stack readings 1 flags
  give_back (td_put_key key valueptr flags) valueptr

unfoldable pub td_put_stream : ℕ → List ℕ → List ℕ → List Reading → ℕ → Command
td_put_stream fuel stack key readings flags =
    with_flags flags (λ f. locked (td_put_stream_locked_key fuel stack key readings f))

-- The loop that writes a chunk; each round writes a byte at least. The result is all that was
-- written.
unfoldable pub write_chunk : ℕ → Writer → (written chunk : List ℕ) → Cmd (List ℕ)
write_chunk fuel write written [] = pure written
write_chunk zero write written (b ∷ chunk) = stuck
write_chunk (suc fuel) write written (b ∷ chunk) =
    let w = write written (b ∷ chunk) in
    if w == 0
    then fail space
    else write_chunk fuel write (written ++ take w (b ∷ chunk)) (drop w (b ∷ chunk))

-- td_read_value_stream_write_chunk
unfoldable pub td_read_value_stream_write_chunk : Writer → (written chunk : List ℕ) → Cmd (List ℕ)
td_read_value_stream_write_chunk write written chunk =
    write_chunk (length chunk) write written chunk

-- The loop of td_read_value_stream, over the chunks from `ptr` on.
unfoldable pub read_stream : ℕ → Writer → (ptr flags : ℕ) → List ℕ → Cmd (List ℕ)
read_stream zero write ptr flags written = stuck
read_stream (suc fuel) write ptr flags written = if ptr == 0 then pure written else do
  chunkhead ← td_read_chunkhead ptr
  chunkdata ← td_read (add32 ptr chunkhead_size) (sub32 chunkhead.size chunkhead_size)
  if has_flag flags checksum_flag then td_checksum_verify chunkdata chunkhead.checksum else pure tt
  written' ← td_read_value_stream_write_chunk write written chunkdata
  read_stream fuel write chunkhead.next flags written'

-- What is written to the stream.
unfoldable pub td_read_value_stream : (ptr : ℕ) → Writer → ℕ → Cmd (List ℕ)
td_read_value_stream ptr write flags =
    if ltb ptr header_size
    then fail bounds
    else do td ← get; read_stream (td.header.size + 1) write ptr (bit_or flags td.header.flags) []

-- No stream where `fd < 0`.
unfoldable pub write_value : Option Writer → (ptr flags : ℕ) → Cmd (List ℕ)
write_value none ptr flags = pure []
write_value (some write) ptr flags = td_read_value_stream ptr write flags

unfoldable pub td_get_stream_locked : List ℕ → Option Writer → ℕ → Cmd (List ℕ)
td_get_stream_locked key fd flags = do
  td_read_header
  td ← get
  if td.header.top == 0 then fail notfound else do
    path ← td_iterate (path_init td.header.top) key 0
    elim path.head.cmp [
      | equal ↦ write_value fd path.head.keyhead.value flags
      | less ↦ fail notfound
      | more ↦ fail notfound
    ]

unfoldable pub td_get_stream : List ℕ → Option Writer → ℕ → Cmd (List ℕ)
td_get_stream key fd flags = with_flags flags (λ f. locked (td_get_stream_locked key fd f))

unfoldable pub tdc_get_stream_locked :
    Tdc → Option Tdt → Option Writer → ℕ → Cmd (Option Tdt × List ℕ)
tdc_get_stream_locked tdc key fd flags = do
  path ← current tdc
  key' ← read_into key (λ t. td_read_keydata path.head.ptr path.head.keyhead t flags)
  written ← write_value fd path.head.keyhead.value flags
  pure (key', written)

unfoldable pub tdc_get_stream : Tdc → Option Tdt → Option Writer → ℕ → Cmd (Option Tdt × List ℕ)
tdc_get_stream tdc key fd flags = locked (tdc_get_stream_locked tdc key fd flags)
