-- ===== src/Init.antt =====
-- td_init.c, td_init2.c and td_init_mem.c.
pub mod Fresh
use sdbm_tree.Common.{
  ℕ, true, false, List, [], ◌∷◌, none, some, ltb, ◌==◌, if◌then◌else◌, get_or, sub32,
}
use sdbm_tree.Types.{Header, Memory, Td, Cmp, header_size, mustexist, extend_flag, sparse, has_flag}
use sdbm_tree.Types.Cmp.{less, equal, more}
use sdbm_tree.Types.Error.{init}
use sdbm_tree.Machine.{Run, Command, err, fail, get, put, modify_header, ◌>>=◌, ◌>>◌}
use sdbm_tree.Memory.{slice}
use sdbm_tree.Io.{decode_header, td_write_header, td_write_chunkhead}
use sdbm_tree.Compare.{memcmp, td_compare}
use sdbm_tree.Space.{td_align}

abbrev pub null_header : Header
null_header = record {
  magic0 = 0;
  magic1 = 0;
  magic2 = 0;
  magic3 = 0;
  flags = 0;
  size = 0;
  align = 0;
  top = 0;
  level = 0;
  off_e = 0;
  scn = 0;
  nentries = 0;
  nempties = 0;
  nchunks = 0;
}

-- memset(td, 0, sizeof(td_t)), and `resource.mem`. The comparison is set by td_init2.
unfoldable pub td_init : Memory → Td
td_init mem = record {
  header = null_header;
  locked = 0;
  lock = none;
  compare = λ a b part. equal;
  extend = none;
  realloc = none;
  maxdepth = 0;
  mem = mem;
}

-- "tdi", with its end
abbrev pub ident : List ℕ
ident = b't' ∷ b'd' ∷ b'i' ∷ 0 ∷ []

-- The header of a new btree, with the free space at `off_e` in `nempties` chunks.
abbrev pub new_header : (size align flags off_e nempties : ℕ) → List ℕ → Header
new_header size align flags off_e nempties ident = record {
  magic0 = get_or ident 0 0;
  magic1 = get_or ident 1 0;
  magic2 = get_or ident 2 0;
  magic3 = 0;
  flags = flags;
  size = size;
  align = align;
  top = 0;
  level = 1;
  off_e = off_e;
  scn = 0;
  nentries = 0;
  nempties = nempties;
  nchunks = 0;
}

unfoldable pub td_init_create : List ℕ → (align flags : ℕ) → Command
td_init_create ident align flags = do
  td ← get
  let off_echunk = td_align align header_size
  modify_header (λ h. new_header h.size align flags off_echunk 1 ident)
  td_write_header
  td_write_chunkhead off_echunk
      (record { next = 0; size = sub32 td.header.size off_echunk; checksum = 0; refcount = 0 })

unfoldable pub td_init_create_sparse : List ℕ → (align flags : ℕ) → Command
td_init_create_sparse ident align flags = do
  modify_header (λ h. new_header h.size align flags 0 0 ident)
  td_write_header

unfoldable pub header_of_resource : Memory → Header
header_of_resource mem = decode_header (slice mem 0 header_size)

unfoldable pub is_equal : Cmp → sdbm_tree.Common.Bool
is_equal less = false
is_equal equal = true
is_equal more = false

-- `td->read` copies from memory, and does not fail.
unfoldable pub td_init2 : List ℕ → (align flags : ℕ) → Command
td_init2 ident align flags = do
  td ← get
  if is_equal (memcmp (slice td.mem 0 4) ident 4)
      then modify_header (λ h. header_of_resource td.mem)
      else if has_flag flags mustexist
      then fail init
      else if has_flag flags sparse
      then td_init_create_sparse ident 1 flags
      else td_init_create ident align flags
  td' ← get
  put (record td' { compare = td_compare })

unfoldable pub td_init_mem : (flags : ℕ) → Memory → (size : ℕ) → Run (Unit {0})
td_init_mem flags mem size =
    let td = td_init mem in
    if has_flag flags extend_flag
    then err init td
    else td_init2 ident 1 flags (record td { header = record null_header { size = size } })
