-- ===== src/Types.antt =====
-- The structures of td_types.h and the constants of td.h. An `unsigned` is a number below 2 ^ 32.
use sdbm_tree.Common.{ℕ, Bool, List, Option, not, ◌==◌, bit_and}

-- The bits of TDFLG_*.
abbrev pub mustexist : ℕ
mustexist = 1

abbrev pub duplkeys : ℕ
duplkeys = 2

abbrev pub extend_flag : ℕ
extend_flag = 4

abbrev pub alloctdt : ℕ
alloctdt = 8

abbrev pub nooverwrite : ℕ
nooverwrite = 16

abbrev pub wipedeleted : ℕ
wipedeleted = 32

abbrev pub deleteall : ℕ
deleteall = 64

abbrev pub checksum_flag : ℕ
checksum_flag = 128

abbrev pub sparse : ℕ
sparse = 256

abbrev pub partial : ℕ
partial = 512

abbrev pub exact : ℕ
exact = 1024

abbrev pub allockey : ℕ
allockey = 2048

-- `flags & f`, as a condition.
unfoldable pub has_flag : ℕ → ℕ → Bool
has_flag flags f = not (bit_and flags f == 0)

-- The values of TDERR_*.
pub data Error : Type 0 where
  checksum space dup inval notfound bounds lock_error io init nomem struct_error overflow : Error

-- The result of a comparison, brought to -1, 0 or 1.
pub data Cmp : Type 0 where
  less equal more : Cmp

-- struct keyhead
pub record Keyhead : Type 0 where
  pub value : ℕ
  pub size : ℕ
  pub scn : ℕ
  pub checksum : ℕ
  pub next : ℕ
  pub previous : ℕ

-- struct chunkhead
pub record Chunkhead : Type 0 where
  pub next : ℕ
  pub size : ℕ
  pub checksum : ℕ
  pub refcount : ℕ

-- struct td_header
pub record Header : Type 0 where
  pub magic0 : ℕ
  pub magic1 : ℕ
  pub magic2 : ℕ
  pub magic3 : ℕ
  pub flags : ℕ
  pub size : ℕ
  pub align : ℕ
  pub top : ℕ
  pub level : ℕ
  pub off_e : ℕ
  pub scn : ℕ
  pub nentries : ℕ
  pub nempties : ℕ
  pub nchunks : ℕ

-- The `sizeof` of the three.
abbrev pub header_size : ℕ
header_size = 44

abbrev pub keyhead_size : ℕ
keyhead_size = 24

abbrev pub chunkhead_size : ℕ
chunkhead_size = 16

-- struct stackelt
pub record StackElt : Type 0 where
  pub ptr : ℕ
  pub keyhead : Keyhead
  pub cmp : Cmp

-- struct path: its elements below `size`, the head first. The elements above `size` are written
-- before they are read, so they are not kept, and `head` is the first element of the list.
abbrev pub KeyPath : Type 0
KeyPath = List StackElt

abbrev pub td_maxdepth : ℕ
td_maxdepth = 128

abbrev pub td_maxpath : ℕ
td_maxpath = 256

abbrev pub max_defraglevel : ℕ
max_defraglevel = 512

-- The resource behind a btree: a byte at each offset.
abbrev pub Memory : Type 0
Memory = ℕ → ℕ

-- struct td. The callbacks that a user may set are fields; `read` and `write` are those of
-- td_init_mem.c, which copy from and to `mem`. A lock callback gives `none` on success, `extend`
-- the number of bytes granted, and `realloc` whether so many bytes were had.
pub record Td : Type 0 where
  pub header : Header
  pub locked : ℕ
  pub lock : Option (Bool → Option Error)
  pub compare : List ℕ → List ℕ → Bool → Cmp
  pub extend : Option (Header → ℕ → ℕ)
  pub realloc : Option (ℕ → Bool)
  pub maxdepth : ℕ
  pub mem : Memory
