-- ===== src/Space.antt =====
-- The free space of the resource: td_align (td_private.h), td_claim.c, td_extend.c, td_yield.c,
-- td_yield_all.c and td_yield_set_zero.c. Free chunks are linked by their `next` words, from
-- `header.off_e` on.
pub mod Align
pub mod Chain
pub mod Free
pub mod Relink
pub mod Fit
pub mod Scan
pub mod Cut
pub mod Hold
pub mod Grant
pub mod Return
pub mod Release
use sdbm_tree.Common.{
  ℕ, zero, suc, ◌+◌, ◌-◌, ◌*◌, ◌/◌, ◌%◌, Bool, true, false, not, ◌&&◌, List, [], ◌∷◌, ◌++◌, Option,
  none, some, ltb, leb, ◌==◌, if◌then◌else◌, length, replicate, add32, sub32, u32,
}
use sdbm_tree.Types.{Header, Chunkhead, Td, header_size, chunkhead_size, wipedeleted, has_flag}
use sdbm_tree.Types.Error.{space, bounds}
use sdbm_tree.Machine.{Run, Cmd, Command, ok, fail, stuck, pure, get, modify_header, ◌>>=◌, ◌>>◌}
use sdbm_tree.Io.{td_write, td_read_uint, td_write_uint, td_read_chunkhead, td_write_chunkhead}

unfoldable pub td_align : ℕ → ℕ → ℕ
td_align a n = if ltb 1 a && not (n % a == 0) then u32 ((n / a + 1) * a) else n

-- The loop of td_yield_set_zero; each round takes at least a byte off `size`.
unfoldable pub zero_loop : ℕ → ℕ → ℕ → Command
zero_loop zero off size = stuck
zero_loop (suc fuel) off size = if size == 0 then pure tt else do
  let l = if ltb 256 size then 256 else size
  td_write off (replicate l 0)
  zero_loop fuel (add32 off l) (size - l)

unfoldable pub td_yield_set_zero : ℕ → Command
td_yield_set_zero off = do
  size ← td_read_uint (add32 off 4)
  if ltb size 8 then fail bounds else zero_loop size (add32 off 8) (size - 8)

unfoldable pub td_yield : ℕ → Command
td_yield off = do
  td ← get
  modify_header (λ h. record h { off_e = off })
  if has_flag td.header.flags wipedeleted then td_yield_set_zero off else pure tt
  td_write_uint off td.header.off_e
  modify_header (λ h. record h { nempties = add32 h.nempties 1 })

-- The chunks of a value; on fuel, since the links may form a cycle.
unfoldable pub yield_loop : ℕ → ℕ → Command
yield_loop zero ptr = stuck
yield_loop (suc fuel) ptr = if ptr == 0 then pure tt else do
  next ← td_read_uint ptr
  td_yield ptr
  modify_header (λ h. record h { nchunks = sub32 h.nchunks 1 })
  yield_loop fuel next

unfoldable pub td_yield_all : ℕ → Command
td_yield_all ptr td = yield_loop (td.header.size + 1) ptr td

-- struct fitrec
pub record Fitrec : Type 0 where
  pub ptr : ℕ
  pub nxt : ℕ
  pub siz : ℕ
  pub lst : ℕ
  pub dif : ℕ

unfoldable pub td_claim_fit : ℕ → ℕ → Bool
td_claim_fit diff nicest = ltb nicest diff

-- `a - b` with `b` a `sizeof`, which is of 64 bits.
abbrev pub sub64 : ℕ → ℕ → ℕ
sub64 a b = (a + 0x1_0000_0000_0000_0000 - b) % 0x1_0000_0000_0000_0000

-- What the search of the free chunks gives: a perfect fit, already unlinked, or the table.
pub data Scanned : Type 0 where
  perfect : ℕ → Scanned
  table : List Fitrec → Scanned

-- The free chunk at `last`, or the header, is made to point to `next`.
unfoldable pub relink : ℕ → ℕ → ℕ → Command
relink ptr last next =
    if last == ptr then modify_header (λ h. record h { off_e = next }) else td_write_uint last next

unfoldable pub drop_empty : Command
drop_empty = modify_header (λ h. record h { nempties = sub32 h.nempties 1 })

-- The table with the chunk at `ptr` entered, where it can be used.
unfoldable pub enter : Bool → ℕ → ℕ → ℕ → Chunkhead → List Fitrec → List Fitrec
enter contiguous size ptr last c fits =
    if leb size (sub64 c.size chunkhead_size)
    then fits
      ++ record {
        ptr = ptr;
        nxt = c.next;
        siz = c.size;
        lst = last;
        dif = u32 (sub64 (sub64 c.size chunkhead_size) size);
      }
        ∷ []
    else if ltb c.size size && not contiguous
    then fits
      ++ record { ptr = ptr; nxt = c.next; siz = c.size; lst = last; dif = sub32 size c.size } ∷ []
    else fits

unfoldable pub scan : ℕ → Bool → ℕ → ℕ → ℕ → List Fitrec → Cmd Scanned
scan zero contiguous size ptr last fits = stuck
scan (suc fuel) contiguous size ptr last fits = if ptr == 0 then pure (table fits) else do
  c ← td_read_chunkhead ptr
  let fits' = enter contiguous size ptr last c fits
  if size == c.size
      then (do relink ptr last c.next; drop_empty; pure (perfect ptr))
      else if length fits' == 8
      then pure (table fits')
      else scan fuel contiguous size c.next ptr fits'

-- The record with the largest difference, the first of those; the first record if all are zero.
unfoldable pub choose : ℕ → Fitrec → List Fitrec → Fitrec
choose nicest choice [] = choice
choose nicest choice (r ∷ rs) =
    choose (if td_claim_fit r.dif nicest then r.dif else nicest)
      (if td_claim_fit r.dif nicest then r else choice) rs

-- TDERR_SPACE from td_claim_ leaves the aligned size behind.
pub data Claim : Type 0 where
  claimed : ℕ → ℕ → Claim
  no_space : ℕ → Claim

-- A chosen chunk is cut in two, or used whole.
unfoldable pub use_chunk : ℕ → Fitrec → Cmd Claim
use_chunk size r =
    if ltb size r.siz
    then (do
      let emptyoff = add32 r.ptr size
      td_write_chunkhead emptyoff
          (record { next = r.nxt; size = sub32 r.siz size; checksum = 0; refcount = 0 })
      relink r.ptr r.lst emptyoff
      pure (claimed r.ptr size))
    else (do relink r.ptr r.lst r.nxt; drop_empty; pure (claimed r.ptr r.siz))

unfoldable pub claim_scanned : ℕ → Scanned → Cmd Claim
claim_scanned size (perfect ptr) = pure (claimed ptr size)
claim_scanned size (table []) = pure (no_space size)
claim_scanned size (table (r ∷ rs)) = use_chunk size (choose 0 r (r ∷ rs))

unfoldable pub td_claim_ : Bool → ℕ → Cmd Claim
td_claim_ contiguous wanted = do
  td ← get
  let size = td_align td.header.align wanted
  if td.header.off_e == 0 then pure (no_space wanted) else do
    found ← scan (td.header.size + 1) contiguous size td.header.off_e td.header.off_e []
    claim_scanned size found

-- `extend` is the callback, which td_claim has found to be set.
unfoldable pub td_extend : (Header → ℕ → ℕ) → ℕ → Command
td_extend extend wanted = do
  td ← get
  let granted = extend td.header wanted
  let oldsize = td.header.size
  if ltb (sub32 0xffff_ffff granted) oldsize
      then fail space
      else if ltb chunkhead_size granted
      then (do
        modify_header (λ h. record h { size = add32 h.size granted })
        td_write_chunkhead oldsize (record { next = 0; size = granted; checksum = 0; refcount = 0 })
        td_yield oldsize)
      else fail space

-- The outcome of td_claim_ in td_claim, where its error is passed on.
unfoldable pub granted_or_space : Claim → Cmd (ℕ × ℕ)
granted_or_space (claimed off size) = pure (off, size)
granted_or_space (no_space size) = fail space

unfoldable pub claim_extending : Bool → Option (Header → ℕ → ℕ) → Claim → Cmd (ℕ × ℕ)
claim_extending contiguous extend (claimed off size) = pure (off, size)
claim_extending contiguous none (no_space size) = fail space
claim_extending contiguous (some extend) (no_space size) = do
  td ← get
  td_extend extend (
      if ltb td.header.size size
      then size
      else if has_flag td.header.flags sdbm_tree.Types.sparse
      then size
      else td.header.size)
  again ← td_claim_ contiguous size
  granted_or_space again

-- The offset and the size that were granted.
unfoldable pub td_claim : Bool → ℕ → Cmd (ℕ × ℕ)
td_claim contiguous size = do
  first ← td_claim_ contiguous size
  td ← get
  claim_extending contiguous td.extend first
