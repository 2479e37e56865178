-- ===== src/Backend.antt =====
-- The resources that a btree can lie on: td_init_fd.c and td_init_chunk.c on files, td_init_malloc.c
-- on the C heap and td_init_mmap.c on mapped files. The system's calls are parameters.
pub mod Patch
pub mod Serve
pub mod Transfer
use sdbm_tree.Common.{
  ℕ, zero, suc, ◌+◌, ◌-◌, ◌%◌, ◌*◌, Bool, not, ◌&&◌, List, [], ◌∷◌, ◌++◌, Option, none, some, ltb,
  ◌==◌, if◌then◌else◌, length, take, drop, replicate, add32, sub32, u32,
}
use sdbm_tree.Types.{Td, Header, Memory, Error, extend_flag, alloctdt, sparse, has_flag}
use sdbm_tree.Types.Error.{init, io}
use sdbm_tree.Machine.{Run, err}
use sdbm_tree.Init.{td_init, td_init2, null_header, ident}

-- What the source calls on an open file: lseek(fd, off, SEEK_SET), lseek(fd, 0, SEEK_END), read and
-- write, each `none` where the call gives -1.
pub record File (Os : Type 0) : Type 0 where
  pub seek : ℕ → Os → Option ℕ × Os
  pub seek_end : Os → Option ℕ × Os
  pub read : ℕ → Os → Option (List ℕ) × Os
  pub write : List ℕ → Os → Option ℕ × Os

pub data Outcome (A Os : Type 0) : Type 0 where
  done : A → Os → Outcome A Os
  failed : Error → Os → Outcome A Os
  hung : Outcome A Os

module _ {Os : Type 0} (file : File Os) where
  -- CHECKIO(lseek(fd, off, SEEK_SET), off), and what follows it: results are compared as `unsigned`.
  unfoldable pub at_offset : {A : Type 0} → ℕ → (Os → Outcome A Os) → Os → Outcome A Os
  at_offset off next os =
      let (at, os') = file.seek off os in
      elim at [
        | none ↦ failed io os'
        | some n ↦ if u32 n == u32 off then next os' else failed io os'
      ]

  -- The size of the next transfer.
  unfoldable pub piece : ℕ → ℕ
  piece size = if ltb size 1024 then size else 1024

  unfoldable pub read_loop : ℕ → ℕ → List ℕ → Os → Outcome (List ℕ) Os
  read_loop zero size got os = if size == 0 then done got os else hung
  read_loop (suc fuel) size got os =
      if size == 0
      then done got os
      else (let (r, os') = file.read (piece size) os in
          elim r [
            | none ↦ failed io os'
            | some buf ↦
                if length buf == 0
                then failed io os'
                else read_loop fuel (sub32 size (length buf)) (got ++ buf) os'
          ])

  unfoldable pub td_fd_read : (off size : ℕ) → Os → Outcome (List ℕ) Os
  td_fd_read off size os = at_offset off (read_loop size size []) os

  unfoldable pub write_loop : ℕ → List ℕ → Os → Outcome (Unit {0}) Os
  write_loop zero bytes os = if length bytes == 0 then done tt os else hung
  write_loop (suc fuel) bytes os =
      if length bytes == 0
      then done tt os
      else (let (r, os') = file.write (take (piece (length bytes)) bytes) os in
          elim r [
            | none ↦ failed io os'
            | some n ↦ if n == 0 then failed io os' else write_loop fuel (drop n bytes) os'
          ])

  unfoldable pub td_fd_write : ℕ → List ℕ → Os → Outcome (Unit {0}) Os
  td_fd_write off bytes os = at_offset off (write_loop (length bytes) bytes) os

  -- The result of a write added to `r`, where -1 is 2 ^ 32 - 1.
  unfoldable pub plus_written : ℕ → Option ℕ → ℕ
  plus_written r none = sub32 r 1
  plus_written r (some w) = add32 r w

  -- The last write is of `d` bytes from a buffer of 1024 zeros, with `behind` on the stack behind it.
  unfoldable pub extend_last : (behind : List ℕ) (d r : ℕ) → Os → ℕ × Os
  extend_last behind d r os =
      let (w, os') = file.write (take d (replicate 1024 0 ++ behind)) os in (plus_written r w, os')

  -- The kilobytes before the last write; the number of bytes `d` is fuel, as each round takes 1024.
  unfoldable pub extend_loop : ℕ → (behind : List ℕ) (d r : ℕ) → Os → ℕ × Os
  extend_loop zero behind d r os = extend_last behind d r os
  extend_loop (suc fuel) behind d r os =
      if ltb 1024 d
      then (let (w, os') = file.write (replicate 1024 0) os in
          elim w [
            | none ↦ extend_last behind d r os'
            | some n ↦
                if n == 0
                then extend_last behind d r os'
                else extend_loop fuel behind (d - 1024) (add32 r n) os'
          ])
      else extend_last behind d r os

  -- `d` aligned with kilobytes
  unfoldable pub with_kilobytes : (flags cursize d : ℕ) → ℕ
  with_kilobytes flags cursize d =
      let over = add32 cursize d % 1024 in
      if not (has_flag flags sparse) && not (over == 0) then add32 d (1024 - over) else d

  -- The bytes that were added, and the header, whose size is set to that of the file.
  unfoldable pub td_fd_extend : List ℕ → Header → ℕ → Os → ℕ × Header × Os
  td_fd_extend behind header d os =
      let (end, os') = file.seek_end os in
      elim end [
        | none ↦ (0, header, os')
        | some cursize ↦
            let d' = with_kilobytes header.flags cursize d in
            let (r, os'') = extend_loop d' behind d' 0 os' in
            (r, record header { size = cursize }, os'')
      ]

  -- A part of a file, from `base` on. A transfer that is not of all bytes is an error.
  unfoldable pub td_chunk_read : (base off size : ℕ) → Os → Outcome (List ℕ) Os
  td_chunk_read base off size os =
      at_offset (add32 off base)
        (λ os1.
          let (r, os2) = file.read size os1 in
          elim r [
            | none ↦ failed io os2
            | some buf ↦ if u32 (length buf) == u32 size then done buf os2 else failed io os2
          ])
        os

  unfoldable pub td_chunk_write : (base off : ℕ) → List ℕ → Os → Outcome (Unit {0}) Os
  td_chunk_write base off bytes os =
      at_offset (add32 off base)
        (λ os1.
          let (r, os2) = file.write bytes os1 in
          elim r [
            | none ↦ failed io os2
            | some n ↦ if u32 n == u32 (length bytes) then done tt os2 else failed io os2
          ])
        os

-- `grows n` is whether realloc of the resource to `n` bytes succeeds.
unfoldable pub td_malloc_extend : (ℕ → Bool) → Header → ℕ → ℕ
td_malloc_extend grows header d = if grows (add32 header.size d) then d else 0

-- The functions that td_init_malloc installs.
unfoldable pub with_malloc : (grows reallocs : ℕ → Bool) → ℕ → Td → Td
with_malloc grows reallocs flags td =
    let extended =
      if has_flag flags extend_flag
      then record td { extend = some (td_malloc_extend grows) }
      else td in
    if has_flag flags alloctdt then record extended { realloc = some reallocs } else extended

-- `callocs` is whether calloc succeeds; its memory is zeros.
unfoldable pub td_init_malloc :
    (callocs : Bool) (grows reallocs : ℕ → Bool) (flags : ℕ) → Run (Unit {0})
td_init_malloc callocs grows reallocs flags =
    let td = record (td_init (λ a. 0)) { header = record null_header { size = 4 * 1024 } } in
    if callocs then td_init2 ident 1 flags (with_malloc grows reallocs flags td) else err init td

-- `mapped` is what mmap gives, none where that is the null pointer.
unfoldable pub td_init_mmap : (flags : ℕ) → Option Memory → (size : ℕ) → Run (Unit {0})
td_init_mmap flags mapped size =
    if has_flag flags extend_flag then err init (td_init (λ a. 0)) else elim mapped [
      | none ↦ err init (td_init (λ a. 0))
      | some mem ↦
          td_init2 ident 1 flags
            (record (td_init mem) { header = record null_header { size = size } })
    ]
