-- ===== src/Verify.antt =====
-- td_verify.c. (Its `fix` argument is not used.)
use sdbm_tree.Common.{ℕ, zero, suc, ◌+◌, ◌==◌, if◌then◌else◌, add32, sub32}
use sdbm_tree.Types.{chunkhead_size, checksum_flag, has_flag}
use sdbm_tree.Machine.{Command, stuck, pure, get, ◌>>=◌, ◌>>◌}
use sdbm_tree.Io.{td_read, td_read_header, td_read_chunkhead, td_read_keyhead}
use sdbm_tree.Checksum.{td_checksum_verify}
use sdbm_tree.Tdt.{array, td_read_keydata}

unfoldable pub valuenode_loop : ℕ → ℕ → Command
valuenode_loop zero offset = stuck
valuenode_loop (suc fuel) offset = if offset == 0 then pure tt else do
  chunkhead ← td_read_chunkhead offset
  buf ← td_read (add32 offset chunkhead_size) (sub32 chunkhead.size chunkhead_size)
  td ← get
  if has_flag td.header.flags checksum_flag
      then td_checksum_verify buf chunkhead.checksum
      else pure tt
  valuenode_loop fuel chunkhead.next

unfoldable pub td_verify_valuenode : ℕ → Command
td_verify_valuenode offset td = valuenode_loop (td.header.size + 1) offset td

unfoldable pub verify_keynode : ℕ → ℕ → Command
verify_keynode zero offset = stuck
verify_keynode (suc fuel) offset = do
  keyhead ← td_read_keyhead offset
  td_read_keydata offset keyhead (array keyhead.size) 0
  if keyhead.previous == 0 then pure tt else verify_keynode fuel keyhead.previous
  if keyhead.next == 0 then pure tt else verify_keynode fuel keyhead.next
  td_verify_valuenode keyhead.value

unfoldable pub td_verify_keynode : ℕ → Command
td_verify_keynode offset td = verify_keynode (td.header.size + 1) offset td

unfoldable pub td_verify : Command
td_verify = do
  td_read_header
  td ← get
  if td.header.top == 0 then pure tt else td_verify_keynode td.header.top
