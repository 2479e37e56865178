-- ===== src/Checksum.antt =====
-- The FNV-1a checksum of td_checksum_create.c and td_checksum_verify.c.
use sdbm_tree.Common.{ℕ, ◌*◌, ◌%◌, List, [], ◌∷◌, ◌==◌, if◌then◌else◌, bit_xor, u32}
use sdbm_tree.Types.Error.{checksum}
use sdbm_tree.Machine.{Command, fail, pure}

-- The loop over the bytes, in 64 bits.
unfoldable pub fnv : ℕ → List ℕ → ℕ
fnv h [] = h
fnv h (b ∷ bytes) = fnv ((bit_xor h b * 0x100_0000_01b3) % 0x1_0000_0000_0000_0000) bytes

unfoldable pub td_checksum_create : List ℕ → ℕ
unfolding fnv
td_checksum_create bytes = u32 (fnv 0xcbf2_9ce4_8422_2325 bytes)

unfoldable pub td_checksum_verify : List ℕ → ℕ → Command
unfolding td_checksum_create
td_checksum_verify bytes sum = if sum == td_checksum_create bytes then pure tt else fail checksum
