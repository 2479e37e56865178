-- ===== src/Memory.antt =====
-- The resource as memory, and the memcpy calls of td_mem_read and td_mem_write.
pub mod Laws
use sdbm_tree.Common.{
  ℕ, zero, suc, ◌+◌, ◌-◌, List, [], ◌∷◌, ◌&&◌, leb, ltb, if◌then◌else◌, get_or, length,
}
use sdbm_tree.Types.{Memory}

-- memcpy(buf, mem + off, siz)
unfoldable pub slice : Memory → ℕ → ℕ → List ℕ
slice m off zero = []
slice m off (suc n) = m off ∷ slice m (off + 1) n

-- memcpy(mem + off, buf, siz), where siz is the length of buf
unfoldable pub blit : Memory → ℕ → List ℕ → Memory
blit m off buf a = if leb off a && ltb a (off + length buf) then get_or buf (a - off) 0 else m a
