-- ===== src/Io/Bounds.antt =====
-- What td_write and td_read do with an offset and a size, within the resource and beyond it.
use sdbm_tree.Common.{
  ℕ, ◌+◌, ◌≤◌, ◌<◌, ◌≡◌, refl, ap, ◌⊎◌, inl, inr, List, arith, length, ltb, false, Bool-cases,
  word_mod, add32,
}
use sdbm_tree.Types.{Td}
use sdbm_tree.Types.Error.{bounds}
use sdbm_tree.Machine.{ok, err}
use sdbm_tree.Memory.{slice, blit}
use sdbm_tree.Memory.Laws.{slice-blit_self, slice-blit_outside}
use sdbm_tree.Io.{td_read, td_write}

-- The bytes at `off` are `buf`, and all others are as before.
pub record Wrote (td td' : Td) (off : ℕ) (buf : List ℕ) : Type 0 where
  pub read_back : slice td'.mem off (length buf) ≡ buf
  pub outside :
      (a n : ℕ) → (a + n ≤ off) ⊎ (off + length buf ≤ a) → slice td'.mem a n ≡ slice td.mem a n
  pub state : td' ≡ record td { mem = td'.mem }

blit-Wrote :
    (td : Td) (off : ℕ) (buf : List ℕ) → Wrote td (record td { mem = blit td.mem off buf }) off buf
blit-Wrote td off buf = record {
  read_back = slice-blit_self td.mem off buf;
  outside = λ a n apart. slice-blit_outside td.mem off buf a n apart;
  state = refl;
}

module _ (td : Td) (off : ℕ) (buf : List ℕ) where
  -- Where the end of the buffer is a word: td_write either gives TDERR_BOUNDS with nothing changed, and
  -- then the end lies beyond the resource; or the end lies within it, the bytes are written, nothing
  -- else is changed, and td_read of as many bytes gives them back.
  pub td_write-td_read :
      off + length buf < word_mod
      → ((td.header.size < off + length buf) × (td_write off buf td ≡ err bounds td))
        ⊎ ((off + length buf ≤ td.header.size)
            × ((td' : Td) × (td_write off buf td ≡ ok tt td')
                × Wrote td td' off buf
                × (td_read off (length buf) td' ≡ ok buf td')))
  unfolding td_write td_read
  td_write-td_read word =
      let no_wrap : add32 off (length buf) ≡ off + length buf = omega (arith, word) in
      elim (Bool-cases (ltb td.header.size (off + length buf))) [
        | inl beyond ↦ inl (ground (arith, beyond), rw (no_wrap, beyond) refl)
        | inr within ↦ inr (
          ground (arith, within),
          (
            record td { mem = blit td.mem off buf },
            rw (no_wrap, within) refl,
            blit-Wrote td off buf,
            rw (no_wrap, within)
                (ap (λ r. ok r (record td { mem = blit td.mem off buf }))
                  (slice-blit_self td.mem off buf)),
          ),
        )
      ]

  -- Where the offset lies at the end of the resource or behind it, and the offset and the size of the
  -- buffer together wrap round 2 ^ 32 to an offset within the resource, td_write writes: it gives no
  -- error, and the bytes at the offset are the buffer.
  pub td_write-wraps :
      td.header.size ≤ off
      → word_mod ≤ off + length buf
      → off + length buf ≤ word_mod + td.header.size
      → td.header.size < word_mod
      → (td' : Td) × (td_write off buf td ≡ ok tt td') × Wrote td td' off buf
  unfolding td_write
  td_write-wraps beyond wraps low word =
      let passes : ltb td.header.size (add32 off (length buf)) ≡ false =
        ground (arith, wraps, low, word) in
      (record td { mem = blit td.mem off buf }, rw passes refl, blit-Wrote td off buf)
