-- ===== src/Value/Read.antt =====
-- td_read_value on a chain of chunks, into a container that it allocates.
use sdbm_tree.Tdt
use sdbm_tree.Common.{
  ℕ, zero, suc, ◌+◌, ◌≤◌, ◌<◌, ◌≡◌, refl, sym, ap, ◌∙◌, List, [], ◌∷◌, ◌++◌, some, Bool, true,
  false, arith, length, word_mod, take, add32, bit_or, inl, inr, Bool-cases, ltb, replicate,
  take-take, take-append_front, length-append, length-take, length-replicate, Option, none,
}
use mathlib.Core.List.{append_assoc, append-nil}
use sdbm_tree.Types.{Td, alloctdt, has_flag}
use sdbm_tree.Machine.{ok}
use sdbm_tree.Tdt.{
  Tdt, empty, buffer_of, bytes_of, overlay, overlaid, regrown, realloc_succeeds, reallocating,
  is_null,
}
use sdbm_tree.Tdt.Contents.{take-overlay, length-overlay}
use sdbm_tree.Value.{grow, read_loop, td_read_value}
use sdbm_tree.Value.Chunks.{
  Chunk, ChunkAt, ChainAt, head_of, contents, read_head, data_size, data_offset, read_bytes,
  verify_bytes, nonzero,
}

-- The callback is set and gives what it is asked for.
pub record Allocates (td : Td) : Type 0 where
  pub realloc : ℕ → Bool
  pub is_set : td.realloc ≡ some realloc
  pub gives : (n : ℕ) → realloc n ≡ true

-- The first `off` bytes of the container are `done`.
record Holds (value : Tdt) (off : ℕ) (done : List ℕ) : Type 0 where
  filled : off ≤ length (buffer_of value.mem)
  size_eq : value.size ≡ off
  done_eq : take off (buffer_of value.mem) ≡ done

pub regrown-front :
    (buf : List ℕ) (off wanted : ℕ)
    → off ≤ length buf
    → off ≤ wanted
    → (take off (regrown buf wanted) ≡ take off buf) × (wanted < length (regrown buf wanted))
unfolding regrown
regrown-front buf off wanted filled low =
    let kept = take wanted (buf ++ replicate wanted 0) in
    let count : length kept ≡ wanted = omega (
      arith,
      length-take wanted (buf ++ replicate wanted 0),
      length-append buf (replicate wanted 0),
      length-replicate {A = ℕ} wanted 0,
    ) in
    (
      take-append_front off kept (0 ∷ []) (omega (arith, count, low))
          ∙ take-take off wanted (buf ++ replicate wanted 0) low
          ∙ take-append_front off buf (replicate wanted 0) filled,
      omega (arith, length-append kept (0 ∷ []), count),
    )

-- Bytes laid over a container that has room for them.
pub overlaid-front :
    (m : Option (List ℕ)) (off : ℕ) (bytes : List ℕ)
    → off + length bytes ≤ length (buffer_of m)
    → (off + length bytes ≤ length (buffer_of (overlaid m off bytes)))
      × (take (off + length bytes) (buffer_of (overlaid m off bytes))
          ≡ take off (buffer_of m) ++ bytes)
overlaid-front none zero [] room = (room, refl)
overlaid-front none (suc off) [] room = absurd (omega (arith, room))
overlaid-front none off (b ∷ bytes) room = absurd (omega (arith, room))
overlaid-front (some buf) off bytes room =
    let low : off ≤ length buf = omega (arith, room) in
    (
      omega (arith, room, length-overlay buf off bytes low room),
      take-overlay buf off bytes low (off + length bytes) refl,
    )

module _ (td : Td) (alloc : Allocates td) where
  grow-ok :
      (value : Tdt) (off wanted : ℕ) (done : List ℕ)
      → Holds value off done
      → off ≤ wanted
      → (value' : Tdt) × (grow true wanted value td ≡ ok value' td)
        × (value'.size ≡ wanted)
        × (wanted ≤ length (buffer_of value'.mem))
        × (take off (buffer_of value'.mem) ≡ done)
  unfolding grow realloc_succeeds
  grow-ok value off wanted done h low = elim (Bool-cases (ltb value.size wanted)) [
    | inl more ↦
        let (front, long) = regrown-front (buffer_of value.mem) off wanted h.filled low in
        (
          record { mem = some (regrown (buffer_of value.mem) wanted); size = wanted },
          rw (more, alloc.is_set, alloc.gives (add32 wanted 1)) refl,
          refl,
          omega (arith, long),
          front ∙ h.done_eq,
        )
    | inr enough ↦
        let same : wanted ≡ off = ground (arith, enough, low, h.size_eq) in
        (value, rw enough refl, h.size_eq ∙ sym same, omega (arith, same, h.filled), h.done_eq)
  ]

  -- One round of the loop.
  round :
      (fuel flags : ℕ) (c : Chunk) (next : ℕ) (value value' v : Tdt) (off : ℕ)
      → ChunkAt td flags c next
      → add32 off (length c.bytes) ≡ off + length c.bytes
      → grow true (off + length c.bytes) value td ≡ ok value' td
      → ltb value'.size (off + length c.bytes) ≡ false
      → read_loop fuel flags true next
          (off + length c.bytes)
          (record value' { mem = overlaid value'.mem off c.bytes })
          td
        ≡ ok v td
      → read_loop (suc fuel) flags true c.ptr off value td ≡ ok v td
  unfolding read_loop
  round fuel flags c next value value' v off at no_wrap run fits rest =
      rw
        (
          nonzero at,
          read_head at,
          data_size at,
          data_offset at,
          read_bytes at,
          verify_bytes at,
          no_wrap,
          run,
          fits,
          at.next_eq,
        )
        rest

  reads :
      (fuel flags : ℕ) (cs : List Chunk) (value : Tdt) (off : ℕ) (done : List ℕ)
      → ChainAt td flags cs
      → length cs < fuel
      → Holds value off done
      → off + length (contents cs) < word_mod
      → (v : Tdt) × (read_loop fuel flags true (head_of cs) off value td ≡ ok v td)
        × (bytes_of v ≡ done ++ contents cs)
  unfolding bytes_of read_loop
  reads zero flags cs value off done chain enough h word = absurd (omega (arith, enough))
  reads (suc fuel) flags [] value off done chain enough h word =
      (record value { size = off }, refl, h.done_eq ∙ sym (append-nil done))
  reads (suc fuel) flags (c ∷ cs) value off done (at, chain) enough h word =
      let n = off + length c.bytes in
      let short : off + length (c.bytes ++ contents cs) ≡ n + length (contents cs) =
        omega (arith, length-append c.bytes (contents cs)) in
      let no_wrap : add32 off (length c.bytes) ≡ n = omega (arith, word, short) in
      let (value', run, size', filled', done') = grow-ok value off n done h (omega arith) in
      let laid = overlaid-front value'.mem off c.bytes filled' in
      let fits : ltb value'.size n ≡ false = ground (arith, size') in
      let next : Holds (record value' { mem = overlaid value'.mem off c.bytes }) n
          (done ++ c.bytes) =
        record {
          filled = laid.0;
          size_eq = size';
          done_eq = laid.1 ∙ ap (λ r. r ++ c.bytes) done';
        } in
      let (v, rest, same) =
        reads fuel flags cs (record value' { mem = overlaid value'.mem off c.bytes }) n
          (done ++ c.bytes) chain (omega (arith, enough)) next (omega (arith, word, short)) in
      (
        v,
        round fuel flags c (head_of cs) value value' v off at no_wrap run fits rest,
        same ∙ append_assoc done c.bytes (contents cs),
      )

  may_allocate :
      (flags : ℕ) → has_flag flags alloctdt ≡ true → reallocating td empty flags alloctdt ≡ true
  unfolding reallocating is_null sdbm_tree.Tdt.is_set
  may_allocate flags asked = rw (asked, alloc.is_set) refl

  -- td_read_value on a chain of chunks in the resource, with TDFLG_ALLOCTDT and an allocation that
  -- gives what it is asked for, returns with no error and leaves the state; the container then holds
  -- the bytes of all chunks, in the order of the chain. The chunks are not more in number than the
  -- resource has bytes, and the bytes less than 2 ^ 32.
  pub td_read_value-contents :
      (flags : ℕ) (c : Chunk) (cs : List Chunk)
      → has_flag (bit_or flags td.header.flags) alloctdt ≡ true
      → ChainAt td (bit_or flags td.header.flags) (c ∷ cs)
      → length (c ∷ cs) ≤ td.header.size
      → length (contents (c ∷ cs)) < word_mod
      → (v : Tdt) × (td_read_value c.ptr empty flags td ≡ ok v td)
        × (bytes_of v ≡ contents (c ∷ cs))
  unfolding td_read_value
  td_read_value-contents flags c cs asked chain few short =
      let behind : ltb c.ptr 44 ≡ false = ground (arith, chain.0.low) in
      let (v, run, same) =
        reads (td.header.size + 1) (bit_or flags td.header.flags) (c ∷ cs) empty 0 [] chain
          (omega (arith, few)) (record { filled = omega arith; size_eq = refl; done_eq = refl })
          (omega (arith, short)) in
      (v, rw (behind, may_allocate (bit_or flags td.header.flags) asked) run, same)
