-- ===== src/Stream/Written.antt =====
-- The loop of td_read_value_stream_write_chunk.
use mathlib.Core.List.{append-nil, append_assoc}
use sdbm_tree.Common.{
  ℕ, zero, suc, ◌≤◌, ◌≡◌, sym, ap, ◌∙◌, List, [], ◌∷◌, ◌++◌, arith, length, take, drop, ◌==◌, false,
  take-append-drop, length-drop,
}
use sdbm_tree.Types.{Td}
use sdbm_tree.Machine.{ok}
use sdbm_tree.Stream.{Writer, write_chunk, td_read_value_stream_write_chunk}

-- write(2) that takes a byte at least, and not more than it is offered.
abbrev pub Takes : Writer → Type 0
Takes write =
    (written : List ℕ) (b : ℕ) (chunk : List ℕ)
    → (1 ≤ write written (b ∷ chunk)) × (write written (b ∷ chunk) ≤ length (b ∷ chunk))

writes :
    (fuel : ℕ) (write : Writer) (written chunk : List ℕ) (td : Td)
    → Takes write
    → length chunk ≤ fuel
    → write_chunk fuel write written chunk td ≡ ok (written ++ chunk) td
unfolding write_chunk
writes fuel write written [] td takes enough = ap (λ r. ok r td) (sym (append-nil written))
writes zero write written (b ∷ chunk) td takes enough = absurd (omega (arith, enough))
writes (suc fuel) write written (b ∷ chunk) td takes enough =
    let w = write written (b ∷ chunk) in
    let rest = drop w (b ∷ chunk) in
    let (low, high) = takes written b chunk in
    let more : write_chunk fuel write (written ++ take w (b ∷ chunk)) rest td
        ≡ ok ((written ++ take w (b ∷ chunk)) ++ rest) td =
      writes fuel write (written ++ take w (b ∷ chunk)) rest td takes
        (omega (arith, length-drop w (b ∷ chunk), low, high, enough)) in
    let some : (w == 0) ≡ false = ground (arith, low) in
    rw some (
      more
      ∙ ap (λ r. ok r td)
          (append_assoc written (take w (b ∷ chunk)) rest
            ∙ ap (λ r. written ++ r) (take-append-drop w (b ∷ chunk))))

-- Where every call of write(2) takes a byte at least, and no more than it is offered,
-- td_read_value_stream_write_chunk returns, and has written the whole chunk behind what was written
-- before.
pub td_read_value_stream_write_chunk-writes :
    (write : Writer) (written chunk : List ℕ) (td : Td)
    → Takes write
    → td_read_value_stream_write_chunk write written chunk td ≡ ok (written ++ chunk) td
unfolding td_read_value_stream_write_chunk
td_read_value_stream_write_chunk-writes write written chunk td takes =
    writes (length chunk) write written chunk td takes (omega arith)
