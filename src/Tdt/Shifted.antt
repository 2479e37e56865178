-- ===== src/Tdt/Shifted.antt =====
-- tdt_shift to the front takes back what tdt_prepend did.
use sdbm_tree.Common.{
  ℕ, ◌+◌, ◌-◌, ◌≤◌, ◌<◌, ◌≡◌, refl, sym, ap, ◌∙◌, List, none, arith, length, take, drop, word_mod,
  length-take, length-drop, take-take, take-append_front, drop-append_behind, drop-take, false, leb,
  ltb, sub32, add32, true, ◌%◌,
}
use sdbm_tree.Tdt.{Tdt, buffer_of, bytes_of, overlay}
use sdbm_tree.Tdt.Extra.{memmove, tdt_prepend, tdt_shift, shift_size}
use sdbm_tree.Tdt.Contents.{Roomy, prepend-contents, prepended_room}

-- tdt_shift to offset 0, on a container with the bytes that its size says.
shifted_front :
    (fresh : List ℕ) (t : Tdt) (offset : ℕ)
    → t.size ≤ length (buffer_of t.mem)
    → t.size < word_mod
    → 0 < offset
    → offset < t.size
    → bytes_of (tdt_shift fresh t offset 0 none) ≡ drop offset (bytes_of t)
unfolding tdt_shift bytes_of shift_size memmove overlay
shifted_front fresh t offset filled word low high =
    let m = t.size - offset in
    let buf = buffer_of t.mem in
    let in_bounds : leb t.size offset ≡ false = ground (arith, high) in
    let not_up : ltb offset 0 ≡ false = ground (arith) in
    let down : ltb 0 offset ≡ true = ground (arith, low) in
    let n : add32 (sub32 t.size offset) 1 ≡ (m + 1) % word_mod = omega (arith, high, word) in
    let left : sub32 t.size (sub32 offset 0) ≡ m = omega (arith, high, word) in
    let moved = take (m + 1) (drop offset buf) in
    let wide : m + 1 < word_mod = omega (arith, low, high, word) in
    let fits : (m + 1) % word_mod ≡ m + 1 = omega (arith, wide) in
    rw (in_bounds, not_up, down, n, fits, left)
      (take-append_front m moved (drop (0 + length moved) buf) (
          omega
            (arith, length-take (m + 1) (drop offset buf), length-drop offset buf, filled, high))
        ∙ take-take m (m + 1) (drop offset buf) (omega arith)
        ∙ sym (drop-take offset t.size m buf (omega (arith, high))))

-- A container that is not empty and has the bytes that its size says, and a realloc that gives room:
-- after tdt_prepend of some bytes, tdt_shift of all behind them to the front gives the contents back.
pub tdt_shift-tdt_prepend :
    (fresh fresh' : List ℕ) (t : Tdt) (bs : List ℕ)
    → Roomy fresh t (length bs)
    → 0 < t.size
    → 0 < length bs
    → bytes_of (tdt_shift fresh' (tdt_prepend fresh t bs) (length bs) 0 none) ≡ bytes_of t
tdt_shift-tdt_prepend fresh fresh' t bs h filled some_bytes =
    let r = prepended_room fresh t bs h in
    shifted_front fresh' (tdt_prepend fresh t bs) (length bs) (omega (arith, r))
      (omega (arith, r, h.word)) some_bytes (omega (arith, r, filled))
    ∙ ap (drop (length bs)) (prepend-contents fresh t bs h filled)
    ∙ drop-append_behind (length bs) bs (bytes_of t) refl
