-- ===== src/Tdt/Contents.antt =====
-- What a tdt_t contains after tdt_append, tdt_prepend and tdt_insert.
use native.Mathlib.Nat.{mod-lt, zero-mod}
use sdbm_tree.Common.{
  ℕ, ◌+◌, ◌-◌, ◌≤◌, ◌<◌, ◌≡◌, refl, sym, ap, ◌∙◌, List, [], ◌∷◌, ◌++◌, some, arith, length, take,
  drop, word_mod, length-append, length-take, length-drop, take-take, take-append_front,
  take-append_behind, drop-append_behind, drop-take, take-append_all, add32, sub32, ◌%◌, ◌==◌,
  false, ap₂,
}
use sdbm_tree.Tdt.{Tdt, buffer_of, bytes_of, overlay}
use sdbm_tree.Tdt.Extra.{resized, memmove, with_gap, within, tdt_append, tdt_prepend, tdt_insert}

-- The buffer has the bytes that the size says, and `fresh` serves for `k` more and the 0 behind them.
pub record Roomy (fresh : List ℕ) (t : Tdt) (k : ℕ) : Type 0 where
  pub filled : t.size ≤ length (buffer_of t.mem)
  pub enough : t.size + k < length (buffer_of t.mem) + length fresh
  pub word : t.size + k + 1 < word_mod

module _ (buf : List ℕ) (off : ℕ) (bytes : List ℕ) (fits : off ≤ length buf) where
  length-front : length (take off buf) ≡ off
  length-front = omega (arith, length-take off buf, fits)

  pub take-overlay_front : (n : ℕ) → n ≤ off → take n (overlay buf off bytes) ≡ take n buf
  unfolding overlay
  take-overlay_front n h =
      take-append_front n (take off buf) (bytes ++ drop (off + length bytes) buf)
        (omega (arith, h, length-front))
      ∙ take-take n off buf h

  pub take-overlay :
      (n : ℕ) → n ≡ off + length bytes → take n (overlay buf off bytes) ≡ take off buf ++ bytes
  unfolding overlay
  take-overlay n e =
      take-append_behind n (length bytes) (take off buf) (bytes ++ drop (off + length bytes) buf)
        (omega (arith, e, length-front))
      ∙ ap (λ r. take off buf ++ r) (take-append_all bytes (drop (off + length bytes) buf))

  pub drop-overlay : drop off (overlay buf off bytes) ≡ bytes ++ drop (off + length bytes) buf
  unfolding overlay
  drop-overlay =
      drop-append_behind off (take off buf) (bytes ++ drop (off + length bytes) buf)
        (sym length-front)

  pub length-overlay : off + length bytes ≤ length buf → length (overlay buf off bytes) ≡ length buf
  unfolding overlay
  length-overlay h = omega (
    arith,
    h,
    length-front,
    length-append (take off buf) (bytes ++ drop (off + length bytes) buf),
    length-append bytes (drop (off + length bytes) buf),
    length-drop (off + length bytes) buf,
  )

-- A gap is made at `a` and filled.
gap-filled :
    (g bs : List ℕ) (a m n : ℕ)
    → length g ≡ a + m + length bs + 1
    → n ≡ a + length bs + m
    → take n (overlay (memmove g (a + length bs) a (m + 1)) a bs)
      ≡ take a g ++ (bs ++ take m (drop a g))
unfolding memmove overlay
gap-filled g bs a m n len e =
    let moved = take (m + 1) (drop a g) in
    let shifted = overlay g (a + length bs) moved in
    let low : a + length bs ≤ length g = omega (arith, len) in
    let count : length moved ≡ m + 1 =
      omega (arith, length-take (m + 1) (drop a g), length-drop a g, len) in
    let whole : length shifted ≡ length g =
      length-overlay g (a + length bs) moved low (omega (arith, count, len)) in
    let front : length (take a shifted) ≡ a =
      length-front shifted a bs (omega (arith, whole, len)) in
    let behind : take m (drop (a + length bs) shifted) ≡ take m (drop a g) =
      ap (take m) (drop-overlay g (a + length bs) moved low)
      ∙ take-append_front m moved (drop (a + length bs + length moved) g) (omega (arith, count))
      ∙ take-take m (m + 1) (drop a g) (omega arith) in
    take-append_behind n (length bs + m) (take a shifted) (bs ++ drop (a + length bs) shifted)
      (omega (arith, front, e))
    ∙ ap (λ r. take a shifted ++ r)
        (take-append_behind (length bs + m) m bs (drop (a + length bs) shifted) refl
          ∙ ap (λ r. bs ++ r) behind)
    ∙ ap (λ r. r ++ (bs ++ take m (drop a g)))
        (take-overlay_front g (a + length bs) moved low a (omega arith))

module _ (fresh : List ℕ) (t : Tdt) (bs : List ℕ) (h : Roomy fresh t (length bs)) where
  -- The buffer after realloc.
  abbrev grown : List ℕ
  grown = take (t.size + length bs + 1) (buffer_of t.mem ++ fresh)

  length-grown : length grown ≡ t.size + length bs + 1
  length-grown = omega (
    arith,
    length-take (t.size + length bs + 1) (buffer_of t.mem ++ fresh),
    length-append (buffer_of t.mem) fresh,
    h.enough,
  )

  grown-contents : take t.size grown ≡ bytes_of t
  unfolding bytes_of
  grown-contents =
      take-take t.size (t.size + length bs + 1) (buffer_of t.mem ++ fresh) (omega arith)
      ∙ take-append_front t.size (buffer_of t.mem) fresh h.filled

  size_sum : add32 t.size (length bs) ≡ t.size + length bs
  size_sum = omega (arith, h.word)

  resized-grown : resized fresh t.mem (add32 (add32 t.size (length bs)) 1) ≡ grown
  unfolding resized
  resized-grown = ap (λ n. take n (buffer_of t.mem ++ fresh)) (omega (arith, h.word))

  -- tdt_append on a container with the bytes that its size says, and a realloc that gives room: the
  -- container has the bytes behind what it had.
  pub tdt_append-contents : bytes_of (tdt_append fresh t bs) ≡ bytes_of t ++ bs
  unfolding tdt_append bytes_of
  tdt_append-contents =
      rw (resized-grown, size_sum)
        (take-overlay_front (overlay grown t.size bs) (t.size + length bs) (0 ∷ [])
            (omega (
              arith,
              length-grown,
              length-overlay grown t.size bs (omega (arith, length-grown))
                  (omega (arith, length-grown)),
            ))
            (t.size + length bs) (omega arith)
          ∙ take-overlay grown t.size bs (omega (arith, length-grown)) (t.size + length bs) refl
          ∙ ap (λ r. r ++ bs) grown-contents)

  module _ (a : ℕ) (inside : a < t.size) where
    filled-contents :
        bytes_of (record {
          mem = some (overlay (with_gap grown a t.size (length bs)) a bs);
          size = add32 t.size (length bs);
        })
        ≡ take a (bytes_of t) ++ (bs ++ drop a (bytes_of t))
    unfolding bytes_of with_gap
    filled-contents =
        let m = t.size - a in
        let some_left : (sub32 t.size a == 0) ≡ false = ground (arith, inside, h.word) in
        let to : add32 a (length bs) ≡ a + length bs = omega (arith, inside, h.word) in
        let n : add32 (sub32 t.size a) 1 ≡ m + 1 = omega (arith, inside, h.word) in
        rw (some_left, to, n, size_sum, ← grown-contents)
          (gap-filled grown bs a m (t.size + length bs) (omega (arith, length-grown, inside))
              (omega (arith, inside))
            ∙ ap₂ (λ p q. p ++ (bs ++ q)) (sym (take-take a t.size grown (omega (arith, inside))))
                (sym (drop-take a t.size m grown (omega (arith, inside)))))

  -- tdt_insert at an offset, in a container that is not empty and has the bytes that its size says,
  -- and a realloc that gives room: the bytes stand at the offset modulo the size, with what was before
  -- it before them, and the rest behind them.
  pub tdt_insert-contents :
      (offset : ℕ)
      → 0 < t.size
      → bytes_of (tdt_insert fresh t (some offset) bs)
        ≡ take (offset % t.size) (bytes_of t) ++ (bs ++ drop (offset % t.size) (bytes_of t))
  unfolding tdt_insert within
  tdt_insert-contents offset filled =
      let some_size : (t.size == 0) ≡ false = ground (arith, filled) in
      rw (some_size, resized-grown) (filled-contents (offset % t.size) (mod-lt offset filled))

  -- tdt_prepend leaves the very container that tdt_insert at 0 leaves, in a container that is not
  -- empty, and a realloc that gives room.
  pub tdt_prepend-tdt_insert : 0 < t.size → tdt_prepend fresh t bs ≡ tdt_insert fresh t (some 0) bs
  unfolding tdt_prepend tdt_insert within with_gap
  tdt_prepend-tdt_insert filled =
      let some_size : (t.size == 0) ≡ false = ground (arith, filled) in
      let some_left : (sub32 t.size 0 == 0) ≡ false = ground (arith, filled, h.word) in
      let first : 0 % t.size ≡ 0 = omega (arith, filled) in
      let to : add32 0 (length bs) ≡ length bs = omega (arith, h.word) in
      let n : sub32 t.size 0 ≡ t.size = omega (arith, h.word) in
      rw (some_size, first, some_left, to, n) refl

  pub prepend-contents : 0 < t.size → bytes_of (tdt_prepend fresh t bs) ≡ bs ++ bytes_of t
  prepend-contents filled =
      ap bytes_of (tdt_prepend-tdt_insert filled)
      ∙ tdt_insert-contents 0 filled
      ∙ ap (λ k. take k (bytes_of t) ++ (bs ++ drop k (bytes_of t))) (zero-mod t.size)

  -- The size after tdt_prepend, and the length of the buffer.
  pub prepended_room :
      ((tdt_prepend fresh t bs).size ≡ t.size + length bs)
      × (length (buffer_of (tdt_prepend fresh t bs).mem) ≡ t.size + length bs + 1)
  unfolding tdt_prepend memmove
  prepended_room =
      let moved = take (add32 t.size 1) (drop 0 grown) in
      let count : length moved ≡ t.size + 1 =
        omega (arith, length-take (add32 t.size 1) grown, length-grown, h.word) in
      let whole : length (overlay grown (length bs) moved) ≡ length grown =
        length-overlay grown (length bs) moved (omega (arith, length-grown))
          (omega (arith, length-grown, count)) in
      (
        size_sum,
        rw resized-grown (
            length-overlay (overlay grown (length bs) moved) 0 bs (omega arith)
              (omega (arith, whole, length-grown))
            ∙ whole
            ∙ length-grown),
      )
