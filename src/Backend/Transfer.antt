-- ===== src/Backend/Transfer.antt =====
-- td_fd_read and td_fd_write of td_init_fd.c on a file that transfers as little as it likes.
use mathlib.Core.List.{append_assoc, append-nil}
use sdbm_tree.Common.{
  ℕ, zero, suc, ◌+◌, ◌-◌, ◌≤◌, ◌<◌, ◌≡◌, refl, sym, subst, ap, ap₂, ◌∙◌, fun_ext, List, [], ◌∷◌,
  ◌++◌, some, length, take, drop, sub32, word_mod, arith, length-take, length-drop, take-take,
}
use sdbm_tree.Types.{Memory}
use sdbm_tree.Memory.{slice, blit}
use sdbm_tree.Memory.Laws.{slice-add, length-slice, blit-outside, slice-blit_self}
use sdbm_tree.Backend.{File, piece, read_loop, write_loop, td_fd_read, td_fd_write}
use sdbm_tree.Backend.Outcome.{done}
use sdbm_tree.Backend.Patch.{blit-parts}
use sdbm_tree.Backend.Serve.{
  View, Moves, Serves, piece-bounds, read_round, write_round, at_offset-seeks, Moves-wider,
}

module _ {Os : Type 0} (file : File Os) (view : View Os) where
  slice-parts :
      (got : List ℕ) (m m1 : Memory) (p p1 k size : ℕ)
      → m1 ≡ m
      → p1 ≡ p + k
      → k ≤ size
      → (got ++ slice m p k) ++ slice m1 p1 (size - k) ≡ got ++ slice m p size
  slice-parts got m m1 p p1 k size same at h =
      append_assoc got (slice m p k) (slice m1 p1 (size - k))
      ∙ ap (λ j. got ++ j)
          (ap₂ (λ j q. slice m p k ++ slice j q (size - k)) same at
            ∙ sym (slice-add m p k (size - k))
            ∙ ap (slice m p) (omega (arith, h)))

  -- The loop returns what the file holds from where it stands.
  Reads : (fuel size : ℕ) (got : List ℕ) (os : Os) → Type 0
  Reads fuel size got os =
      (os' : Os) × (read_loop file fuel size got os
        ≡ done (got ++ slice (view.contents os) (view.position os) size) os')
      × (view.contents os' ≡ view.contents os)
      × (view.extent os' ≡ view.extent os)

  read_then :
      (fuel size k : ℕ) (got : List ℕ) (os os1 : Os)
      → 0 < size
      → size < word_mod
      → file.read (piece file size) os ≡ (some (slice (view.contents os) (view.position os) k), os1)
      → Moves file view os os1 k size
      → view.contents os1 ≡ view.contents os
      → Reads fuel (size - k) (got ++ slice (view.contents os) (view.position os) k) os1
      → Reads (suc fuel) size got os
  unfolding Reads
  read_then fuel size k got os os1 pos word run m same (os', rest, kept, wide) =
      let buf = slice (view.contents os) (view.position os) k in
      let left : sub32 size k ≡ size - k = ground (arith, word, m.no_more) in
      (
        os',
        read_round file view fuel size k got os os1 buf pos run
              (length-slice (view.contents os) (view.position os) k) m.some_bytes
            ∙ ap (λ j. read_loop file fuel j (got ++ buf) os1) left
            ∙ rest
            ∙ ap (λ j. done j os')
                (slice-parts got (view.contents os) (view.contents os1) (view.position os)
                  (view.position os1) k size same m.position m.no_more),
        kept ∙ same,
        wide ∙ m.extent,
      )

  module _ (serves : Serves file view) where
    read_loop-Reads :
        (fuel size : ℕ) (got : List ℕ) (os : Os)
        → size ≤ fuel
        → size < word_mod
        → view.position os + size ≤ view.extent os
        → Reads fuel size got os
    unfolding read_loop slice Reads
    read_loop-Reads zero zero got os enough word inside =
        (os, ap (λ k. done k os) (sym (append-nil got)), refl, refl)
    read_loop-Reads zero (suc size) got os enough word inside = absurd (omega (arith, enough))
    read_loop-Reads (suc fuel) zero got os enough word inside =
        (os, ap (λ k. done k os) (sym (append-nil got)), refl, refl)
    read_loop-Reads (suc fuel) (suc size) got os enough word inside =
        let (pos, fits) = piece-bounds file view (suc size) (omega arith) in
        let (k, os1, run, m, same) =
          serves.reads (piece file (suc size)) os pos (omega (arith, fits, inside)) in
        read_then fuel (suc size) k got os os1 (omega arith) word run
          (Moves-wider file view os os1 k (piece file (suc size)) (suc size) fits m) same
          (read_loop-Reads fuel (suc size - k)
            (got ++ slice (view.contents os) (view.position os) k) os1
            (omega (arith, enough, m.some_bytes)) (omega (arith, word))
            (omega (arith, m.position, m.extent, inside, m.no_more, fits)))

    -- The loop writes all bytes from where the file stands on.
    Writes : (fuel : ℕ) (bytes : List ℕ) (os : Os) → Type 0
    Writes fuel bytes os =
        (os' : Os) × (write_loop file fuel bytes os ≡ done tt os')
        × (view.contents os' ≡ blit (view.contents os) (view.position os) bytes)
        × (view.extent os' ≡ view.extent os)

    write_then :
        (fuel k n : ℕ) (bytes : List ℕ) (os os1 : Os)
        → 0 < length bytes
        → n ≡ piece file (length bytes)
        → file.write (take n bytes) os ≡ (some k, os1)
        → Moves file view os os1 k (length bytes)
        → k ≤ n
        → view.contents os1 ≡ blit (view.contents os) (view.position os) (take k (take n bytes))
        → Writes fuel (drop k bytes) os1
        → Writes (suc fuel) bytes os
    unfolding Writes
    write_then fuel k n bytes os os1 pos size run m few same (os', rest, kept, wide) = (
      os',
      write_round file view fuel k bytes os os1 pos
            (subst (λ j. file.write (take j bytes) os ≡ (some k, os1)) size run) m.some_bytes
          ∙ rest,
      kept
          ∙ ap₂ (λ x q. blit x q (drop k bytes))
              (same ∙ ap (blit (view.contents os) (view.position os)) (take-take k n bytes few))
              m.position
          ∙ blit-parts (view.contents os) (view.position os) k bytes m.no_more,
      wide ∙ m.extent,
    )

    nothing_written :
        (os : Os) (a : ℕ) → blit (view.contents os) (view.position os) [] a ≡ view.contents os a
    nothing_written os a = blit-outside (view.contents os) (view.position os) [] a (omega arith)

    write_loop-Writes :
        (fuel : ℕ) (bytes : List ℕ) (os : Os)
        → length bytes ≤ fuel
        → view.position os + length bytes ≤ view.extent os
        → Writes fuel bytes os
    unfolding write_loop Writes
    write_loop-Writes zero [] os enough inside =
        (os, refl, fun_ext (λ a. sym (nothing_written os a)), refl)
    write_loop-Writes zero (b ∷ bytes) os enough inside = absurd (omega (arith, enough))
    write_loop-Writes (suc fuel) [] os enough inside =
        (os, refl, fun_ext (λ a. sym (nothing_written os a)), refl)
    write_loop-Writes (suc fuel) (b ∷ bytes) os enough inside =
        let n = piece file (length (b ∷ bytes)) in
        let (pos, fits) = piece-bounds file view (length (b ∷ bytes)) (omega arith) in
        let size = length-take n (b ∷ bytes) in
        let (k, os1, run, m, same) =
          serves.writes (take n (b ∷ bytes)) os (omega (arith, size, pos, fits))
            (omega (arith, size, fits, inside)) in
        write_then fuel k n (b ∷ bytes) os os1 (omega arith) refl run
          (Moves-wider file view os os1 k (length (take n (b ∷ bytes))) (length (b ∷ bytes))
            (omega (arith, size)) m)
          (omega (arith, m.no_more, size)) same
          (write_loop-Writes fuel (drop k (b ∷ bytes)) os1
            (omega (arith, length-drop k (b ∷ bytes), m.some_bytes, enough))
            (omega (
              arith,
              length-drop k (b ∷ bytes),
              m.position,
              m.extent,
              m.no_more,
              size,
              fits,
              inside,
            )))

    -- td_fd_write of bytes within the file, and td_fd_read at the same offset, where lseek, read and
    -- write do what they are asked for without an error, though each read and write may transfer
    -- fewer bytes than it was asked for, if one at least: both return with no error, the read gives
    -- the bytes written, and the file holds what it held but for these bytes, in its old extent. The
    -- bytes are fewer than 2 ^ 32.
    pub td_fd_write-td_fd_read :
        (off : ℕ) (bytes : List ℕ) (os : Os)
        → length bytes < word_mod
        → off + length bytes ≤ view.extent os
        → (os1 : Os) × (td_fd_write file off bytes os ≡ done tt os1)
          × ((os2 : Os) × (td_fd_read file off (length bytes) os1 ≡ done bytes os2)
              × (view.contents os2 ≡ blit (view.contents os) off bytes)
              × (view.extent os2 ≡ view.extent os))
    unfolding td_fd_write td_fd_read Writes Reads
    td_fd_write-td_fd_read off bytes os word inside =
        let (os0, seek, at, same, wide) = serves.seeks off os in
        let (os1, write, kept, wide1) =
          write_loop-Writes (length bytes) bytes os0 (omega arith)
            (omega (arith, at, wide, inside)) in
        let (os2, seek2, at2, same2, wide2) = serves.seeks off os1 in
        let (os3, read, same3, wide3) =
          read_loop-Reads (length bytes) (length bytes) [] os2 (omega arith) word
            (omega (arith, at2, wide2, wide1, wide, inside)) in
        let holds : view.contents os1 ≡ blit (view.contents os) off bytes =
          kept ∙ ap₂ (λ x q. blit x q bytes) same at in
        (
          os1,
          at_offset-seeks file view off (write_loop file (length bytes) bytes) os os0 seek ∙ write,
          (
            os3,
            at_offset-seeks file view off (read_loop file (length bytes) (length bytes) []) os1 os2
                  seek2
                ∙ read
                ∙ ap (λ k. done k os3)
                    (ap₂ (λ x q. slice x q (length bytes)) (same2 ∙ holds) at2
                      ∙ slice-blit_self (view.contents os) off bytes),
            same3 ∙ same2 ∙ holds,
            wide3 ∙ wide2 ∙ wide1 ∙ wide,
          ),
        )
