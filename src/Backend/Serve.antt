-- ===== src/Backend/Serve.antt =====
-- The system's calls on a file, and a round of the loops of td_fd_read and td_fd_write.
use sdbm_tree.Common.{
  ℕ, suc, ◌+◌, ◌≤◌, ◌<◌, ◌≡◌, refl, ap, List, ◌++◌, some, false, ◌==◌, length, take, drop, sub32,
  arith,
}
use sdbm_tree.Types.{Memory}
use sdbm_tree.Memory.{slice, blit}
use sdbm_tree.Backend.{File, Outcome, at_offset, piece, read_loop, write_loop}

-- A file after a call: where it stands, what it holds, and how long it is.
pub record View (Os : Type 0) : Type 0 where
  pub contents : Os → Memory
  pub position : Os → ℕ
  pub extent : Os → ℕ

module _ {Os : Type 0} (file : File Os) (view : View Os) where
  -- `k` bytes of the `n` asked for are transferred, and the file stands behind them.
  pub record Moves (os os' : Os) (k n : ℕ) : Type 0 where
    pub some_bytes : 0 < k
    pub no_more : k ≤ n
    pub position : view.position os' ≡ view.position os + k
    pub extent : view.extent os' ≡ view.extent os

  -- What lseek, read and write do within the file, where no error occurs: each transfers a byte at
  -- least and no more than it was asked for.
  pub record Serves : Type 0 where
    pub seeks :
        (off : ℕ) (os : Os)
        → (os' : Os) × (file.seek off os ≡ (some off, os'))
          × (view.position os' ≡ off)
          × (view.contents os' ≡ view.contents os)
          × (view.extent os' ≡ view.extent os)
    pub reads :
        (n : ℕ) (os : Os)
        → 0 < n
        → view.position os + n ≤ view.extent os
        → (k : ℕ) × (os' : Os) × (file.read n os
            ≡ (some (slice (view.contents os) (view.position os) k), os'))
          × Moves os os' k n
          × (view.contents os' ≡ view.contents os)
    pub writes :
        (bytes : List ℕ) (os : Os)
        → 0 < length bytes
        → view.position os + length bytes ≤ view.extent os
        → (k : ℕ) × (os' : Os) × (file.write bytes os ≡ (some k, os'))
          × Moves os os' k (length bytes)
          × (view.contents os' ≡ blit (view.contents os) (view.position os) (take k bytes))

  pub piece-bounds : (size : ℕ) → 0 < size → (0 < piece file size) × (piece file size ≤ size)
  unfolding piece
  piece-bounds size h = (ground arith, ground arith)

  pub read_round :
      (fuel size k : ℕ) (got : List ℕ) (os os' : Os) (buf : List ℕ)
      → 0 < size
      → file.read (piece file size) os ≡ (some buf, os')
      → length buf ≡ k
      → 0 < k
      → read_loop file (suc fuel) size got os ≡ read_loop file fuel (sub32 size k) (got ++ buf) os'
  unfolding read_loop
  read_round fuel size k got os os' buf h run len pos =
      let more : (size == 0) ≡ false = ground (arith, h) in
      let some_read : (length buf == 0) ≡ false = ground (arith, len, pos) in
      rw (more, ap (λ x. x.0) run, ap (λ x. x.1) run, some_read, len) refl

  pub write_round :
      (fuel k : ℕ) (bytes : List ℕ) (os os' : Os)
      → 0 < length bytes
      → file.write (take (piece file (length bytes)) bytes) os ≡ (some k, os')
      → 0 < k
      → write_loop file (suc fuel) bytes os ≡ write_loop file fuel (drop k bytes) os'
  unfolding write_loop
  write_round fuel k bytes os os' h run pos =
      let more : (length bytes == 0) ≡ false = ground (arith, h) in
      let some_written : (k == 0) ≡ false = ground (arith, pos) in
      rw (more, ap (λ x. x.0) run, ap (λ x. x.1) run, some_written) refl

  pub at_offset-seeks :
      {A : Type 0} (off : ℕ) (next : Os → Outcome A Os) (os os' : Os)
      → file.seek off os ≡ (some off, os')
      → at_offset file off next os ≡ next os'
  unfolding at_offset
  at_offset-seeks off next os os' run =
      rw (ap (λ x. x.0) run, ap (λ x. x.1) run, at_offset) (ground arith)

  pub Moves-wider : (os os' : Os) (k n n' : ℕ) → n ≤ n' → Moves os os' k n → Moves os os' k n'
  Moves-wider os os' k n n' h m = record {
    some_bytes = m.some_bytes;
    no_more = omega (arith, m.no_more, h);
    position = m.position;
    extent = m.extent;
  }
