-- ===== src/Memory/Laws.antt =====
-- Reads of what was written, reads beside it, and a read cut in two.
use sdbm_tree.Common.{
  ℕ, zero, suc, ◌+◌, ◌-◌, ◌≤◌, ◌<◌, ◌≡◌, refl, ap, ap₂, ◌∙◌, ◌⊎◌, List, [], ◌∷◌, ◌++◌, arith,
  get_or, length,
}
use sdbm_tree.Types.{Memory}
use sdbm_tree.Memory.{slice, blit}

pub blit-inside :
    (m : Memory) (off : ℕ) (buf : List ℕ) (a : ℕ)
    → off ≤ a
    → a < off + length buf
    → blit m off buf a ≡ get_or buf (a - off) 0
unfolding blit
blit-inside m off buf a lo hi = ground arith

pub blit-outside :
    (m : Memory) (off : ℕ) (buf : List ℕ) (a : ℕ)
    → (a < off) ⊎ (off + length buf ≤ a)
    → blit m off buf a ≡ m a
unfolding blit
blit-outside m off buf a out = ground arith

-- Two memories that agree on a range read alike there.
pub slice-cong :
    (m k : Memory) (off n : ℕ)
    → ((a : ℕ) → off ≤ a → a < off + n → m a ≡ k a)
    → slice m off n ≡ slice k off n
unfolding slice
slice-cong m k off zero same = refl
slice-cong m k off (suc n) same =
    ap₂ ◌∷◌ (same off (omega arith) (omega arith))
      (slice-cong m k (off + 1) n λ a lo hi. same a (omega arith) (omega arith))

pub slice-eq_bytes :
    (m : Memory) (off : ℕ) (buf : List ℕ)
    → ((i : ℕ) → i < length buf → m (off + i) ≡ get_or buf i 0)
    → slice m off (length buf) ≡ buf
unfolding slice
slice-eq_bytes m off [] same = refl
slice-eq_bytes m off (b ∷ buf) same =
    let here : m off ≡ b = ap m (omega arith) ∙ same 0 (omega arith) in
    ap₂ ◌∷◌ here
      (slice-eq_bytes m (off + 1) buf λ i h. ap m (omega arith) ∙ same (suc i) (omega arith))

pub slice-blit_self :
    (m : Memory) (off : ℕ) (buf : List ℕ) → slice (blit m off buf) off (length buf) ≡ buf
slice-blit_self m off buf = slice-eq_bytes (blit m off buf) off buf λ i h.
    blit-inside m off buf (off + i) (omega arith) (omega arith)
    ∙ ap (λ j. get_or buf j 0) (omega arith)

pub slice-blit_outside :
    (m : Memory) (off : ℕ) (buf : List ℕ) (p n : ℕ)
    → (p + n ≤ off) ⊎ (off + length buf ≤ p)
    → slice (blit m off buf) p n ≡ slice m p n
slice-blit_outside m off buf p n apart =
    slice-cong (blit m off buf) m p n λ a lo hi. blit-outside m off buf a (ground arith)

pub slice-add :
    (m : Memory) (off k n : ℕ) → slice m off (k + n) ≡ slice m off k ++ slice m (off + k) n
unfolding slice
slice-add m off zero n = ap₂ (slice m) (omega arith) (omega arith)
slice-add m off (suc k) n =
    let e : suc k + n ≡ suc (k + n) = omega arith in
    ap (slice m off) e
    ∙ ap (λ r. m off ∷ r)
        (slice-add m (off + 1) k n ∙ ap (λ o. slice m (off + 1) k ++ slice m o n) (omega arith))

pub length-slice : (m : Memory) (off n : ℕ) → length (slice m off n) ≡ n
unfolding slice
length-slice m off zero = refl
length-slice m off (suc n) = ap suc (length-slice m (off + 1) n)
