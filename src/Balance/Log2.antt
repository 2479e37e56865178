-- ===== src/Balance/Log2.antt =====
-- The integer logarithm of td_rebalance.c.
use sdbm_tree.Common.{
  ℕ, zero, suc, ◌+◌, ◌*◌, ◌/◌, ◌^◌, ◌≤◌, ◌<◌, ◌≡◌, sym, subst, arith, ◌==◌, word_mod, Bool-cases,
  inl, inr,
}
use sdbm_tree.Balance.{log2_loop, td_log2}

-- Between two powers of 2, counted from `r`: `n` has `k` bits.
abbrev pub HasBits : ℕ → ℕ → Type 0
HasBits n zero = n ≡ 0
HasBits n (suc k) = (2 ^ k ≤ n) × (n < 2 * 2 ^ k)

HasBits-double : (n k : ℕ) → 0 < n → HasBits (n / 2) k → HasBits n (suc k)
HasBits-double n zero h b = (omega arith, omega arith)
HasBits-double n (suc k) h b = (omega arith, omega arith)

-- With fuel for each bit the loop adds their number.
log2_loop-counts :
    (fuel n r : ℕ) → n < 2 ^ fuel → (k : ℕ) × (log2_loop fuel n r ≡ r + k) × HasBits n k
unfolding log2_loop
log2_loop-counts zero n r h = (0, omega arith, omega arith)
log2_loop-counts (suc fuel) n r h = elim (Bool-cases (n == 0)) [
  | inl e ↦ (0, rw e (omega arith), ground arith)
  | inr e ↦
      let (k, c, b) = log2_loop-counts fuel (n / 2) (r + 1) (omega arith) in
      (suc k, rw (e, c) (omega arith), HasBits-double n k (ground arith) b)
]

-- td_log2 gives the number of bits of a word: 0 for 0, else the `k + 1` for which the word is at
-- least 2 ^ k and below 2 ^ (k + 1). The 32 rounds are enough for every word.
pub td_log2-bits : (n : ℕ) → n < word_mod → HasBits n (td_log2 n)
unfolding td_log2
td_log2-bits n w =
    let (k, c, b) = log2_loop-counts 32 n 0 w in
    let e : log2_loop 32 n 0 ≡ k = omega (arith, c) in subst (HasBits n) (sym e) b
