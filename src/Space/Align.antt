-- ===== src/Space/Align.antt =====
-- td_align rounds up to a multiple of the alignment.
use native.Mathlib.Nat.{add-mul, div-add-mod', mul-mod_left}
use sdbm_tree.Common.{
  false, ◌⊎◌, subst, if◌then◌else◌, inl, inr, Bool-cases, ltb, ◌==◌, u32, ℕ, ◌+◌, ◌*◌, ◌/◌, ◌%◌,
  ◌≤◌, ◌<◌, ◌≡◌, arith, word_mod, ap,
}
use sdbm_tree.Space.{td_align}

-- The rounded size, where `n` is no multiple of `a`.
round_up :
    (a n : ℕ)
    → 0 < a
    → (n % a == 0) ≡ false
    → (n / a + 1) * a < word_mod
    → (u32 ((n / a + 1) * a) % a ≡ 0)
      × (n ≤ u32 ((n / a + 1) * a))
      × (u32 ((n / a + 1) * a) < n + a)
round_up a n h odd fits =
    let whole : n / a * a + n % a ≡ n = div-add-mod' n a in
    let product : (n / a + 1) * a ≡ n / a * a + a = omega (arith, add-mul (n / a) 1 a) in
    let short : n % a < a = omega arith in
    let some_rest : 0 < n % a = ground arith in
    let same : u32 ((n / a + 1) * a) ≡ (n / a + 1) * a = omega arith in
    rw same (mul-mod_left (n / a + 1) a, omega arith, omega arith)

-- The alignment, where 0 and 1 ask for none.
abbrev pub unit_of : ℕ → ℕ
unit_of a = if ltb 1 a then a else 1

no_multiple :
    (a n : ℕ)
    → (n % a == 0) ≡ false
    → (n % a ≡ 0) ⊎ ((n / a + 1) * a < word_mod)
    → (n / a + 1) * a < word_mod
no_multiple a n odd (inl even) = absurd (ground (arith, odd, even))
no_multiple a n odd (inr fits) = fits

-- For every alignment, where 0 is as 1, and every size that is a multiple of it or whose rounded size
-- is below 2 ^ 32: td_align gives the least multiple of the alignment that is not below the size.
pub td_align-least :
    (a n : ℕ)
    → (n % unit_of a ≡ 0) ⊎ ((n / unit_of a + 1) * unit_of a < word_mod)
    → (td_align a n % unit_of a ≡ 0) × (n ≤ td_align a n) × (td_align a n < n + unit_of a)
unfolding td_align
td_align-least a n fits = elim (Bool-cases (ltb 1 a)) [
  | inl wide ↦
      let some_unit : 0 < a = ground (arith, wide) in
      elim (Bool-cases (n % a == 0)) [
        | inl even ↦ rw (wide, even) (ground (arith, even), omega arith, omega (arith, some_unit))
        | inr odd ↦
            rw (wide, odd)
              (round_up a n some_unit odd (
                no_multiple a n odd (
                  subst (λ u. (n % u ≡ 0) ⊎ ((n / u + 1) * u < word_mod))
                    (ap (λ b. if b then a else 1) wide) fits)))
      ]
  | inr one ↦ rw one (omega arith, omega arith, omega arith)
]
