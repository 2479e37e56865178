-- ===== src/Common/Parts.antt =====
-- Lemmas on the parts of a list that `take` and `drop` give.
use Prim.Native.Nat.{ℕ, zero, suc, ◌+◌, ◌≤◌}
use mathlib.Core.Path.{◌≡◌, refl, ap}
use mathlib.Core.List.{List, [], ◌∷◌, ◌++◌}
use native.Mathlib.Omega.{arith}
use sdbm_tree.Common.Lists.{length, take, drop}

module _ {ℓ} {A : Type ℓ} where
  pub take-take : (m n : ℕ) (xs : List A) → m ≤ n → take m (take n xs) ≡ take m xs
  take-take zero n xs h = refl
  take-take (suc m) zero xs h = absurd (omega (arith, h))
  take-take (suc m) (suc n) [] h = refl
  take-take (suc m) (suc n) (x ∷ xs) h = ap (λ r. x ∷ r) (take-take m n xs (omega (arith, h)))

  pub take-append_front : (n : ℕ) (xs ys : List A) → n ≤ length xs → take n (xs ++ ys) ≡ take n xs
  take-append_front zero xs ys h = refl
  take-append_front (suc n) [] ys h = absurd (omega (arith, h))
  take-append_front (suc n) (x ∷ xs) ys h =
      ap (λ r. x ∷ r) (take-append_front n xs ys (omega (arith, h)))

  pub take-append_all : (xs ys : List A) → take (length xs) (xs ++ ys) ≡ xs
  take-append_all [] ys = refl
  take-append_all (x ∷ xs) ys = ap (λ r. x ∷ r) (take-append_all xs ys)

  pub take-append_behind :
      (n m : ℕ) (xs ys : List A) → n ≡ length xs + m → take n (xs ++ ys) ≡ xs ++ take m ys
  take-append_behind n m [] ys e = ap (λ k. take k ys) (omega (arith, e))
  take-append_behind zero m (x ∷ xs) ys e = absurd (omega (arith, e))
  take-append_behind (suc n) m (x ∷ xs) ys e =
      ap (λ r. x ∷ r) (take-append_behind n m xs ys (omega (arith, e)))

  pub drop-append_behind : (n : ℕ) (xs ys : List A) → n ≡ length xs → drop n (xs ++ ys) ≡ ys
  drop-append_behind zero [] ys e = refl
  drop-append_behind zero (x ∷ xs) ys e = absurd (omega (arith, e))
  drop-append_behind (suc n) [] ys e = absurd (omega (arith, e))
  drop-append_behind (suc n) (x ∷ xs) ys e = drop-append_behind n xs ys (omega (arith, e))

  pub drop-take : (a s m : ℕ) (xs : List A) → s ≡ a + m → drop a (take s xs) ≡ take m (drop a xs)
  drop-take zero s m xs e = ap (λ k. take k xs) (omega (arith, e))
  drop-take (suc a) zero m xs e = absurd (omega (arith, e))
  drop-take (suc a) (suc s) zero [] e = refl
  drop-take (suc a) (suc s) (suc m) [] e = refl
  drop-take (suc a) (suc s) m (x ∷ xs) e = drop-take a s m xs (omega (arith, e))
