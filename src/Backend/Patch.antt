-- ===== src/Backend/Patch.antt =====
-- Bytes written in two parts, one behind the other.
use sdbm_tree.Common.{
  ℕ, zero, suc, ◌+◌, ◌-◌, ◌≤◌, ◌<◌, ◌≡◌, inl, inr, refl, sym, ap, ◌∙◌, fun_ext, List, [], ◌∷◌, ltb,
  length, take, drop, get_or, arith, Bool-cases, length-take, length-drop,
}
use sdbm_tree.Types.{Memory}
use sdbm_tree.Memory.{blit}
use sdbm_tree.Memory.Laws.{blit-inside, blit-outside}

get_or-take : (k i d : ℕ) (xs : List ℕ) → i < k → get_or (take k xs) i d ≡ get_or xs i d
get_or-take zero i d xs h = absurd (omega (arith, h))
get_or-take (suc k) i d [] h = refl
get_or-take (suc k) zero d (x ∷ xs) h = refl
get_or-take (suc k) (suc i) d (x ∷ xs) h = get_or-take k i d xs (omega (arith, h))

get_or-drop : (k i d : ℕ) (xs : List ℕ) → get_or (drop k xs) i d ≡ get_or xs (k + i) d
get_or-drop zero i d xs = ap (λ j. get_or xs j d) (omega arith)
get_or-drop (suc k) i d [] = refl
get_or-drop (suc k) i d (x ∷ xs) =
    let next : suc (k + i) ≡ suc k + i = omega arith in
    get_or-drop k i d xs ∙ ap (λ j. get_or (x ∷ xs) j d) next

-- A write of a front part, and then one of what is left.
module _ (m : Memory) (p k : ℕ) (bytes : List ℕ) (h : k ≤ length bytes) where
  abbrev front : Memory
  front = blit m p (take k bytes)

  front_length : length (take k bytes) ≡ k
  front_length = omega (arith, length-take k bytes, h)

  in_front : (a : ℕ) → a < p + k → blit front (p + k) (drop k bytes) a ≡ front a
  in_front a lo = blit-outside front (p + k) (drop k bytes) a (inl lo)

  blit-parts_at : (a : ℕ) → blit front (p + k) (drop k bytes) a ≡ blit m p bytes a
  blit-parts_at a = elim (Bool-cases (ltb a p)) [
    | inl before ↦
        let lo : a < p = ground (arith, before) in
        in_front a (omega (arith, lo))
        ∙ blit-outside m p (take k bytes) a (inl lo)
        ∙ sym (blit-outside m p bytes a (inl lo))
    | inr not_before ↦
        let lo : p ≤ a = ground (arith, not_before) in
        elim (Bool-cases (ltb a (p + k))) [
          | inl early ↦
              let mid : a < p + k = ground (arith, early) in
              in_front a mid
              ∙ blit-inside m p (take k bytes) a lo (omega (arith, mid, front_length))
              ∙ get_or-take k (a - p) 0 bytes (omega (arith, lo, mid))
              ∙ sym (blit-inside m p bytes a lo (omega (arith, mid, h)))
          | inr late ↦
              let mid : p + k ≤ a = ground (arith, late) in
              elim (Bool-cases (ltb a (p + length bytes))) [
                | inl inside ↦
                    let hi : a < p + length bytes = ground (arith, inside) in
                    blit-inside front (p + k) (drop k bytes) a mid
                      (omega (arith, hi, length-drop k bytes, h))
                    ∙ get_or-drop k (a - (p + k)) 0 bytes
                    ∙ ap (λ j. get_or bytes j 0) (omega (arith, mid))
                    ∙ sym (blit-inside m p bytes a lo hi)
                | inr behind ↦
                    let hi : p + length bytes ≤ a = ground (arith, behind) in
                    blit-outside front (p + k) (drop k bytes) a
                      (inr (omega (arith, hi, length-drop k bytes, h)))
                    ∙ blit-outside m p (take k bytes) a (inr (omega (arith, mid, front_length)))
                    ∙ sym (blit-outside m p bytes a (inr hi))
              ]
        ]
  ]

  pub blit-parts : blit front (p + k) (drop k bytes) ≡ blit m p bytes
  blit-parts = fun_ext (λ a. blit-parts_at a)
