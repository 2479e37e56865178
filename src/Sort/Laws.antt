-- ===== src/Sort/Laws.antt =====
-- td_qsort sorts: its result holds the same offsets, and no later one is smaller.
use sdbm_tree.Common.{
  ℕ, zero, suc, ◌+◌, ◌/◌, ◌≤◌, ◌<◌, ◌≡◌, refl, ap, List, [], ◌∷◌, ◌++◌, arith, length, get_or, ◌==◌,
  inl, inr, Bool-cases, if◌then◌else◌, subst,
}
use sdbm_tree.Sort.{Parts, split, qsort_fuel, td_qsort}

abbrev pub All : (ℕ → Type 0) → List ℕ → Type 0
All P [] = Unit {0}
All P (x ∷ xs) = P x × All P xs

-- No element is larger than one behind it.
abbrev pub IsSorted : List ℕ → Type 0
IsSorted [] = Unit {0}
IsSorted (x ∷ xs) = All (λ y. x ≤ y) xs × IsSorted xs

-- How often an offset stands in a list.
abbrev pub occurrences : ℕ → List ℕ → ℕ
occurrences a [] = 0
occurrences a (x ∷ xs) = (if a == x then 1 else 0) + occurrences a xs

All-append : (P : ℕ → Type 0) (xs ys : List ℕ) → All P xs → All P ys → All P (xs ++ ys)
All-append P [] ys h k = k
All-append P (x ∷ xs) ys h k = (h.0, All-append P xs ys h.1 k)

All-map : (P Q : ℕ → Type 0) (xs : List ℕ) → ((x : ℕ) → P x → Q x) → All P xs → All Q xs
All-map P Q [] f h = tt
All-map P Q (x ∷ xs) f h = (f x h.0, All-map P Q xs f h.1)

IsSorted-append :
    (v : ℕ) (xs ys : List ℕ)
    → IsSorted xs
    → IsSorted ys
    → All (λ x. x ≤ v) xs
    → All (λ y. v ≤ y) ys
    → IsSorted (xs ++ ys)
IsSorted-append v [] ys sx sy lo hi = sy
IsSorted-append v (x ∷ xs) ys sx sy lo hi = (
  All-append (λ y. x ≤ y) xs ys sx.0 (All-map (λ y. v ≤ y) (λ y. x ≤ y) ys (λ y h. omega arith) hi),
  IsSorted-append v xs ys sx.1 sy lo.1 hi,
)

occurrences-append :
    (a : ℕ) (xs ys : List ℕ) → occurrences a (xs ++ ys) ≡ occurrences a xs + occurrences a ys
occurrences-append a [] ys = omega arith
occurrences-append a (x ∷ xs) ys = omega (arith, occurrences-append a xs ys)

-- What a round puts where, for a list whose element at `pivotpos` is `pivotval`.
module _ (pivotpos pivotval : ℕ) where
  -- The element met at the pivot's position is the pivot.
  abbrev HasPivot : ℕ → List ℕ → Type 0
  HasPivot i xs = (j : ℕ) → i + j ≡ pivotpos → j < length xs → get_or xs j 0 ≡ pivotval

  HasPivot-tail : (i x : ℕ) (xs : List ℕ) → HasPivot i (x ∷ xs) → HasPivot (i + 1) xs
  HasPivot-tail i x xs at j e lt = at (suc j) (omega arith) (omega arith)

  pub occurrences-split :
      (i : ℕ) (xs : List ℕ) (a : ℕ)
      → HasPivot i xs
      → let p = split pivotpos pivotval i xs in
        occurrences a p.smaller + occurrences a p.same + occurrences a p.bigger ≡ occurrences a xs
  unfolding split
  occurrences-split i [] a at = refl
  occurrences-split i (x ∷ xs) a at =
      ground (arith, occurrences-split (i + 1) xs a (HasPivot-tail i x xs at), at 0)

  pub length-split :
      (i : ℕ) (xs : List ℕ)
      → let p = split pivotpos pivotval i xs in
        length p.smaller + length p.same + length p.bigger ≡ length xs
  unfolding split
  length-split i [] = refl
  length-split i (x ∷ xs) = ground (arith, length-split (i + 1) xs)

  -- The pivot itself is among the equal ones.
  pub length-split-same :
      (i : ℕ) (xs : List ℕ)
      → i ≤ pivotpos
      → pivotpos < i + length xs
      → 0 < length (split pivotpos pivotval i xs).same
  unfolding split
  length-split-same i [] lo hi = absurd (omega arith)
  length-split-same i (x ∷ xs) lo hi = ground (arith, length-split-same (i + 1) xs)

  -- The elements are on their sides.
  pub split_sides :
      (i : ℕ) (xs : List ℕ)
      → let p = split pivotpos pivotval i xs in
        All (λ x. x < pivotval) p.smaller
        × All (λ x. x ≡ pivotval) p.same
        × All (λ x. pivotval < x) p.bigger
  unfolding split
  split_sides i [] = (tt, tt, tt)
  split_sides i (x ∷ xs) = ground (arith, split_sides (i + 1) xs)

All-of_occurrences :
    (P : ℕ → Type 0) (xs : List ℕ) → ((a : ℕ) → 0 < occurrences a xs → P a) → All P xs
All-of_occurrences P [] h = tt
All-of_occurrences P (x ∷ xs) h =
    (h x (ground arith), All-of_occurrences P xs λ a k. h a (omega arith))

All-occurrences : (P : ℕ → Type 0) (xs : List ℕ) (a : ℕ) → All P xs → 0 < occurrences a xs → P a
All-occurrences P [] a h k = absurd (omega arith)
All-occurrences P (x ∷ xs) a h k = elim (Bool-cases (a == x)) [
  | inl e ↦ subst P (ground arith) h.0
  | inr ne ↦ All-occurrences P xs a h.1 (ground arith)
]

-- A list with the elements of another has what all of those have.
All-of_same_occurrences :
    (P : ℕ → Type 0) (xs ys : List ℕ)
    → ((a : ℕ) → occurrences a ys ≡ occurrences a xs)
    → All P xs
    → All P ys
All-of_same_occurrences P xs ys same h =
    All-of_occurrences P ys λ a k. All-occurrences P xs a h (omega (arith, same a))

IsSorted-of_equal : (v : ℕ) (xs : List ℕ) → All (λ x. x ≡ v) xs → IsSorted xs
IsSorted-of_equal v [] h = tt
IsSorted-of_equal v (x ∷ xs) h = (
  All-map (λ y. y ≡ v) (λ y. x ≤ y) xs (λ y e. omega (arith, h.0)) h.1,
  IsSorted-of_equal v xs h.1,
)

record Sorts (xs ys : List ℕ) : Type 0 where
  same : (a : ℕ) → occurrences a ys ≡ occurrences a xs
  sorted : IsSorted ys

-- One round: the sorted sides about the pivots.
Sorts-round :
    (v : ℕ) (list : List ℕ) (p : Parts) (lo hi : List ℕ)
    → ((a : ℕ)
        → occurrences a p.smaller + occurrences a p.same + occurrences a p.bigger
          ≡ occurrences a list)
    → All (λ x. x < v) p.smaller × All (λ x. x ≡ v) p.same × All (λ x. v < x) p.bigger
    → Sorts p.smaller lo
    → Sorts p.bigger hi
    → Sorts list (lo ++ (p.same ++ hi))
Sorts-round v list p lo hi counts sides sl sh = record {
  same = λ a. omega (
    arith,
    occurrences-append a lo (p.same ++ hi),
    occurrences-append a p.same hi,
    counts a,
    sl.same a,
    sh.same a,
  );
  sorted =
      IsSorted-append v lo (p.same ++ hi) sl.sorted
        (IsSorted-append v p.same hi (IsSorted-of_equal v p.same sides.1) sh.sorted
          (All-map (λ x. x ≡ v) (λ x. x ≤ v) p.same (λ x e. omega arith) sides.1) high)
        (All-map (λ x. x < v) (λ x. x ≤ v) lo (λ x e. omega arith)
          (All-of_same_occurrences (λ x. x < v) p.smaller lo sl.same sides.0))
        (All-append (λ x. v ≤ x) p.same hi
          (All-map (λ x. x ≡ v) (λ x. v ≤ x) p.same (λ x e. omega arith) sides.1) high);
}
  where
    high : All (λ x. v ≤ x) hi
    high =
        All-map (λ x. v < x) (λ x. v ≤ x) hi (λ x e. omega arith)
          (All-of_same_occurrences (λ x. v < x) p.bigger hi sh.same sides.2)

qsort_fuel-Sorts : (fuel : ℕ) (xs : List ℕ) → length xs ≤ fuel → Sorts xs (qsort_fuel fuel xs)
unfolding qsort_fuel
qsort_fuel-Sorts fuel [] h = record { same = λ a. refl; sorted = tt }
qsort_fuel-Sorts fuel (x ∷ []) h = record { same = λ a. refl; sorted = (tt, tt) }
qsort_fuel-Sorts fuel (x ∷ (y ∷ [])) h = record { same = λ a. ground arith; sorted = ground arith }
qsort_fuel-Sorts zero (x ∷ (y ∷ (z ∷ r))) h = absurd (omega arith)
qsort_fuel-Sorts (suc fuel) (x ∷ (y ∷ (z ∷ r))) h =
    Sorts-round v list parts _ _ counts (split_sides pos v 0 list)
      (qsort_fuel-Sorts fuel parts.smaller (omega (arith, sizes, some_pivot)))
      (qsort_fuel-Sorts fuel parts.bigger (omega (arith, sizes, some_pivot)))
  where
    list : List ℕ
    list = x ∷ (y ∷ (z ∷ r))

    pos : ℕ
    pos = length list / 2

    v : ℕ
    v = get_or list pos 0

    parts : Parts
    parts = split pos v 0 list

    at_pivot : HasPivot pos v 0 list
    at_pivot j e lt = ap (λ k. get_or list k 0) (omega arith)

    counts :
        (a : ℕ)
        → occurrences a parts.smaller + occurrences a parts.same + occurrences a parts.bigger
          ≡ occurrences a list
    counts a = occurrences-split pos v 0 list a at_pivot

    sizes : length parts.smaller + length parts.same + length parts.bigger ≡ length list
    sizes = length-split pos v 0 list

    some_pivot : 0 < length parts.same
    some_pivot = length-split-same pos v 0 list (omega arith) (omega arith)

-- td_qsort gives a sorted list in which every offset stands as often as before.
pub td_qsort_sorts :
    (xs : List ℕ)
    → IsSorted (td_qsort xs) × ((a : ℕ) → occurrences a (td_qsort xs) ≡ occurrences a xs)
unfolding td_qsort
td_qsort_sorts xs = let s = qsort_fuel-Sorts (length xs) xs (omega arith) in (s.sorted, s.same)
