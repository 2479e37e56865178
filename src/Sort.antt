-- ===== src/Sort.antt =====
-- td_qsort of td_qsort.c, on a list of offsets.
pub mod Laws
use sdbm_tree.Common.{
  ℕ, zero, suc, ◌+◌, ◌/◌, List, [], ◌∷◌, ◌++◌, Bool, ltb, ◌==◌, if◌then◌else◌, length, get_or,
}

-- The three arrays of a round.
pub record Parts : Type 0 where
  pub smaller : List ℕ
  pub same : List ℕ
  pub bigger : List ℕ

-- The loop at index `i`, with the part of the list from there. Each array is filled from the left.
unfoldable pub split : ℕ → ℕ → ℕ → List ℕ → Parts
split pivotpos pivotval i [] = record { smaller = []; same = []; bigger = [] }
split pivotpos pivotval i (x ∷ xs) =
    let rest = split pivotpos pivotval (i + 1) xs in
    if i == pivotpos
    then record rest { same = pivotval ∷ rest.same }
    else if ltb x pivotval
    then record rest { smaller = x ∷ rest.smaller }
    else if ltb pivotval x
    then record rest { bigger = x ∷ rest.bigger }
    else record rest { same = pivotval ∷ rest.same }

-- The recursion has at most as many levels as the list has elements.
unfoldable pub qsort_fuel : ℕ → List ℕ → List ℕ
qsort_fuel fuel [] = []
qsort_fuel fuel (x ∷ []) = x ∷ []
qsort_fuel fuel (x ∷ (y ∷ [])) = if ltb y x then y ∷ (x ∷ []) else x ∷ (y ∷ [])
qsort_fuel zero (x ∷ (y ∷ (z ∷ r))) = x ∷ (y ∷ (z ∷ r))
qsort_fuel (suc fuel) (x ∷ (y ∷ (z ∷ r))) =
    let list = x ∷ (y ∷ (z ∷ r)) in
    let pivotpos = length list / 2 in
    let parts = split pivotpos (get_or list pivotpos 0) 0 list in
    qsort_fuel fuel parts.smaller ++ (parts.same ++ qsort_fuel fuel parts.bigger)

unfoldable pub td_qsort : List ℕ → List ℕ
unfolding qsort_fuel split
td_qsort list = qsort_fuel (length list) list
