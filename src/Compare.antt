-- ===== src/Compare.antt =====
-- Key comparison: td_compare.c, with the memcmp that it calls. Keys are lists of bytes.
pub mod Order
use sdbm_tree.Common.{ℕ, zero, suc, List, [], ◌∷◌, Bool, ltb, if◌then◌else◌, length}
use sdbm_tree.Types.{Cmp}
use sdbm_tree.Types.Cmp.{less, equal, more}

-- The sign of `memcmp(a, b, n)`. Neither buffer is shorter than `n` where it is called.
unfoldable pub memcmp : List ℕ → List ℕ → ℕ → Cmp
memcmp a b zero = equal
memcmp [] b (suc n) = equal
memcmp (x ∷ a) [] (suc n) = equal
memcmp (x ∷ a) (y ∷ b) (suc n) =
    let rest = memcmp a b n in if ltb x y then less else if ltb y x then more else rest

-- `(r = …) == 0 ? d : r`
unfoldable pub or_else : Cmp → Cmp → Cmp
or_else less d = less
or_else equal d = d
or_else more d = more

unfoldable pub td_compare : List ℕ → List ℕ → Bool → Cmp
unfolding memcmp or_else
td_compare key1 key2 part =
    if ltb (length key1) (length key2)
    then (if part
        then memcmp key1 key2 (length key1)
        else or_else (memcmp key1 key2 (length key1)) less)
    else if ltb (length key2) (length key1)
    then or_else (memcmp key1 key2 (length key2)) more
    else memcmp key1 key2 (length key1)
