-- ===== src/Db/Increase.antt =====
-- td_increase_key of td_push.c: the keys that it refuses.
use mathlib.Core.Option.{some-ne-none}
use mathlib.Core.List.{reverse, reverse-cons, reverse-reverse}
use mathlib.Core.Option
use sdbm_tree.Common.{
  ℕ, ◌≡◌, ◌↔◌, refl, sym, ap, inl, inr, List, [], ◌∷◌, ◌++◌, Option, none, some, arith, Bool-cases,
  ◌==◌, ◌+◌, ◌%◌, subst,
}
use sdbm_tree.Db.{increase_from_end, td_increase_key}

abbrev pub AllZero : List ℕ → Type 0
AllZero [] = Unit {0}
AllZero (b ∷ bytes) = (b ≡ 0) × AllZero bytes

map-none : (o : Option (List ℕ)) → Option.map (λ r. 1 ∷ r) o ≡ none → o ≡ none
map-none none e = refl
map-none (some r) e = absurd (some-ne-none _ e)

from_end-AllZero : (key : List ℕ) → increase_from_end key ≡ none → AllZero key
unfolding increase_from_end
from_end-AllZero [] e = tt
from_end-AllZero (b ∷ key) e = elim (Bool-cases (b == 0)) [
  | inl zero_byte ↦
      let rest : Option.map (λ r. 1 ∷ r) (increase_from_end key) ≡ none = rw zero_byte at e in
      (ground (arith, zero_byte), from_end-AllZero key (map-none (increase_from_end key) rest))
  | inr other ↦
      let grown : some ((b + 1) % 256 ∷ key) ≡ none = rw other at e in absurd (some-ne-none _ grown)
]

AllZero-from_end : (key : List ℕ) → AllZero key → increase_from_end key ≡ none
unfolding increase_from_end
AllZero-from_end [] h = refl
AllZero-from_end (b ∷ key) (e, h) = rw (e, AllZero-from_end key h) refl

AllZero-join : (xs : List ℕ) (b : ℕ) → AllZero xs → b ≡ 0 → AllZero (xs ++ (b ∷ []))
AllZero-join [] b h e = (e, tt)
AllZero-join (x ∷ xs) b h e = (h.0, AllZero-join xs b h.1 e)

AllZero-reverse : (xs : List ℕ) → AllZero xs → AllZero (reverse xs)
AllZero-reverse [] h = tt
AllZero-reverse (x ∷ xs) h =
    subst AllZero (sym (reverse-cons x xs))
      (AllZero-join (reverse xs) x (AllZero-reverse xs h.1) h.0)

map-reverse : (o : Option (List ℕ)) → Option.map reverse o ≡ none → o ≡ none
map-reverse none e = refl
map-reverse (some r) e = absurd (some-ne-none _ e)

-- td_increase_key has no next key for exactly those keys whose bytes are all 0.
pub td_increase_key-none : (key : List ℕ) → (td_increase_key key ≡ none) ↔ AllZero key
unfolding td_increase_key
td_increase_key-none key = (
  λ e. subst AllZero (reverse-reverse key) (
      AllZero-reverse (reverse key)
        (from_end-AllZero (reverse key) (map-reverse (increase_from_end (reverse key)) e))),
  λ h. ap (Option.map reverse) (AllZero-from_end (reverse key) (AllZero-reverse key h)),
)
