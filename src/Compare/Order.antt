-- ===== src/Compare/Order.antt =====
-- td_compare is a total order on keys, and in partial mode a prefix test.
use sdbm_tree.Common.{
  ℕ, ◌≤◌, ◌≡◌, refl, ◌↔◌, List, [], ◌∷◌, true, false, arith, length, take, subst, ltb,
  if◌then◌else◌,
}
use sdbm_tree.Types.{Cmp}
use sdbm_tree.Types.Cmp.{less, equal, more}
use sdbm_tree.Compare.{memcmp, td_compare}

abbrev pub flip : Cmp → Cmp
flip less = more
flip equal = equal
flip more = less

-- The order of byte strings, by recursion: a proper prefix comes first.
unfoldable pub lex : List ℕ → List ℕ → Cmp
lex [] [] = equal
lex [] (y ∷ b) = less
lex (x ∷ a) [] = more
lex (x ∷ a) (y ∷ b) = let rest = lex a b in if ltb x y then less else if ltb y x then more else rest

td_compare-nil : (y : ℕ) (b : List ℕ) → td_compare [] (y ∷ b) false ≡ less
unfolding td_compare
td_compare-nil y b = ground arith

td_compare-cons :
    (x y : ℕ) (a b : List ℕ)
    → td_compare (x ∷ a) (y ∷ b) false
      ≡ (if ltb x y then less else if ltb y x then more else td_compare a b false)
unfolding td_compare
td_compare-cons x y a b = ground arith

-- The comparison by size and memcmp is the order of byte strings.
pub td_compare-eq-lex : (a b : List ℕ) → td_compare a b false ≡ lex a b
unfolding lex
td_compare-eq-lex [] [] = unfold td_compare in refl
td_compare-eq-lex [] (y ∷ b) = td_compare-nil y b
td_compare-eq-lex (x ∷ a) [] = unfold td_compare in ground arith
td_compare-eq-lex (x ∷ a) (y ∷ b) = rw td_compare-cons (rw (td_compare-eq-lex a b))

pub lex-flip : (a b : List ℕ) → lex b a ≡ flip (lex a b)
unfolding lex
lex-flip [] [] = refl
lex-flip [] (y ∷ b) = refl
lex-flip (x ∷ a) [] = refl
lex-flip (x ∷ a) (y ∷ b) = ground (arith, lex-flip a b)

pub eq_of_lex : (a b : List ℕ) → lex a b ≡ equal → a ≡ b
unfolding lex
eq_of_lex [] [] h = refl
eq_of_lex [] (y ∷ b) h = cc
eq_of_lex (x ∷ a) [] h = cc
eq_of_lex (x ∷ a) (y ∷ b) h = ground (arith, eq_of_lex a b)

pub lex_self : (a : List ℕ) → lex a a ≡ equal
unfolding lex
lex_self [] = refl
lex_self (x ∷ a) = ground (arith, lex_self a)

pub lex_trans : (a b c : List ℕ) → lex a b ≡ less → lex b c ≡ less → lex a c ≡ less
unfolding lex
lex_trans [] b [] h k = ground (arith, lex-flip [] b)
lex_trans [] b (z ∷ c) h k = refl
lex_trans (x ∷ a) [] c h k = cc
lex_trans (x ∷ a) (y ∷ b) [] h k = cc
lex_trans (x ∷ a) (y ∷ b) (z ∷ c) h k = ground (arith, lex_trans a b c)

memcmp-prefix :
    (a b : List ℕ) → length a ≤ length b → memcmp a b (length a) ≡ equal → take (length a) b ≡ a
unfolding memcmp
memcmp-prefix [] b h e = refl
memcmp-prefix (x ∷ a) [] h e = elim h [ ]
memcmp-prefix (x ∷ a) (y ∷ b) h e = ground (arith, memcmp-prefix a b)

memcmp_of_take :
    (a b : List ℕ) → length a ≤ length b → take (length a) b ≡ a → memcmp a b (length a) ≡ equal
unfolding memcmp
memcmp_of_take [] b h e = refl
memcmp_of_take (x ∷ a) [] h e = elim h [ ]
memcmp_of_take (x ∷ a) (y ∷ b) h e = ground (arith, memcmp_of_take a b)

prefix_matches :
    (a b : List ℕ) → length a ≤ length b → take (length a) b ≡ a → td_compare a b true ≡ equal
unfolding td_compare
prefix_matches a b h e = ground (arith, memcmp_of_take a b)

matches_prefix :
    (a b : List ℕ) → td_compare a b true ≡ equal → (length a ≤ length b) × (take (length a) b ≡ a)
unfolding td_compare
matches_prefix a b h = ground (arith, memcmp-prefix a b)

-- With partial mode off td_compare is a strict total order: equal keys and no others compare equal, the
-- comparison is antisymmetric and it is transitive.
pub td_compare_order :
    (a b c : List ℕ)
    → ((td_compare a b false ≡ equal) ↔ (a ≡ b))
      × (td_compare b a false ≡ flip (td_compare a b false))
      × (td_compare a b false ≡ less → td_compare b c false ≡ less → td_compare a c false ≡ less)
td_compare_order a b c =
    rw (td_compare-eq-lex a b, td_compare-eq-lex b a, td_compare-eq-lex b c, td_compare-eq-lex a c)
      (
        (eq_of_lex a b, λ e. subst (λ k. lex a k ≡ equal) e (lex_self a)),
        lex-flip a b,
        lex_trans a b c,
      )

-- In partial mode a key matches exactly the keys that it is a prefix of.
pub td_compare-partial :
    (a b : List ℕ)
    → (td_compare a b true ≡ equal) ↔ ((length a ≤ length b) × (take (length a) b ≡ a))
td_compare-partial a b = (matches_prefix a b, λ h. prefix_matches a b h.0 h.1)
