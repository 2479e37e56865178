-- ===== src/Space/Fit.antt =====
-- Which free chunks can serve a request, and the table of them in td_claim_ (td_claim.c).
use sdbm_tree.Common.{
  ℕ, ◌+◌, ◌≤◌, ◌<◌, ◌≡◌, refl, ◌⊎◌, inl, inr, Bool, false, not, ◌&&◌, List, [], ◌∷◌, ◌++◌, arith,
  leb, ltb, word_mod, Bool-cases, ◌-◌,
}
use sdbm_tree.Types.{Chunkhead}
use sdbm_tree.Space.{Fitrec, enter, sub64}
use sdbm_tree.Space.Free.{Free, first_ptr, last_of}

-- A chunk of this size may be cut in two, or used whole where the space need not be contiguous.
abbrev pub Usable : Bool → ℕ → ℕ → Type 0
Usable contiguous s size = (s + 16 ≤ size) ⊎ ((size < s) × (contiguous ≡ false))

-- A chunk that can serve no request of this size.
abbrev pub Unfit : Bool → ℕ → Free → Type 0
Unfit contiguous s f = ((f.size ≡ s) → ⊥) × (Usable contiguous s f.size → ⊥)

abbrev pub AllUnfit : Bool → ℕ → List Free → Type 0
AllUnfit contiguous s [] = Unit {0}
AllUnfit contiguous s (f ∷ fs) = Unfit contiguous s f × AllUnfit contiguous s fs

pub AllUnfit-snoc :
    (contiguous : Bool) (s : ℕ) (xs : List Free) (f : Free)
    → AllUnfit contiguous s xs
    → Unfit contiguous s f
    → AllUnfit contiguous s (xs ++ (f ∷ []))
AllUnfit-snoc contiguous s [] f h u = (u, tt)
AllUnfit-snoc contiguous s (x ∷ xs) f h u = (h.0, AllUnfit-snoc contiguous s xs f h.1 u)

-- A record of the table is about a free chunk that can be used.
pub record Pick (ps : List Free) (contiguous : Bool) (s : ℕ) (r : Fitrec) : Type 0 where
  pub pre : List Free
  pub chunk : Free
  pub post : List Free
  pub split : ps ≡ pre ++ (chunk ∷ post)
  pub ptr_eq : r.ptr ≡ chunk.ptr
  pub nxt_eq : r.nxt ≡ first_ptr post
  pub siz_eq : r.siz ≡ chunk.size
  pub lst_eq : r.lst ≡ last_of chunk.ptr pre
  pub usable : Usable contiguous s chunk.size

abbrev pub AllPick : List Free → Bool → ℕ → List Fitrec → Type 0
AllPick ps contiguous s [] = Unit {0}
AllPick ps contiguous s (r ∷ rs) = Pick ps contiguous s r × AllPick ps contiguous s rs

pub AllPick-snoc :
    (ps : List Free) (contiguous : Bool) (s : ℕ) (rs : List Fitrec) (r : Fitrec)
    → AllPick ps contiguous s rs
    → Pick ps contiguous s r
    → AllPick ps contiguous s (rs ++ (r ∷ []))
AllPick-snoc ps contiguous s [] r h p = (p, tt)
AllPick-snoc ps contiguous s (x ∷ rs) r h p = (h.0, AllPick-snoc ps contiguous s rs r h.1 p)

-- What `enter` adds to the table.
abbrev pub Entered : Bool → ℕ → ℕ → ℕ → Chunkhead → List Fitrec → List Fitrec → Type 0
Entered contiguous s ptr last h fits fits' =
    ((r : Fitrec) × (fits' ≡ fits ++ (r ∷ []))
      × (r.ptr ≡ ptr)
      × (r.nxt ≡ h.next)
      × (r.siz ≡ h.size)
      × (r.lst ≡ last)
      × Usable contiguous s h.size)
    ⊎ ((fits' ≡ fits) × (Usable contiguous s h.size → ⊥))

pub enter-Entered :
    (contiguous : Bool) (s ptr last : ℕ) (h : Chunkhead) (fits : List Fitrec)
    → 16 ≤ h.size
    → h.size < word_mod
    → Entered contiguous s ptr last h fits (enter contiguous s ptr last h fits)
unfolding enter
enter-Entered contiguous s ptr last h fits room word =
    let wide : sub64 h.size 16 ≡ h.size - 16 = omega arith in
    elim (Bool-cases (leb s (sub64 h.size 16))) [
      | inl big ↦ rw big (inl (_, refl, refl, refl, refl, refl, inl (ground (arith, big, wide))))
      | inr small ↦ elim (Bool-cases (ltb h.size s && not contiguous)) [
        | inl less ↦ rw (small, less) (inl (_, refl, refl, refl, refl, refl, inr (ground arith)))
        | inr more ↦ rw (small, more) (inr (refl, λ u. ground (arith, wide)))
      ]
    ]
