-- ===== src/Space/Free.antt =====
-- The list of free chunks in the resource: each chunk has its `next` link and its size in its first
-- two words, and `header.off_e` points to the first.
use sdbm_tree.Common.{ℕ, ◌+◌, ◌≤◌, ◌≡◌, refl, sym, subst, ap, ◌∙◌, ◌⊎◌, List, [], ◌∷◌, ◌++◌, arith}
use sdbm_tree.Types.{Memory}
use sdbm_tree.Memory.{slice}
use sdbm_tree.Io.{word_at, decode_chunkhead}
use sdbm_tree.Io.Frame.{chunk_at}
use sdbm_tree.Space.Chain.{link_at}

-- A free chunk: its offset and its size.
pub record Free : Type 0 where
  pub ptr : ℕ
  pub size : ℕ

-- The chunk lies behind the header and within the resource, has room for a chunkhead, and its second
-- word is its size.
pub record FreeIn (limit : ℕ) (m : Memory) (f : Free) : Type 0 where
  pub low : 44 ≤ f.ptr
  pub room : 16 ≤ f.size
  pub high : f.ptr + f.size ≤ limit
  pub size_eq : link_at m (f.ptr + 4) ≡ f.size

-- From `p` on the chunks are linked in this order, and the last one points to `q`.
abbrev pub Linked : ℕ → Memory → ℕ → List Free → ℕ → Type 0
Linked limit m p [] q = p ≡ q
Linked limit m p (f ∷ fs) q = (p ≡ f.ptr) × FreeIn limit m f × Linked limit m (link_at m f.ptr) fs q

-- Chunks that do not overlap.
abbrev pub Beside : Free → Free → Type 0
Beside f g = (f.ptr + f.size ≤ g.ptr) ⊎ (g.ptr + g.size ≤ f.ptr)

abbrev pub BesideAll : Free → List Free → Type 0
BesideAll f [] = Unit {0}
BesideAll f (g ∷ gs) = Beside f g × BesideAll f gs

abbrev pub Disjoint : List Free → Type 0
Disjoint [] = Unit {0}
Disjoint (f ∷ fs) = BesideAll f fs × Disjoint fs

abbrev pub first_ptr : List Free → ℕ
first_ptr [] = 0
first_ptr (f ∷ fs) = f.ptr

-- The last of the chunks, `d` if there is none.
abbrev pub last_of : ℕ → List Free → ℕ
last_of d [] = d
last_of d (f ∷ fs) = last_of f.ptr fs

pub BesideAll-append :
    (f : Free) (xs ys : List Free) → BesideAll f (xs ++ ys) → BesideAll f xs × BesideAll f ys
BesideAll-append f [] ys h = (tt, h)
BesideAll-append f (x ∷ xs) ys h = let r = BesideAll-append f xs ys h.1 in ((h.0, r.0), r.1)

pub BesideAll-join :
    (f : Free) (xs ys : List Free) → BesideAll f xs → BesideAll f ys → BesideAll f (xs ++ ys)
BesideAll-join f [] ys h h' = h'
BesideAll-join f (x ∷ xs) ys h h' = (h.0, BesideAll-join f xs ys h.1 h')

-- A chunk in the middle is beside all others.
pub Disjoint-middle :
    (xs : List Free) (c : Free) (ys : List Free)
    → Disjoint (xs ++ (c ∷ ys))
    → BesideAll c xs × BesideAll c ys × Disjoint (xs ++ ys)
Disjoint-middle [] c ys d = (tt, d.0, d.1)
Disjoint-middle (x ∷ xs) c ys d =
    let (a, b, e) = Disjoint-middle xs c ys d.1 in
    let h = BesideAll-append x xs (c ∷ ys) d.0 in
    ((ground arith, a), b, (BesideAll-join x xs ys h.0 h.1.1, e))

-- And a smaller chunk within it may take its place.
pub Disjoint-insert :
    (xs : List Free) (c : Free) (ys : List Free)
    → BesideAll c xs
    → BesideAll c ys
    → Disjoint (xs ++ ys)
    → Disjoint (xs ++ (c ∷ ys))
Disjoint-insert [] c ys a b d = (b, d)
Disjoint-insert (x ∷ xs) c ys a b d =
    let h = BesideAll-append x xs ys d.0 in
    (BesideAll-join x xs (c ∷ ys) h.0 (ground arith, h.1), Disjoint-insert xs c ys a.1 b d.1)

pub BesideAll-part :
    (c d : Free) (xs : List Free)
    → c.ptr ≤ d.ptr
    → d.ptr + d.size ≤ c.ptr + c.size
    → BesideAll c xs
    → BesideAll d xs
BesideAll-part c d [] lo hi h = tt
BesideAll-part c d (x ∷ xs) lo hi h = (ground arith, BesideAll-part c d xs lo hi h.1)

-- Chains put together and taken apart.
pub Linked-append :
    (limit : ℕ) (m : Memory) (p q r : ℕ) (xs ys : List Free)
    → Linked limit m p xs q
    → Linked limit m q ys r
    → Linked limit m p (xs ++ ys) r
Linked-append limit m p q r [] ys h h' = subst (λ k. Linked limit m k ys r) (sym h) h'
Linked-append limit m p q r (x ∷ xs) ys h h' =
    (h.0, h.1, Linked-append limit m (link_at m x.ptr) q r xs ys h.2 h')

pub Linked-split :
    (limit : ℕ) (m : Memory) (p r : ℕ) (xs ys : List Free)
    → Linked limit m p (xs ++ ys) r
    → (q : ℕ) × Linked limit m p xs q × Linked limit m q ys r
Linked-split limit m p r [] ys h = (p, refl, h)
Linked-split limit m p r (x ∷ xs) ys h =
    let (q, a, b) = Linked-split limit m (link_at m x.ptr) r xs ys h.2 in (q, (h.0, h.1, a), b)

pub Linked-first :
    (limit : ℕ) (m : Memory) (p : ℕ) (xs : List Free) → Linked limit m p xs 0 → p ≡ first_ptr xs
Linked-first limit m p [] h = h
Linked-first limit m p (x ∷ xs) h = h.0

-- The words of a chunkhead.
pub next-chunk_at : (m : Memory) (p : ℕ) → (chunk_at m p).next ≡ link_at m p
unfolding slice decode_chunkhead
next-chunk_at m p = refl

pub size-chunk_at : (m : Memory) (p : ℕ) → (chunk_at m p).size ≡ link_at m (p + 4)
unfolding slice decode_chunkhead
size-chunk_at m p =
    let e : p + 1 + 1 + 1 + 1 ≡ p + 4 = omega arith in
    ap (λ k. word_at (m k ∷ m (k + 1) ∷ m (k + 1 + 1) ∷ m (k + 1 + 1 + 1) ∷ []) 0) e

-- Another memory that agrees on the first two words of the chunks.
abbrev pub SameHeads : Memory → Memory → List Free → Type 0
SameHeads m k [] = Unit {0}
SameHeads m k (f ∷ fs) =
    (link_at k f.ptr ≡ link_at m f.ptr)
    × (link_at k (f.ptr + 4) ≡ link_at m (f.ptr + 4))
    × SameHeads m k fs

pub Linked-same :
    (limit : ℕ) (m k : Memory) (p q : ℕ) (xs : List Free)
    → SameHeads m k xs
    → Linked limit m p xs q
    → Linked limit k p xs q
Linked-same limit m k p q [] s h = h
Linked-same limit m k p q (x ∷ xs) (a, b, s) (e, at, h) = (
  e,
  record { low = at.low; room = at.room; high = at.high; size_eq = b ∙ at.size_eq },
  subst (λ j. Linked limit k j xs q) (sym a) (Linked-same limit m k (link_at m x.ptr) q xs s h),
)
