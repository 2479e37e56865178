-- ===== src/Tree/Order.antt =====
-- Nodes in the order that a search needs, and where a search ends.
use mathlib.Core.List.{append_assoc, append-nil}
use sdbm_tree.Common.{ℕ, ◌≤◌, ◌≡◌, refl, sym, ap, ◌∙◌, List, [], ◌∷◌, ◌++◌, arith}
use sdbm_tree.Types.{Td, Cmp}
use sdbm_tree.Types.Cmp.{less, equal, more}
use sdbm_tree.Search.{KeyPath}
use sdbm_tree.Tree.{
  Node, Tree, leaf, node, inorder, left_of, right_of, Frames, plug, elt_of, elts, before, behind,
}
use sdbm_tree.Tree.Zip.{Zip, whole, pre, post, ZipAt}

-- The sought key is above the nodes that come first, and below those that come last.
abbrev pub rank : Cmp → ℕ
rank more = 0
rank equal = 1
rank less = 2

module _ (c : Node → Cmp) where
  abbrev pub AllAre : Cmp → List Node → Type 0
  AllAre k [] = Unit {0}
  AllAre k (x ∷ xs) = (c x ≡ k) × AllAre k xs

  abbrev pub NoneIs : Cmp → List Node → Type 0
  NoneIs k [] = Unit {0}
  NoneIs k (x ∷ xs) = (c x ≡ k → ⊥) × NoneIs k xs

  abbrev pub AllLe : List Node → ℕ → Type 0
  AllLe [] b = Unit {0}
  AllLe (x ∷ xs) b = (rank (c x) ≤ b) × AllLe xs b

  abbrev pub AllGe : ℕ → List Node → Type 0
  AllGe b [] = Unit {0}
  AllGe b (x ∷ xs) = (b ≤ rank (c x)) × AllGe b xs

  -- The nodes that the key is above come first, then those that it matches, then the rest.
  abbrev pub Ordered : List Node → Type 0
  Ordered [] = Unit {0}
  Ordered (x ∷ xs) = AllGe (rank (c x)) xs × Ordered xs

  AllGe-append :
      (b : ℕ) (xs : List Node) (y : Node) (ys : List Node)
      → AllGe b (xs ++ (y ∷ ys))
      → b ≤ rank (c y)
  AllGe-append b [] y ys h = h.0
  AllGe-append b (x ∷ xs) y ys h = AllGe-append b xs y ys h.1

  pub Ordered-before :
      (xs : List Node) (y : Node) (ys : List Node)
      → Ordered (xs ++ (y ∷ ys))
      → AllLe xs (rank (c y))
  Ordered-before [] y ys o = tt
  Ordered-before (x ∷ xs) y ys o =
      (AllGe-append (rank (c x)) xs y ys o.0, Ordered-before xs y ys o.1)

  pub Ordered-behind :
      (xs : List Node) (y : Node) (ys : List Node)
      → Ordered (xs ++ (y ∷ ys))
      → AllGe (rank (c y)) ys
  Ordered-behind [] y ys o = o.0
  Ordered-behind (x ∷ xs) y ys o = Ordered-behind xs y ys o.1

  pub AllAre-more : (xs : List Node) {b : ℕ} → AllLe xs b → b ≡ 0 → AllAre more xs
  AllAre-more [] h e = tt
  AllAre-more (x ∷ xs) h e = (rank-more (c x) (omega (arith, h.0)), AllAre-more xs h.1 e)
    where
      rank-more : (k : Cmp) → rank k ≤ 0 → k ≡ more
      rank-more less h = absurd (omega arith)
      rank-more equal h = absurd (omega arith)
      rank-more more h = refl

  pub AllAre-less : (xs : List Node) {b : ℕ} → AllGe b xs → b ≡ 2 → AllAre less xs
  AllAre-less [] h e = tt
  AllAre-less (x ∷ xs) h e = (rank-less (c x) (omega (arith, h.0)), AllAre-less xs h.1 e)
    where
      rank-less : (k : Cmp) → 2 ≤ rank k → k ≡ less
      rank-less less h = refl
      rank-less equal h = absurd (omega arith)
      rank-less more h = absurd (omega arith)

  pub AllAre-append :
      (k : Cmp) (xs ys : List Node) → AllAre k xs → AllAre k ys → AllAre k (xs ++ ys)
  AllAre-append k [] ys h h' = h'
  AllAre-append k (x ∷ xs) ys h h' = (h.0, AllAre-append k xs ys h.1 h')

  -- Where a search may end, by what it found there: at the first node that matches; or beside the
  -- place of the key, where no node matches.
  abbrev pub Landed : Cmp → Zip → Type 0
  Landed equal z = AllAre more (pre z)
  Landed less z = AllAre more (pre z) × AllAre less (z.here ∷ post z) × (z.left ≡ leaf)
  Landed more z = AllAre more (pre z ++ (z.here ∷ [])) × AllAre less (post z) × (z.right ≡ leaf)

  -- A search in the tree `t` ended with this path.
  pub record Found (td : Td) (t : Tree) (path : KeyPath) : Type 0 where
    pub place : Zip
    pub at : ZipAt td place
    pub inside : whole place ≡ t
    pub path_eq :
        path ≡ record { head = elt_of place.here (c place.here); below = elts place.frames }
    pub landed : Landed (c place.here) place

pub inorder-plug :
    (fs : Frames) (t : Tree) → inorder (plug fs t) ≡ before fs ++ (inorder t ++ behind fs)
inorder-plug [] t = sym (append-nil (inorder t))
inorder-plug (left_of n r ∷ fs) t =
    inorder-plug fs (node t n r)
    ∙ ap (λ k. before fs ++ k) (append_assoc (inorder t) (n ∷ inorder r) (behind fs))
inorder-plug (right_of l n ∷ fs) t =
    inorder-plug fs (node l n t)
    ∙ rw
        (
          append_assoc (before fs) (inorder l ++ (n ∷ [])) (inorder t ++ behind fs),
          append_assoc (inorder l) (n ∷ []) (inorder t ++ behind fs),
          append_assoc (inorder l) (n ∷ inorder t) (behind fs),
        )
        refl

pub inorder-whole : (z : Zip) → inorder (whole z) ≡ pre z ++ (z.here ∷ post z)
inorder-whole z =
    inorder-plug z.frames (node z.left z.here z.right)
    ∙ rw
        (
          append_assoc (before z.frames) (inorder z.left) (z.here ∷ post z),
          append_assoc (inorder z.left) (z.here ∷ inorder z.right) (behind z.frames),
        )
        refl
