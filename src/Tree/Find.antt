-- ===== src/Tree/Find.antt =====
-- td_iterate_to_key over a tree.
use mathlib.Core.List.{append-nil, append_assoc}
use sdbm_tree.Common.{
  ℕ, zero, suc, ◌+◌, ◌≤◌, ◌<◌, ◌≡◌, refl, sym, subst, ap, ◌∙◌, List, [], ◌∷◌, ◌++◌, Bool, Option,
  none, some, arith, length, ◌==◌, if◌then◌else◌, length-append,
}
use sdbm_tree.Types.{Td, Cmp}
use sdbm_tree.Types.Cmp.{less, equal, more}
use sdbm_tree.Machine.{Cmd, Run, ok, pure, ◌>>=◌}
use sdbm_tree.Search.{KeyPath, at_ptr, path_valid, td_path_previous, first_match, to_key}
use sdbm_tree.Tree.{
  Node, Tree, leaf, node, inorder, height, left_of, right_of, Frames, plug, elt_of, elts, before,
  behind,
}
use sdbm_tree.Tree.Nodes.{read_head, points, is_zero, compare_head}
use sdbm_tree.Tree.Zip.{Zip, zip, whole, pre, post, path_of, ZipAt, moved_of, Backward, height-plug}
use sdbm_tree.Tree.Next.{path_is_valid}
use sdbm_tree.Tree.Previous.{td_path_previous-Backward}
use sdbm_tree.Tree.Order.{
  rank, AllAre, AllLe, Ordered, Ordered-before, Ordered-behind, AllAre-more, AllAre-less,
  AllAre-append, Landed, Found, inorder-whole,
}

module _ (td : Td) (t : Tree) (key : List ℕ) (part : Bool) where
  -- How the sought key compares to that of a node.
  abbrev pub c : Node → Cmp
  c n = td.compare key n.key part

  -- A run that ended as a search in the tree should.
  abbrev pub Ends : Run KeyPath → Type 0
  Ends r = (path : KeyPath) × (r ≡ ok path td) × Found c td t path

  module _ (short : height t < 128) (ordered : Ordered c (inorder t)) where
    Ordered-at : (z : Zip) → whole z ≡ t → Ordered c (pre z ++ (z.here ∷ post z))
    Ordered-at z e = subst (Ordered c) (ap inorder (sym e) ∙ inorder-whole z) ordered

    Found-at :
        (z : Zip) (k : Cmp)
        → ZipAt td z
        → whole z ≡ t
        → c z.here ≡ k
        → Landed c k z
        → Found c td t (record { head = elt_of z.here k; below = elts z.frames })
    Found-at z k at e hit land = record {
      place = z;
      at = at;
      inside = e;
      path_eq = ap (λ j. record { head = elt_of z.here j; below = elts z.frames }) (sym hit);
      landed = subst (λ j. Landed c j z) (sym hit) land;
    }

    -- The node before a match, if it does not match, is one that the key is above, and so are all
    -- before it.
    before_first :
        (z y : Zip)
        → whole z ≡ t
        → whole y ≡ t
        → c z.here ≡ equal
        → pre z ≡ pre y ++ (y.here ∷ [])
        → (c y.here ≡ equal → ⊥)
        → AllAre c more (pre z)
    before_first z y ez ey hit e miss = subst (AllAre c more) (sym e) (
        AllAre-append c more (pre y) (y.here ∷ [])
          (AllAre-more c (pre y) (Ordered-before c (pre y) y.here (post y) (Ordered-at y ey))
            (ap rank above))
          (above, tt))
      where
        low : AllLe c (pre y ++ (y.here ∷ [])) (rank (c z.here))
        low =
            subst (λ k. AllLe c k (rank (c z.here))) e
              (Ordered-before c (pre z) z.here (post z) (Ordered-at z ez))

        last_le : (xs : List Node) (x : Node) {b : ℕ} → AllLe c (xs ++ (x ∷ [])) b → rank (c x) ≤ b
        last_le [] x h = h.0
        last_le (w ∷ xs) x h = last_le xs x h.1

        at_most : rank (c y.here) ≤ 1
        at_most = subst (λ k. rank (c y.here) ≤ rank k) hit (last_le (pre y) y.here low)

        above : c y.here ≡ more
        above = go (c y.here) miss at_most
          where
            go : (k : Cmp) → (k ≡ equal → ⊥) → rank k ≤ 1 → k ≡ more
            go less ne le = absurd (omega arith)
            go equal ne le = absurd (ne refl)
            go more ne le = refl

    length-pre :
        (z y : Zip) {n : ℕ}
        → pre z ≡ pre y ++ (y.here ∷ [])
        → length (pre z) < suc n
        → length (pre y) < n
    length-pre z y e h = omega (arith, ap length e, length-append (pre y) (y.here ∷ []))

    -- The loop on a match goes back to the first node that matches.
    first_match-Ends :
        (fuel : ℕ) (z : Zip)
        → ZipAt td z
        → whole z ≡ t
        → c z.here ≡ equal
        → length (pre z) < fuel
        → Ends (first_match fuel (path_of z) key part td)
    unfolding first_match
    first_match-Ends zero z at e hit enough = absurd (omega arith)
    first_match-Ends (suc fuel) z at e hit enough = go o.0 o.1 o.2 (first_match-Ends fuel)
      where
        o :
            (o : Option Zip) × (td_path_previous (path_of z) td ≡ ok (moved_of o) td)
            × Backward td t (pre z) (z.here ∷ post z) o
        o = td_path_previous-Backward td t z at e short

        Rest : Type 0
        Rest =
            (y : Zip)
            → ZipAt td y
            → whole y ≡ t
            → c y.here ≡ equal
            → length (pre y) < fuel
            → Ends (first_match fuel (path_of y) key part td)

        stays : AllAre c more (pre z) → Found c td t (path_of z)
        stays h = Found-at z equal at e hit h

        split :
            (y : Zip) (k : Cmp)
            → c y.here ≡ k
            → Backward td t (pre z) (z.here ∷ post z) (some y)
            → Rest
            → Ends (
                (elim k as (λ x. Cmd KeyPath) [
                  | less ↦ pure (path_of z)
                  | equal ↦
                      first_match fuel
                        (record { head = elt_of y.here k; below = elts y.frames })
                        key
                        part
                  | more ↦ pure (path_of z)
                ])
                  td)
        split y less h b rest = (path_of z, refl, stays (before_first z y e b.1 hit b.2 (λ q. cc)))
        split y equal h b rest = rest y b.0 b.1 h (length-pre z y b.2 enough)
        split y more h b rest = (path_of z, refl, stays (before_first z y e b.1 hit b.2 (λ q. cc)))

        go :
            (o : Option Zip)
            → td_path_previous (path_of z) td ≡ ok (moved_of o) td
            → Backward td t (pre z) (z.here ∷ post z) o
            → Rest
            → Ends (first_match (suc fuel) (path_of z) key part td)
        go none r b rest = (path_of z, rw r refl, stays (subst (AllAre c more) (sym b) tt))
        go (some y) r b rest =
            rw (r, compare_head b.0.0 equal key part) (split y (c y.here) refl b rest)

    below_here : (z : Zip) → whole z ≡ t → c z.here ≡ more → AllAre c more (pre z ++ (z.here ∷ []))
    below_here z e k =
        AllAre-append c more (pre z) (z.here ∷ [])
          (AllAre-more c (pre z) (Ordered-before c (pre z) z.here (post z) (Ordered-at z e))
            (ap rank k))
          (k, tt)

    above_here : (z : Zip) → whole z ≡ t → c z.here ≡ less → AllAre c less (z.here ∷ post z)
    above_here z e k = (
      k,
      AllAre-less c (post z) (Ordered-behind c (pre z) z.here (post z) (Ordered-at z e))
          (ap rank k),
    )

    -- The state of a descent to a subtree: the key is above all that is before the hole, and below
    -- all behind it.
    pub record Descent (l : Tree) (n : Node) (r : Tree) (fs : Frames) : Type 0 where
      pub at : ZipAt td (zip l n r fs)
      pub inside : plug fs (node l n r) ≡ t
      pub lower : AllAre c more (before fs)
      pub upper : AllAre c less (behind fs)

    -- What the recursion of td_iterate_to_key does below a node, with fuel for it.
    abbrev pub Descends : ℕ → Type 0
    Descends fuel =
        (l : Tree) (n : Node) (r : Tree) (fs : Frames)
        → Descent l n r fs
        → height (node l n r) ≤ fuel
        → Ends (to_key fuel (at_ptr n.ptr) (elts fs) key part td)

    shallow :
        {l : Tree} {n : Node} {r : Tree} {fs : Frames}
        → Descent l n r fs
        → length (elts fs) + height (node l n r) < 128
    shallow {l} {n} {r} {fs} d = omega (arith, height-plug fs (node l n r), ap height d.inside)

    -- The descent to the `previous` side.
    go_left :
        (fuel : ℕ) (l : Tree) (n : Node) (r : Tree) (fs : Frames)
        → Descent l n r fs
        → c n ≡ less
        → height (node l n r) ≤ suc fuel
        → Descends fuel
        → Ends (
            (if n.head.previous == 0
                then pure (record { head = elt_of n less; below = elts fs })
                else path_valid (elt_of n less ∷ elts fs) >>= (λ _.
                  to_key fuel (at_ptr n.head.previous) (elt_of n less ∷ elts fs) key part))
              td)
    go_left fuel leaf n r fs d k deep rest = rw (is_zero d.at.1) (
      record { head = elt_of n less; below = elts fs },
      refl,
      Found-at (zip leaf n r fs) less d.at d.inside k (
        subst (AllAre c more) (sym (append-nil (before fs))) d.lower,
        above_here (zip leaf n r fs) d.inside k,
        refl,
      ),
    )
    go_left fuel (node a m b) n r fs d k deep rest =
        let at_m = d.at.3 in
        let above = above_here (zip (node a m b) n r fs) d.inside k in
        let down : Descent a m b (left_of n r ∷ fs) = record {
          at = (at_m.0, at_m.1, at_m.2, at_m.3, at_m.4, (d.at.0, d.at.1, d.at.2, d.at.4, d.at.5));
          inside = d.inside;
          lower = d.lower;
          upper = above;
        } in
        rw
          (
            points at_m.0 d.at.1,
            path_is_valid (suc (suc (length (elts fs)))) (omega (arith, shallow d)),
          )
          (subst (λ p. Ends (to_key fuel (at_ptr p) (elt_of n less ∷ elts fs) key part td))
            (sym d.at.1) (rest a m b (left_of n r ∷ fs) down (omega arith)))

    -- The descent to the `next` side.
    go_right :
        (fuel : ℕ) (l : Tree) (n : Node) (r : Tree) (fs : Frames)
        → Descent l n r fs
        → c n ≡ more
        → height (node l n r) ≤ suc fuel
        → Descends fuel
        → Ends (
            (if n.head.next == 0
                then pure (record { head = elt_of n more; below = elts fs })
                else path_valid (elt_of n more ∷ elts fs)
                  >>= (λ _. to_key fuel (at_ptr n.head.next) (elt_of n more ∷ elts fs) key part))
              td)
    go_right fuel l n leaf fs d k deep rest = rw (is_zero d.at.2) (
      record { head = elt_of n more; below = elts fs },
      refl,
      Found-at (zip l n leaf fs) more d.at d.inside k
          (below_here (zip l n leaf fs) d.inside k, d.upper, refl),
    )
    go_right fuel l n (node a m b) fs d k deep rest =
        let at_m = d.at.4 in
        let under : AllAre c more (before fs ++ (inorder l ++ (n ∷ []))) =
          subst (AllAre c more) (append_assoc (before fs) (inorder l) (n ∷ []))
            (below_here (zip l n (node a m b) fs) d.inside k) in
        let down : Descent a m b (right_of l n ∷ fs) = record {
          at = (at_m.0, at_m.1, at_m.2, at_m.3, at_m.4, (d.at.0, d.at.1, d.at.2, d.at.3, d.at.5));
          inside = d.inside;
          lower = under;
          upper = d.upper;
        } in
        rw
          (
            points at_m.0 d.at.2,
            path_is_valid (suc (suc (length (elts fs)))) (omega (arith, shallow d)),
          )
          (subst (λ p. Ends (to_key fuel (at_ptr p) (elt_of n more ∷ elts fs) key part td))
            (sym d.at.2) (rest a m b (right_of l n ∷ fs) down (omega arith)))

    module _ (few : length (inorder t) ≤ td.header.size) where
      pre_few : (z : Zip) → whole z ≡ t → length (pre z) < td.header.size + 1
      pre_few z e = omega (
        arith,
        ap length (inorder-whole z),
        ap (λ k. length (inorder k)) e,
        length-append (pre z) (z.here ∷ post z),
      )

      pub to_key-Ends : (fuel : ℕ) → Descends fuel
      unfolding to_key
      to_key-Ends zero l n r fs d deep = absurd (omega arith)
      to_key-Ends (suc fuel) l n r fs d deep =
          rw
            (
              path_is_valid (suc (length (elts fs))) (omega (arith, shallow d)),
              read_head d.at.0,
              compare_head d.at.0 equal key part,
            )
            (split (c n) refl (to_key-Ends fuel))
        where
          split :
              (k : Cmp)
              → c n ≡ k
              → Descends fuel
              → Ends (
                  (elim k as (λ x. Cmd KeyPath) [
                    | less ↦
                        if n.head.previous == 0
                        then pure (record { head = elt_of n k; below = elts fs })
                        else path_valid (elt_of n k ∷ elts fs) >>= (λ _.
                          to_key fuel (at_ptr n.head.previous) (elt_of n k ∷ elts fs) key part)
                    | more ↦
                        if n.head.next == 0
                        then pure (record { head = elt_of n k; below = elts fs })
                        else path_valid (elt_of n k ∷ elts fs) >>= (λ _.
                          to_key fuel (at_ptr n.head.next) (elt_of n k ∷ elts fs) key part)
                    | equal ↦
                        first_match
                          (td.header.size + 1)
                          (record { head = elt_of n k; below = elts fs })
                          key
                          part
                  ])
                    td)
          split less k rest = go_left fuel l n r fs d k deep rest
          split more k rest = go_right fuel l n r fs d k deep rest
          split equal k rest =
              first_match-Ends (td.header.size + 1) (zip l n r fs) d.at d.inside k
                (pre_few (zip l n r fs) d.inside)
