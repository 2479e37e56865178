-- ===== src/Cursor/Walk.antt =====
-- A cursor set by tdc_init.c and moved by tdc_nxt.c over a whole tree.
use mathlib.Core.List.{append-nil}
use sdbm_tree.Common.{
  ℕ, zero, suc, ◌<◌, ◌≡◌, refl, sym, subst, ap, ap₂, ◌∙◌, true, List, [], ◌∷◌, ◌++◌, map, Option,
  none, some, arith, length, ◌==◌,
}
use sdbm_tree.Types.{Td, Error}
use sdbm_tree.Types.Error.{notfound}
use sdbm_tree.Machine.{Cmd, ok, err, stuck, pure, fail, on_result, ◌>>=◌}
use sdbm_tree.Io.{td_read_header}
use sdbm_tree.Tdt.{Tdt, empty, bytes_of, td_read_keydata}
use sdbm_tree.Value.{td_read_value}
use sdbm_tree.Value.Read.{Allocates}
use sdbm_tree.Search.{td_path_next}
use sdbm_tree.Update.{read_into}
use sdbm_tree.Cursor.{Tdc, tdc_init_locked, tdc_nxt_locked, tdc_get_locked, current, path_next}
use sdbm_tree.Cursor.Read.{Asks, ValueAt, read_key-empty, read_value-empty}
use sdbm_tree.Tree.{Node, Tree, NodeAt, node, inorder, height, TreeAt}
use sdbm_tree.Tree.Nodes.{points}
use sdbm_tree.Tree.Zip.{
  Zip, whole, pre, post, path_of, moved_of, ZipAt, leftmost, leftmost-Onward, Onward,
}
use sdbm_tree.Tree.Next.{td_iterate_to_min-leftmost, td_path_next-Onward}

abbrev pub bytes_read : Option Tdt → List ℕ
bytes_read none = []
bytes_read (some t) = bytes_of t

-- What a caller does after an error of tdc_nxt: TDERR_NOTFOUND ends the walk.
abbrev pub walk_ended : Error → Cmd (List (List ℕ × List ℕ))
walk_ended notfound = pure []
walk_ended e = fail e

-- What a caller reads who calls tdc_nxt, each time with two empty containers, until it gives
-- TDERR_NOTFOUND: the bytes of the keys and of their values.
unfoldable pub walk : (fuel flags : ℕ) → Tdc → Cmd (List (List ℕ × List ℕ))
walk zero flags tdc td = stuck td
walk (suc fuel) flags tdc td =
    on_result (tdc_nxt_locked tdc (some empty) (some empty) flags td)
      (λ r. do rest ← walk fuel flags r.0; pure ((bytes_read r.1.key, bytes_read r.1.value) ∷ rest))
      walk_ended

-- The cursor at the node of a zip.
abbrev pub cursor_at : Td → Zip → Tdc
cursor_at td z = record { scn = td.header.scn; path = some (path_of z) }

abbrev pub cursor_after : Td → Option Zip → Tdc
cursor_after td none = record { scn = td.header.scn; path = none }
cursor_after td (some z) = cursor_at td z

-- Each node of a list has the value that `values` says.
abbrev pub ValuesAt : Td → ℕ → (Node → List ℕ) → List Node → Type 0
ValuesAt td flags values [] = Unit {0}
ValuesAt td flags values (n ∷ ns) = ValueAt td flags n (values n) × ValuesAt td flags values ns

-- The keys and the values of nodes.
abbrev pub pairs : (Node → List ℕ) → List Node → List (List ℕ × List ℕ)
pairs values = map (λ n. (n.key, values n))

-- Where the header in the resource is the one in memory.
module _ (td : Td) (same : td_read_header td ≡ ok tt td) (alloc : Allocates td) (flags : ℕ)
    (asks : Asks td flags) (values : Node → List ℕ) where
  scn_same : (td.header.scn == td.header.scn) ≡ true
  scn_same = ground arith

  current-at : (z : Zip) → current (cursor_at td z) td ≡ ok (path_of z) td
  unfolding current
  current-at z = rw (same, scn_same) refl

  tdc_nxt_locked-step :
      (z : Zip) (o : Option Zip) (k v : Tdt)
      → td_path_next (path_of z) td ≡ ok (moved_of o) td
      → td_read_keydata z.here.ptr z.here.head empty flags td ≡ ok k td
      → td_read_value z.here.head.value empty flags td ≡ ok v td
      → tdc_nxt_locked (cursor_at td z) (some empty) (some empty) flags td
        ≡ ok (cursor_after td o, record { key = some k; value = some v }) td
  unfolding tdc_nxt_locked tdc_get_locked read_into path_next
  tdc_nxt_locked-step z none k v e e_k e_v = rw (current-at z, e_k, e_v, e) refl
  tdc_nxt_locked-step z (some z') k v e e_k e_v = rw (current-at z, e_k, e_v, e) refl

  tdc_nxt_locked-end :
      tdc_nxt_locked (cursor_after td none) (some empty) (some empty) flags td ≡ err notfound td
  unfolding tdc_nxt_locked tdc_get_locked current
  tdc_nxt_locked-end = rw (same, scn_same) refl

  -- One call of tdc_nxt, and the walk from where it leaves the cursor.
  walk-step :
      (fuel : ℕ) (z : Zip) (o : Option Zip) (rest : List (List ℕ × List ℕ))
      → NodeAt td z.here
      → ValueAt td flags z.here (values z.here)
      → td_path_next (path_of z) td ≡ ok (moved_of o) td
      → walk fuel flags (cursor_after td o) td ≡ ok rest td
      → walk (suc fuel) flags (cursor_at td z) td ≡ ok ((z.here.key, values z.here) ∷ rest) td
  unfolding walk
  walk-step fuel z o rest at holds run again =
      let (k, read_k, same_k) = read_key-empty td alloc flags asks at in
      let (v, read_v, same_v) = read_value-empty td alloc flags asks at (values z.here) holds in
      rw (tdc_nxt_locked-step z o k v run read_k read_v, again)
        (ap₂ (λ a b. ok ((a, b) ∷ rest) td) same_k same_v)

  walk-end : (fuel : ℕ) → walk (suc fuel) flags (cursor_after td none) td ≡ ok [] td
  unfolding walk
  walk-end fuel = rw tdc_nxt_locked-end refl

  module _ (t : Tree) (short : height t < 128) where
    walk-rest :
        (fuel : ℕ) (z : Zip)
        → ZipAt td z
        → whole z ≡ t
        → ValuesAt td flags values (z.here ∷ post z)
        → suc (length (post z)) < fuel
        → walk fuel flags (cursor_at td z) td ≡ ok (pairs values (z.here ∷ post z)) td
    unfolding walk
    walk-rest zero z at e holds h = absurd (omega arith)
    walk-rest (suc fuel) z at e holds h =
        let (o, run, on) = td_path_next-Onward td t z at e short in
        from_step fuel z o run on at holds h (λ z' at' e'. walk-rest fuel z' at' e')
      where
        from_step :
            (fuel : ℕ) (z : Zip) (o : Option Zip)
            → td_path_next (path_of z) td ≡ ok (moved_of o) td
            → Onward td t (pre z ++ (z.here ∷ [])) (post z) o
            → ZipAt td z
            → ValuesAt td flags values (z.here ∷ post z)
            → suc (length (post z)) < suc fuel
            → ((z' : Zip)
                → ZipAt td z'
                → whole z' ≡ t
                → ValuesAt td flags values (z'.here ∷ post z')
                → suc (length (post z')) < fuel
                → walk fuel flags (cursor_at td z') td ≡ ok (pairs values (z'.here ∷ post z')) td)
            → walk (suc fuel) flags (cursor_at td z) td ≡ ok (pairs values (z.here ∷ post z)) td
        from_step zero z o run on at holds h again = absurd (omega arith)
        from_step (suc fuel) z none run on at holds h again =
            walk-step (suc fuel) z none [] at.0 holds.0 run (walk-end fuel)
            ∙ ap (λ l. ok ((z.here.key, values z.here) ∷ pairs values l) td) (sym on)
        from_step (suc fuel) z (some z') run (at', e', seen, on) at holds h again =
            walk-step (suc fuel) z (some z') (pairs values (z'.here ∷ post z')) at.0 holds.0 run (
              again z' at' e' (subst (ValuesAt td flags values) on holds.1)
                (omega (arith, ap length on)))
            ∙ ap (λ l. ok ((z.here.key, values z.here) ∷ pairs values l) td) (sym on)

  -- On a tree with a node at least, of height below 128, to which the header points, where the header
  -- in the resource is the one in memory, tdc_init sets a cursor with no error. A caller who then calls
  -- tdc_nxt, with an empty container for the key and one for the value and flags that ask for their
  -- allocation, until it gives TDERR_NOTFOUND, meets no other error, and reads the key and the value of
  -- every node once, in order; the state stays as it is. The allocation gives what it is asked for, the
  -- flags ask for no checksum of a key that the header does not, and each value is a chain of chunks,
  -- which are not more in number than the resource has bytes, with less than 2 ^ 32 bytes in them and
  -- with the checksums that the flags ask for. With a call for each key and two rounds more the walk is
  -- done.
  pub tdc_init-walk :
      (l : Tree) (n : Node) (r : Tree)
      → TreeAt td (node l n r)
      → td.header.top ≡ n.ptr
      → height (node l n r) < 128
      → ValuesAt td flags values (inorder (node l n r))
      → (tdc : Tdc) × (tdc_init_locked td ≡ ok tdc td)
        × (walk (suc (suc (length (inorder (node l n r))))) flags tdc td
            ≡ ok (pairs values (inorder (node l n r))) td)
  unfolding tdc_init_locked
  tdc_init-walk l n r (at, p, q, at_l, at_r) top short holds =
      let start = leftmost l n r [] in
      let (at', inside, seen, all) = leftmost-Onward td l n r [] (at, p, q, at_l, at_r, tt) in
      let all' : inorder (node l n r) ≡ start.here ∷ post start =
        ap (λ k. inorder l ++ (n ∷ k)) (sym (append-nil (inorder r))) ∙ all in
      let sizes : length (inorder (node l n r)) ≡ suc (length (post start)) = ap length all' in
      (
        cursor_at td start,
        rw
            (
              same,
              points at top,
              td_iterate_to_min-leftmost td td.header.top l n r [] top (at, p, q, at_l, at_r, tt)
                  (omega arith),
            )
            refl,
        walk-rest (node l n r) short (suc (suc (length (inorder (node l n r))))) start at' inside
              (subst (ValuesAt td flags values) all' holds) (omega (arith, sizes))
            ∙ ap (λ k. ok (pairs values k) td) (sym all'),
      )
