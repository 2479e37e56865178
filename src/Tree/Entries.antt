-- ===== src/Tree/Entries.antt =====
-- What depends on the entries of a tree alone, and frames that point to what is in their hole.
use sdbm_tree.Common.{
  ℕ, suc, ◌+◌, ◌≤◌, ◌≡◌, refl, sym, subst, ap, ◌∙◌, ◌⊎◌, List, [], ◌∷◌, map, length, length-append,
}
use sdbm_tree.Types.{Td}
use sdbm_tree.Tree.{Node, Tree, node, inorder, left_of, right_of, Frames, FramesAt}
use sdbm_tree.Tree.Separate.{ApartFrom, Separated, with_head}
use sdbm_tree.Tree.Child.{set_child}
use sdbm_tree.Tree.Keep.{Entry, entry, entries}

-- Separation is a matter of offsets and keys.
abbrev EntryApart : Entry → Entry → Type 0
EntryApart a b = (a.ptr + (24 + length a.key) ≤ b.ptr) ⊎ (b.ptr + (24 + length b.key) ≤ a.ptr)

abbrev EntryApartFrom : Entry → List Entry → Type 0
EntryApartFrom a [] = Unit {0}
EntryApartFrom a (b ∷ bs) = EntryApart a b × EntryApartFrom a bs

abbrev EntrySeparated : List Entry → Type 0
EntrySeparated [] = Unit {0}
EntrySeparated (a ∷ bs) = EntryApartFrom a bs × EntrySeparated bs

apart_to : (n : Node) (ns : List Node) → ApartFrom n ns → EntryApartFrom (entry n) (map entry ns)
apart_to n [] h = tt
apart_to n (m ∷ ns) h = (h.0, apart_to n ns h.1)

apart_from : (n : Node) (ns : List Node) → EntryApartFrom (entry n) (map entry ns) → ApartFrom n ns
apart_from n [] h = tt
apart_from n (m ∷ ns) h = (h.0, apart_from n ns h.1)

Separated-to : (ns : List Node) → Separated ns → EntrySeparated (map entry ns)
Separated-to [] h = tt
Separated-to (n ∷ ns) h = (apart_to n ns h.0, Separated-to ns h.1)

Separated-from : (ns : List Node) → EntrySeparated (map entry ns) → Separated ns
Separated-from [] h = tt
Separated-from (n ∷ ns) h = (apart_from n ns h.0, Separated-from ns h.1)

pub Separated-entries :
    (s t : Tree) → entries t ≡ entries s → Separated (inorder s) → Separated (inorder t)
Separated-entries s t e h =
    Separated-from (inorder t) (subst EntrySeparated (sym e) (Separated-to (inorder s) h))

-- The number of nodes.
abbrev pub nodes : Tree → ℕ
nodes t = length (inorder t)

pub nodes-node : (l : Tree) (n : Node) (r : Tree) → nodes (node l n r) ≡ nodes l + suc (nodes r)
nodes-node l n r = length-append (inorder l) (n ∷ inorder r)

pub length-map : (ns : List Node) → length (map entry ns) ≡ length ns
length-map [] = refl
length-map (n ∷ ns) = ap suc (length-map ns)

pub nodes-entries : (s t : Tree) → entries t ≡ entries s → nodes s ≡ nodes t
nodes-entries s t e = sym (length-map (inorder s)) ∙ ap length (sym e) ∙ length-map (inorder t)

-- The frames already point to what is in their hole.
pub set_child_self : (td : Td) (fs : Frames) (p : ℕ) → FramesAt td p fs → set_child fs p ≡ fs
set_child_self td [] p at = refl
set_child_self td (left_of n r ∷ fs) p at =
    ap (λ k. left_of (with_head n (record (n.head) { previous = k })) r ∷ fs) (sym at.1)
set_child_self td (right_of l n ∷ fs) p at =
    ap (λ k. right_of l (with_head n (record (n.head) { next = k })) ∷ fs) (sym at.2)

-- Nodes with the same entries are as far apart.
pub Separated-map : (ns ms : List Node) → map entry ms ≡ map entry ns → Separated ns → Separated ms
Separated-map ns ms e h = Separated-from ms (subst EntrySeparated (sym e) (Separated-to ns h))
