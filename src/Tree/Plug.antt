-- ===== src/Tree/Plug.antt =====
-- A tree taken apart at a hole, and put together again.
use sdbm_tree.Common.{ℕ, ◌≡◌, refl, ◌∙◌, [], ◌∷◌}
use sdbm_tree.Types.{Td}
use sdbm_tree.Tree.{Tree, node, root, TreeAt, left_of, right_of, Frames, plug, FramesAt}
use sdbm_tree.Tree.Turn.{top_of}

pub TreeAt-unplug :
    (td : Td) (fs : Frames) (t : Tree)
    → TreeAt td (plug fs t)
    → TreeAt td t × FramesAt td (root t) fs
TreeAt-unplug td [] t at = (at, tt)
TreeAt-unplug td (left_of n r ∷ fs) t at =
    let ((at_n, e, e', at_t, at_r), at_fs) = TreeAt-unplug td fs (node t n r) at in
    (at_t, (at_n, e, e', at_r, at_fs))
TreeAt-unplug td (right_of l n ∷ fs) t at =
    let ((at_n, e, e', at_l, at_t), at_fs) = TreeAt-unplug td fs (node l n t) at in
    (at_t, (at_n, e, e', at_l, at_fs))

pub TreeAt-plug :
    (td : Td) (fs : Frames) (t : Tree) (p : ℕ)
    → p ≡ root t
    → TreeAt td t
    → FramesAt td p fs
    → TreeAt td (plug fs t)
TreeAt-plug td [] t p e at at_fs = at
TreeAt-plug td (left_of n r ∷ fs) t p e at (at_n, q, q', at_r, at_fs) =
    TreeAt-plug td fs (node t n r) n.ptr refl (at_n, q ∙ e, q', at, at_r) at_fs
TreeAt-plug td (right_of l n ∷ fs) t p e at (at_n, q, q', at_l, at_fs) =
    TreeAt-plug td fs (node l n t) n.ptr refl (at_n, q, q' ∙ e, at_l, at) at_fs

-- What points to the whole tree.
pub root-plug : (fs : Frames) (t : Tree) → root (plug fs t) ≡ top_of (root t) fs
root-plug [] t = refl
root-plug (left_of n r ∷ fs) t = root-plug fs (node t n r)
root-plug (right_of l n ∷ fs) t = root-plug fs (node l n t)
