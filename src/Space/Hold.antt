-- ===== src/Space/Hold.antt =====
-- What td_claim leaves: the free chunks that remain, where a chunk is granted whole.
use sdbm_tree.Common.{
  ℕ, ◌+◌, ◌-◌, ◌≤◌, ◌<◌, ◌≡◌, refl, sym, subst, ap, ◌∙◌, ◌⊎◌, inl, inr, Bool, false, List, [], ◌∷◌,
  ◌++◌, arith, length, length-append, sub32, word_mod, Bool-cases,
}
use sdbm_tree.Types.{Td, Chunkhead, Memory}
use sdbm_tree.Memory.{slice}
use sdbm_tree.Memory.Laws.{slice-blit_outside}
use sdbm_tree.Io.{td_write_chunkhead, encode_chunkhead}
use sdbm_tree.Io.Codec.{length-encode_chunkhead}
use sdbm_tree.Io.Frame.{set_chunk}
use sdbm_tree.Space.{
  Fitrec, Scanned, Claim, claimed, no_space, perfect, table, choose, use_chunk, relink, drop_empty,
  claim_scanned, td_claim_, td_claim, claim_extending, td_align, scan,
}
use sdbm_tree.Space.Free.{Free, Linked, Disjoint, Disjoint-middle}
use sdbm_tree.Space.Relink.{AwayFree, AwayFree-append, Agree, Relinked}
use sdbm_tree.Space.Fit.{Pick, AllPick}

-- The free chunks of a btree: linked from `off_e` on, without overlaps, and counted.
pub record FreeAt (td : Td) (ps : List Free) : Type 0 where
  pub word : td.header.size < word_mod
  pub linked : Linked td.header.size td.mem td.header.off_e ps 0
  pub disjoint : Disjoint ps
  pub count : td.header.nempties ≡ length ps

-- What is left of a chunk of which the first `given` bytes are granted.
abbrev pub Remains : Free → ℕ → List Free → Type 0
Remains c given rest =
    ((rest ≡ []) × (given ≡ c.size))
    ⊎ ((rest ≡ record { ptr = c.ptr + given; size = c.size - given } ∷ []) × (given + 16 ≤ c.size))

-- The state with other free chunks, `n` in number, and other bytes.
abbrev pub refreed : Td → Td → ℕ → Td
refreed td td' n = record td {
  header = record (td.header) { off_e = td'.header.off_e; nempties = n };
  mem = td'.mem;
}

-- `given` bytes at `off` are granted for a request of `s`: the first ones of a free chunk. The other
-- free chunks and the rest of this one are what remains free, and nothing but their heads changed.
pub record Claimed (td td' : Td) (ps : List Free) (contiguous : Bool) (s off given : ℕ)
    : Type 0 where
  pub pre : List Free
  pub chunk : Free
  pub post : List Free
  pub rest : List Free
  pub split : ps ≡ pre ++ (chunk ∷ post)
  pub off_eq : off ≡ chunk.ptr
  pub remains : Remains chunk given rest
  pub enough : (given ≡ s) ⊎ ((given < s) × (contiguous ≡ false))
  pub free : FreeAt td' (pre ++ (rest ++ post))
  pub state : td' ≡ refreed td td' td'.header.nempties
  pub outside : (a k : ℕ) → AwayFree a k ps → slice td'.mem a k ≡ slice td.mem a k

pub choose-Pick :
    (ps : List Free) (contiguous : Bool) (s nicest : ℕ) (r : Fitrec) (rs : List Fitrec)
    → Pick ps contiguous s r
    → AllPick ps contiguous s rs
    → Pick ps contiguous s (choose nicest r rs)
unfolding choose
choose-Pick ps contiguous s nicest r [] p h = p
choose-Pick ps contiguous s nicest r (x ∷ rs) p h =
    elim (Bool-cases (sdbm_tree.Space.td_claim_fit x.dif nicest)) [
      | inl yes_fit ↦ rw yes_fit (choose-Pick ps contiguous s x.dif x rs h.0 h.1)
      | inr no_fit ↦ rw no_fit (choose-Pick ps contiguous s nicest r rs p h.1)
    ]

pub Agree-set_chunk : (m : Memory) (p : ℕ) (c : Chunkhead) → Agree m (set_chunk m p c) p 16
Agree-set_chunk m p c = λ q apart.
    ap (λ k. sdbm_tree.Io.word_at k 0)
      (slice-blit_outside m p (encode_chunkhead c) q 4 (ground (arith, length-encode_chunkhead c)))

-- The btree with a free chunk less counted.
abbrev pub dropped : Td → Td
dropped td = record td { header = record (td.header) { nempties = sub32 td.header.nempties 1 } }

-- A chunk unlinked and not counted any more: it was granted whole.
pub whole-Claimed :
    (td td' : Td) (ps : List Free) (contiguous : Bool) (s : ℕ) (pre : List Free) (c : Free)
    (post : List Free)
    → FreeAt td ps
    → length ps < word_mod
    → ps ≡ pre ++ (c ∷ post)
    → Relinked td td' pre post
    → (c.size ≡ s) ⊎ ((c.size < s) × (contiguous ≡ false))
    → Claimed td (dropped td') ps contiguous s c.ptr c.size
whole-Claimed td td' ps contiguous s pre c post f few split r enough = record {
  pre = pre;
  chunk = c;
  post = post;
  rest = [];
  split = split;
  off_eq = refl;
  remains = inl (refl, refl);
  enough = enough;
  free = record {
    word = omega (arith, f.word, same_size);
    linked =
        subst (λ k. Linked k td'.mem td'.header.off_e (pre ++ post) 0) (sym same_size) r.linked;
    disjoint = (Disjoint-middle pre c post (subst Disjoint split f.disjoint)).2;
    count = omega (
      arith,
      same_count,
      f.count,
      few,
      ap length split,
      length-append {0} pre (c ∷ post),
      length-append {0} pre post,
    );
  };
  state = ap dropped r.state ∙ ap (λ k. refreed td td' (sub32 k 1)) (sym same_count);
  outside = λ a k away.
      r.outside a k (AwayFree-append a k pre (c ∷ post) (subst (AwayFree a k) split away)).0;
}
  where
    same_size : td'.header.size ≡ td.header.size
    same_size = ap (λ k. k.header.size) r.state

    same_count : td'.header.nempties ≡ td.header.nempties
    same_count = ap (λ k. k.header.nempties) r.state
