-- ===== src/Space/Cut.antt =====
-- td_claim.c where a chunk is cut in two.
use sdbm_tree.Space.Hold.{FreeAt, refreed, Claimed, Agree-set_chunk}
use sdbm_tree.Common.{
  ℕ, ◌+◌, ◌-◌, ◌≤◌, ◌≡◌, refl, sym, subst, ap, ◌∙◌, inl, inr, Bool, true, List, [], ◌∷◌, ◌++◌,
  arith, length, length-append, ltb, add32, sub32,
}
use sdbm_tree.Types.{Td, Chunkhead}
use sdbm_tree.Machine.{ok}
use sdbm_tree.Memory.Laws.{slice-blit_outside}
use sdbm_tree.Io.{encode_chunkhead}
use sdbm_tree.Io.Codec.{IsWord, ChunkheadWords, length-encode_chunkhead}
use sdbm_tree.Io.Frame.{chunk_at, set_chunk, td_write_chunkhead-ok, chunk_at-set_chunk_self}
use sdbm_tree.Space.{claimed, use_chunk, relink}
use sdbm_tree.Space.Chain.{link_at}
use sdbm_tree.Space.Free.{
  Free, Linked, Disjoint, first_ptr, last_of, Disjoint-middle, Disjoint-insert, BesideAll-part,
  Linked-split, Linked-first, next-chunk_at, size-chunk_at, Linked-same,
}
use sdbm_tree.Space.Relink.{AwayFree, AwayFree-append, SameHeads-Agree, Relinked}

-- A chunk cut in two: its first `s` bytes were granted.
module _ (td : Td) (ps : List Free) (contiguous : Bool) (s : ℕ) (pre : List Free) (c : Free)
    (post : List Free) (f : FreeAt td ps) (split : ps ≡ pre ++ (c ∷ post))
    (big : s + 16 ≤ c.size) where
  abbrev pub remainder : Free
  remainder = record { ptr = c.ptr + s; size = c.size - s }

  abbrev pub remainder_head : Chunkhead
  remainder_head = record { next = first_ptr post; size = c.size - s; checksum = 0; refcount = 0 }

  abbrev pub cut : Td
  cut = record td { mem = set_chunk td.mem (c.ptr + s) remainder_head }

  pub cut-Claimed :
      (td' : Td) → Relinked cut td' pre (remainder ∷ post) → Claimed td td' ps contiguous s c.ptr s
  cut-Claimed td' r = record {
    pre = pre;
    chunk = c;
    post = post;
    rest = remainder ∷ [];
    split = split;
    off_eq = refl;
    remains = inr (refl, big);
    enough = inl refl;
    free = record {
      word = omega (arith, f.word, same_size);
      linked =
          subst (λ k. Linked k td'.mem td'.header.off_e (pre ++ (remainder ∷ post)) 0)
            (sym same_size) r.linked;
      disjoint = disjoint;
      count = omega (
        arith,
        same_count,
        f.count,
        ap length split,
        length-append {0} pre (c ∷ post),
        length-append {0} pre (remainder ∷ post),
      );
    };
    state = r.state ∙ ap (refreed td td') (sym same_count);
    outside = λ a k away.
        let x = AwayFree-append a k pre (c ∷ post) (subst (AwayFree a k) split away) in
        r.outside a k x.0
        ∙ slice-blit_outside td.mem (c.ptr + s) (encode_chunkhead remainder_head) a k
            (ground (arith, length-encode_chunkhead remainder_head, x.1.0, big));
  }
    where
      same_size : td'.header.size ≡ td.header.size
      same_size = ap (λ k. k.header.size) r.state

      same_count : td'.header.nempties ≡ td.header.nempties
      same_count = ap (λ k. k.header.nempties) r.state

      disjoint : Disjoint (pre ++ (remainder ∷ post))
      disjoint =
          let (a, b, d) = Disjoint-middle pre c post (subst Disjoint split f.disjoint) in
          Disjoint-insert pre remainder post
            (BesideAll-part c remainder pre (omega arith) (omega (arith, big)) a)
            (BesideAll-part c remainder post (omega arith) (omega (arith, big)) b) d

  -- The chains in the resource with the head of the remainder written.
  cut_head : chunk_at cut.mem (c.ptr + s) ≡ remainder_head
  cut_head = chunk_at-set_chunk_self td.mem (c.ptr + s) remainder_head words
    where
      at_c :
          (q : ℕ) × Linked td.header.size td.mem td.header.off_e pre q
          × Linked td.header.size td.mem q (c ∷ post) 0
      at_c =
          Linked-split td.header.size td.mem td.header.off_e 0 pre (c ∷ post)
            (subst (λ k. Linked td.header.size td.mem td.header.off_e k 0) split f.linked)

      first_IsWord :
          (xs : List Free) (p : ℕ) → Linked td.header.size td.mem p xs 0 → IsWord (first_ptr xs)
      first_IsWord [] p l = omega arith
      first_IsWord (x ∷ xs) p (l, at_x, l') = omega (arith, at_x.high, at_x.room, f.word)

      words : ChunkheadWords remainder_head
      words = record {
        next = first_IsWord post (link_at td.mem c.ptr) at_c.2.2;
        size = omega (arith, at_c.2.1.high, f.word);
        checksum = omega arith;
        refcount = omega arith;
      }

  pub cut-Linked :
      (q : ℕ)
      → Linked td.header.size td.mem td.header.off_e pre q
      → Linked td.header.size td.mem q (c ∷ post) 0
      → Linked td.header.size cut.mem td.header.off_e pre q
        × Linked td.header.size cut.mem (c.ptr + s) (remainder ∷ post) 0
  cut-Linked q before (e, at, behind) =
      let (a, b, d) = Disjoint-middle pre c post (subst Disjoint split f.disjoint) in
      let agree = Agree-set_chunk td.mem (c.ptr + s) remainder_head in
      let first = Linked-first td.header.size td.mem (link_at td.mem c.ptr) post behind in
      let next : link_at cut.mem (c.ptr + s) ≡ first_ptr post =
        sym (next-chunk_at cut.mem (c.ptr + s)) ∙ ap (λ k. k.next) cut_head in
      let size : link_at cut.mem (c.ptr + s + 4) ≡ c.size - s =
        sym (size-chunk_at cut.mem (c.ptr + s)) ∙ ap (λ k. k.size) cut_head in
      (
        Linked-same td.header.size td.mem cut.mem td.header.off_e q pre
            (SameHeads-Agree td.header.size td.mem cut.mem (c.ptr + s) 16 c td.header.off_e q pre
              agree (omega arith) (omega (arith, big)) a before)
            before,
        (
          refl,
          record {
            low = omega (arith, at.low);
            room = omega (arith, big);
            high = omega (arith, at.high, big);
            size_eq = size;
          },
          subst (λ k. Linked td.header.size cut.mem k post 0) (sym (next ∙ sym first))
              (Linked-same td.header.size td.mem cut.mem (link_at td.mem c.ptr) 0 post
                (SameHeads-Agree td.header.size td.mem cut.mem (c.ptr + s) 16 c
                  (link_at td.mem c.ptr) 0 post agree (omega arith) (omega (arith, big)) b behind)
                behind),
        ),
      )

  pub cut_run :
      (nxt dif : ℕ) (td' : Td)
      → nxt ≡ first_ptr post
      → 44 ≤ c.ptr
      → c.ptr + c.size ≤ td.header.size
      → relink c.ptr (last_of c.ptr pre) (c.ptr + s) cut ≡ ok tt td'
      → use_chunk s
          (record { ptr = c.ptr; nxt = nxt; siz = c.size; lst = last_of c.ptr pre; dif = dif })
          td
        ≡ ok (claimed c.ptr s) td'
  unfolding use_chunk
  cut_run nxt dif td' n low high run =
      let less : ltb s c.size ≡ true = ground (arith, big) in
      let at : add32 c.ptr s ≡ c.ptr + s = omega (arith, high, big, f.word) in
      let left : sub32 c.size s ≡ c.size - s = omega (arith, high, big, f.word) in
      rw
        (
          less,
          at,
          left,
          n,
          td_write_chunkhead-ok td (c.ptr + s) remainder_head
              (record { low = omega (arith, low); high = omega (arith, high, big); word = f.word }),
          run,
        )
        refl
