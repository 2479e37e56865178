-- ===== src/Space/Grant.antt =====
-- td_claim.c: what is granted, and the list of free chunks that remains.
use sdbm_tree.Space.Cut.{cut-Linked, cut_run, cut-Claimed, cut, remainder}
use sdbm_tree.Space.Hold.{FreeAt, Claimed, choose-Pick, whole-Claimed, dropped}
use sdbm_tree.Common.{
  ℕ, ◌+◌, ◌≤◌, ◌<◌, ◌≡◌, refl, sym, subst, ◌∙◌, ◌⊎◌, inl, inr, Bool, true, false, List, [], ◌∷◌,
  ◌++◌, none, arith, length, ltb, ◌==◌, word_mod, Bool-cases,
}
use sdbm_tree.Types.{Td}
use sdbm_tree.Types.Error.{space}
use sdbm_tree.Machine.{Run, Cmd, ok, err}
use sdbm_tree.Io.Codec.{IsWord}
use sdbm_tree.Space.{
  Fitrec, Scanned, Claim, claimed, no_space, perfect, table, choose, use_chunk, relink, drop_empty,
  claim_scanned, td_claim_, td_claim, claim_extending, td_align, scan,
}
use sdbm_tree.Space.Chain.{link_at}
use sdbm_tree.Space.Free.{
  Free, FreeIn, Linked, BesideAll, Disjoint, first_ptr, last_of, Disjoint-middle, Disjoint-insert,
  BesideAll-part, Linked-split, Linked-first,
}
use sdbm_tree.Space.Relink.{relink-Relinked}
use sdbm_tree.Space.Fit.{AllUnfit, Pick, AllPick}
use sdbm_tree.Space.Scan.{Hit, Listed, scan-Found}

-- The chunk of a record of the table is granted.
module _ (td : Td) (ps : List Free) (contiguous : Bool) (s : ℕ) (f : FreeAt td ps)
    (few : length ps < word_mod) where
  -- What a run grants.
  abbrev pub Grants : Run Claim → Type 0
  Grants run =
      (off : ℕ) × (given : ℕ) × (td' : Td) × (run ≡ ok (claimed off given) td')
      × Claimed td td' ps contiguous s off given

  use_whole_run :
      (r : Fitrec) (td' : Td)
      → ltb s r.siz ≡ false
      → relink r.ptr r.lst r.nxt td ≡ ok tt td'
      → use_chunk s r td ≡ ok (claimed r.ptr r.siz) (dropped td')
  unfolding use_chunk drop_empty
  use_whole_run r td' e run = rw (e, run) refl

  exactly :
      (r : Fitrec) (a b c d : ℕ)
      → r.ptr ≡ a
      → r.nxt ≡ b
      → r.siz ≡ c
      → r.lst ≡ d
      → r ≡ record { ptr = a; nxt = b; siz = c; lst = d; dif = r.dif }
  exactly r a b c d e f g h =
      λ i. record { ptr = e i; nxt = f i; siz = g i; lst = h i; dif = r.dif }

  -- The chunk, with the chains before and behind it.
  module _ (pre : List Free) (c : Free) (post : List Free) (split : ps ≡ pre ++ (c ∷ post))
      (before : Linked td.header.size td.mem td.header.off_e pre c.ptr)
      (at : FreeIn td.header.size td.mem c)
      (behind : Linked td.header.size td.mem (link_at td.mem c.ptr) post 0) (dif : ℕ) where
    abbrev fit : Fitrec
    fit = record {
      ptr = c.ptr;
      nxt = first_ptr post;
      siz = c.size;
      lst = last_of c.ptr pre;
      dif = dif;
    }

    apart : BesideAll c pre × BesideAll c post × Disjoint (pre ++ post)
    apart = Disjoint-middle pre c post (subst Disjoint split f.disjoint)

    Grants-part : s + 16 ≤ c.size → Grants (use_chunk s fit td)
    Grants-part big =
        let (before', tail) =
          cut-Linked td ps contiguous s pre c post f split big c.ptr before (refl, at, behind) in
        let td1 = cut td ps contiguous s pre c post f split big in
        let left = remainder td ps contiguous s pre c post f split big in
        let disjoint =
          Disjoint-insert pre left post
            (BesideAll-part c left pre (omega arith) (omega (arith, big)) apart.0)
            (BesideAll-part c left post (omega arith) (omega (arith, big)) apart.1) apart.2 in
        let (td', run, r) =
          relink-Relinked td1 f.word c (c.ptr + s) (omega (arith, at.high, big, f.word))
            (left ∷ post) tail pre before' disjoint apart.0 at.room in
        (
          c.ptr,
          s,
          td',
          cut_run td ps contiguous s pre c post f split big (first_ptr post) dif td' refl at.low
              at.high run,
          cut-Claimed td ps contiguous s pre c post f split big td' r,
        )

    Grants-whole : c.size < s → contiguous ≡ false → Grants (use_chunk s fit td)
    Grants-whole less open_ =
        let first = Linked-first td.header.size td.mem (link_at td.mem c.ptr) post behind in
        let behind' = subst (λ k. Linked td.header.size td.mem k post 0) first behind in
        let (td', run, r) =
          relink-Relinked td f.word c (first_ptr post) (first_IsWord post behind') post behind' pre
            before apart.2 apart.0 at.room in
        (
          c.ptr,
          c.size,
          dropped td',
          use_whole_run fit td' (ground (arith, less)) run,
          whole-Claimed td td' ps contiguous s pre c post f few split r (inr (less, open_)),
        )
      where
        first_IsWord :
            (xs : List Free)
            → Linked td.header.size td.mem (first_ptr xs) xs 0
            → IsWord (first_ptr xs)
        first_IsWord [] l = omega arith
        first_IsWord (x ∷ xs) (l, at_x, l') = omega (arith, at_x.high, at_x.room, f.word)

  use_chunk-Grants : (r : Fitrec) → Pick ps contiguous s r → Grants (use_chunk s r td)
  use_chunk-Grants r p =
      let (q, before, (e, at, behind)) =
        Linked-split td.header.size td.mem td.header.off_e 0 p.pre (p.chunk ∷ p.post)
          (subst (λ k. Linked td.header.size td.mem td.header.off_e k 0) p.split f.linked) in
      let before' = subst (Linked td.header.size td.mem td.header.off_e p.pre) e before in
      subst (λ k. Grants (use_chunk s k td))
        (sym (
          exactly r p.chunk.ptr (first_ptr p.post) p.chunk.size (last_of p.chunk.ptr p.pre) p.ptr_eq
            p.nxt_eq p.siz_eq p.lst_eq))
        (elim p.usable [
          | inl big ↦ Grants-part p.pre p.chunk p.post p.split before' at behind r.dif big
          | inr (less, open_) ↦
              Grants-whole p.pre p.chunk p.post p.split before' at behind r.dif less open_
        ])

  -- What td_claim_ gives on a list of free chunks: a grant, or no space where no chunk serves.
  abbrev Answers : Cmd Claim → Type 0
  Answers run =
      Grants (run td) ⊎ ((n : ℕ) × (run td ≡ ok (no_space n) td) × AllUnfit contiguous s ps)

  none_left :
      (xs : List Free) (p : ℕ)
      → Linked td.header.size td.mem p xs 0
      → (p == 0) ≡ true
      → AllUnfit contiguous s xs
  none_left [] p l z = tt
  none_left (x ∷ xs) p (l, at, l') z = absurd (ground (arith, l, at.low, z))

  module _ (wanted : ℕ) (aligned : td_align td.header.align wanted ≡ s)
      (some : (td.header.off_e == 0) ≡ false) where
    claim_run :
        (found : Scanned) (td' : Td)
        → scan (td.header.size + 1) contiguous s td.header.off_e td.header.off_e [] td
          ≡ ok found td'
        → td_claim_ contiguous wanted td ≡ claim_scanned s found td'
    unfolding td_claim_
    claim_run found td' run = rw (some, aligned, run) refl

    Answers-found :
        Hit td ps s (scan (td.header.size + 1) contiguous s td.header.off_e td.header.off_e [] td)
          ⊎ Listed td ps contiguous s
              (scan (td.header.size + 1) contiguous s td.header.off_e td.header.off_e [] td)
        → Answers (td_claim_ contiguous wanted)
    unfolding claim_scanned
    Answers-found (inl h) = inl (
      h.chunk.ptr,
      s,
      dropped h.after,
      claim_run (perfect h.chunk.ptr) (dropped h.after) h.run_eq,
      subst (Claimed td (dropped h.after) ps contiguous s h.chunk.ptr) h.size_eq (
          whole-Claimed td h.after ps contiguous s h.pre h.chunk h.post f few h.split h.relinked
            (inl h.size_eq)),
    )
    Answers-found (inr l) = from_table l.fits l.run_eq l.picks l.none_fits
      where
        from_table :
            (fits : List Fitrec)
            → scan (td.header.size + 1) contiguous s td.header.off_e td.header.off_e [] td
              ≡ ok (table fits) td
            → AllPick ps contiguous s fits
            → (fits ≡ [] → AllUnfit contiguous s ps)
            → Answers (td_claim_ contiguous wanted)
        from_table [] run picks unfit = inr (s, claim_run (table []) td run, unfit refl)
        from_table (r ∷ rs) run picks unfit =
            let (off, given, td', used, claim) =
              use_chunk-Grants (choose 0 r (r ∷ rs))
                (choose-Pick ps contiguous s 0 r (r ∷ rs) picks.0 picks) in
            inl (off, given, td', claim_run (table (r ∷ rs)) td run ∙ used, claim)

  td_claim_-Answers :
      (wanted : ℕ)
      → td_align td.header.align wanted ≡ s
      → length ps ≤ td.header.size
      → Answers (td_claim_ contiguous wanted)
  unfolding td_claim_
  td_claim_-Answers wanted aligned short = elim (Bool-cases (td.header.off_e == 0)) [
    | inl z ↦ inr (wanted, rw z refl, none_left ps td.header.off_e f.linked z)
    | inr some ↦ Answers-found wanted aligned some (
        scan-Found td f.word ps contiguous s f.disjoint (td.header.size + 1) td.header.off_e
          td.header.off_e [] [] ps (omega arith) refl refl f.linked refl tt (λ z. tt))
  ]

-- td_claim on a list of free chunks, without a callback that extends the resource: it either grants
-- the first bytes of a free chunk, as many as were asked for, rounded up, or fewer where the space
-- need not be contiguous; the rest of the chunk, of 16 bytes at least, stays free. Or it gives
-- TDERR_SPACE, with nothing changed, and then no chunk has the size, room for it and a chunkhead, or,
-- where fewer bytes would do, less than it.
pub td_claim-Claimed :
    (td : Td) (ps : List Free) (contiguous : Bool) (wanted : ℕ)
    → FreeAt td ps
    → length ps ≤ td.header.size
    → td.extend ≡ none
    → ((off : ℕ) × (given : ℕ) × (td' : Td) × (td_claim contiguous wanted td ≡ ok (off, given) td')
        × Claimed td td' ps contiguous (td_align td.header.align wanted) off given)
      ⊎ ((td_claim contiguous wanted td ≡ err space td)
          × AllUnfit contiguous (td_align td.header.align wanted) ps)
unfolding td_claim claim_extending
td_claim-Claimed td ps contiguous wanted f short fixed =
    elim (td_claim_-Answers td ps contiguous (td_align td.header.align wanted) f
      (omega (arith, f.word)) wanted refl short) [
        | inl (off, given, td', run, claim) ↦ inl (off, given, td', rw run refl, claim)
        | inr (n, run, unfit) ↦ inr (rw (run, fixed) refl, unfit)
      ]
