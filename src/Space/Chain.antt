-- ===== src/Space/Chain.antt =====
-- td_yield.c and td_yield_all.c: chunks that are given back, and the list of free chunks.
use sdbm_tree.Common.{
  ℕ, zero, suc, ◌+◌, ◌≤◌, ◌<◌, ◌≡◌, refl, sym, subst, ap, ◌∙◌, ◌⊎◌, true, false, List, [], ◌∷◌,
  arith, length, ◌==◌, add32, sub32, word_mod, word_bytes, word_of-word_bytes,
}
use sdbm_tree.Types.{Td, Memory, has_flag, wipedeleted}
use sdbm_tree.Machine.{ok}
use sdbm_tree.Memory.{slice, blit}
use sdbm_tree.Memory.Laws.{slice-blit_self, slice-blit_outside}
use sdbm_tree.Io.{td_read_uint, td_write_uint, word_at}
use sdbm_tree.Io.Codec.{IsWord}
use sdbm_tree.Io.Frame.{td_read-ok, td_write-ok}
use sdbm_tree.Space.{td_yield, yield_loop, td_yield_all}

-- The word at an offset.
abbrev pub link_at : Memory → ℕ → ℕ
link_at m p = word_at (slice m p 4) 0

-- In a resource of this size, from `p` on, the chunks at these offsets are linked, and the last one has the link 0.
abbrev pub Chain : ℕ → Memory → ℕ → List ℕ → Type 0
Chain size m p [] = p ≡ 0
Chain size m p (x ∷ xs) = (p ≡ x) × (44 ≤ x) × (x + 4 ≤ size) × Chain size m (link_at m x) xs

-- The links of the chunk at `x` and of the others do not overlap.
abbrev pub Away : ℕ → List ℕ → Type 0
Away x [] = Unit {0}
Away x (y ∷ ys) = ((x + 4 ≤ y) ⊎ (y + 4 ≤ x)) × Away x ys

abbrev pub AllAway : List ℕ → List ℕ → Type 0
AllAway [] ys = Unit {0}
AllAway (x ∷ xs) ys = Away x ys × AllAway xs ys

abbrev pub Spread : List ℕ → Type 0
Spread [] = Unit {0}
Spread (x ∷ xs) = Away x xs × Spread xs

-- The offsets put before those of the other list, the last one first.
abbrev pub onto : List ℕ → List ℕ → List ℕ
onto [] ys = ys
onto (x ∷ xs) ys = onto xs (x ∷ ys)

AllAway-cons : (x : ℕ) (xs ys : List ℕ) → Away x xs → AllAway xs ys → AllAway xs (x ∷ ys)
AllAway-cons x [] ys h h' = tt
AllAway-cons x (z ∷ xs) ys h h' = ((ground arith, h'.0), AllAway-cons x xs ys h.1 h'.1)

pub link_at_self : (m : Memory) (p v : ℕ) → IsWord v → link_at (blit m p (word_bytes v)) p ≡ v
link_at_self m p v w =
    ap (λ k. word_at k 0) (slice-blit_self m p (word_bytes v)) ∙ word_of-word_bytes v w

pub link_at-other :
    (m : Memory) (p v q : ℕ)
    → (p + 4 ≤ q) ⊎ (q + 4 ≤ p)
    → link_at (blit m p (word_bytes v)) q ≡ link_at m q
link_at-other m p v q apart =
    ap (λ k. word_at k 0) (slice-blit_outside m p (word_bytes v) q 4 (ground arith))

-- The btree after td_yield.
abbrev pub yielded : Td → ℕ → Td
yielded td p = record td {
  header = record (td.header) { off_e = p; nempties = add32 td.header.nempties 1 };
  mem = blit td.mem p (word_bytes td.header.off_e);
}

-- A chunk that is not among those of a chain leaves the chain as it is.
Chain-blit :
    (size : ℕ) (m : Memory) (p v q : ℕ) (xs : List ℕ)
    → Away p xs
    → Chain size m q xs
    → Chain size (blit m p (word_bytes v)) q xs
Chain-blit size m p v q [] h c = c
Chain-blit size m p v q (x ∷ xs) h (e, low, high, c) = (
  e,
  low,
  high,
  subst (λ k. Chain size (blit m p (word_bytes v)) k xs) (sym (link_at-other m p v x h.0))
      (Chain-blit size m p v (link_at m x) xs h.1 c),
)

pub td_yield-ok :
    (td : Td) (p : ℕ)
    → td.header.size < word_mod
    → 44 ≤ p
    → p + 4 ≤ td.header.size
    → has_flag td.header.flags wipedeleted ≡ false
    → td_yield p td ≡ ok tt (yielded td p)
unfolding td_yield td_write_uint
td_yield-ok td p word low high keep =
    rw
      (
        keep,
        td_write-ok (record td { header = record (td.header) { off_e = p } }) p
            (word_bytes td.header.off_e) (record { low = low; high = high; word = word }),
      )
      refl

-- The btree with a chunk less in use.
abbrev pub uncounted : Td → Td
uncounted td = record td { header = record (td.header) { nchunks = sub32 td.header.nchunks 1 } }

-- Free chunks, chunks of a value and their counts, before the value is given back.
pub record Giving (td : Td) (ptr : ℕ) (vs ps : List ℕ) : Type 0 where
  pub word : td.header.size < word_mod
  pub keep : has_flag td.header.flags wipedeleted ≡ false
  pub off_e : IsWord td.header.off_e
  pub chunks : Chain td.header.size td.mem ptr vs
  pub free : Chain td.header.size td.mem td.header.off_e ps
  pub spread : Spread vs
  pub away : AllAway vs ps
  pub empties : td.header.nempties + length vs < word_mod
  pub counted : length vs ≤ td.header.nchunks
  pub counted_word : IsWord td.header.nchunks

-- All of them given back.
pub record GivenBack (td td' : Td) (vs ps : List ℕ) : Type 0 where
  pub free : Chain td'.header.size td'.mem td'.header.off_e (onto vs ps)
  pub empties : td'.header.nempties ≡ td.header.nempties + length vs
  pub chunks : td'.header.nchunks + length vs ≡ td.header.nchunks
  pub size : td'.header.size ≡ td.header.size

pub yield_loop-round :
    (fuel : ℕ) (td : Td) (x : ℕ)
    → td.header.size < word_mod
    → 44 ≤ x
    → x + 4 ≤ td.header.size
    → has_flag td.header.flags wipedeleted ≡ false
    → yield_loop (suc fuel) x td ≡ yield_loop fuel (link_at td.mem x) (uncounted (yielded td x))
unfolding yield_loop td_read_uint
yield_loop-round fuel td x word low high keep =
    let e : (x == 0) ≡ false = ground (arith, low) in
    rw
      (
        e,
        td_read-ok td x 4 (record { low = low; high = high; word = word }),
        td_yield-ok td x word low high keep,
      )
      refl

yield_loop-GivenBack :
    (fuel : ℕ) (td : Td) (ptr : ℕ) (vs ps : List ℕ)
    → length vs < fuel
    → Giving td ptr vs ps
    → (td' : Td) × (yield_loop fuel ptr td ≡ ok tt td') × GivenBack td td' vs ps
unfolding yield_loop
yield_loop-GivenBack zero td ptr vs ps h g = absurd (omega arith)
yield_loop-GivenBack (suc fuel) td ptr [] ps h g =
    let e : (ptr == 0) ≡ true = ground (arith, g.chunks) in
    (
      td,
      rw e refl,
      record { free = g.free; empties = omega arith; chunks = omega arith; size = refl },
    )
yield_loop-GivenBack (suc fuel) td ptr (x ∷ vs) ps h g =
    let (at, low, high, chunks) = g.chunks in
    let td1 = uncounted (yielded td x) in
    let (td', run, back) =
      yield_loop-GivenBack fuel td1 (link_at td.mem x) vs (x ∷ ps) (omega arith) (record {
        word = g.word;
        keep = g.keep;
        off_e = omega (arith, low, high, g.word);
        chunks =
            Chain-blit td.header.size td.mem x td.header.off_e (link_at td.mem x) vs g.spread.0
              chunks;
        free = (
          refl,
          low,
          high,
          subst (λ k. Chain td.header.size (blit td.mem x (word_bytes td.header.off_e)) k ps)
              (sym (link_at_self td.mem x td.header.off_e g.off_e))
              (Chain-blit td.header.size td.mem x td.header.off_e td.header.off_e ps g.away.0
                g.free),
        );
        spread = g.spread.1;
        away = AllAway-cons x vs ps g.spread.0 g.away.1;
        empties = omega (arith, g.empties);
        counted = omega (arith, g.counted, g.counted_word);
        counted_word = omega (arith, g.counted, g.counted_word);
      }) in
    (
      td',
      ap (λ k. yield_loop (suc fuel) k td) at
          ∙ yield_loop-round fuel td x g.word low high g.keep
          ∙ run,
      record {
        free = back.free;
        empties = omega (arith, back.empties, g.empties);
        chunks = omega (arith, back.chunks, g.counted, g.counted_word);
        size = back.size;
      },
    )

-- td_yield_all gives all chunks of a value back: it returns with no error, the list of free chunks
-- is the one before it with the chunks of the value in front, the last one first, and both counts
-- follow. This holds for chunks linked from `ptr` that do not overlap with each other or the free
-- ones, that are fewer than the resource has bytes, with deleted data not wiped.
pub td_yield_all-GivenBack :
    (td : Td) (ptr : ℕ) (vs ps : List ℕ)
    → length vs ≤ td.header.size
    → Giving td ptr vs ps
    → (td' : Td) × (td_yield_all ptr td ≡ ok tt td') × GivenBack td td' vs ps
unfolding td_yield_all
td_yield_all-GivenBack td ptr vs ps few g =
    yield_loop-GivenBack (td.header.size + 1) td ptr vs ps (omega arith) g
