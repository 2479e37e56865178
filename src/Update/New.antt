-- ===== src/Update/New.antt =====
-- td_put_new.c on a list of free chunks.
use mathlib.Core.Bool.{true≢false}
use sdbm_tree.Common.{
  ℕ, ◌+◌, ◌≤◌, ◌<◌, ◌≡◌, refl, sym, subst, ap, ◌∙◌, ◌⊎◌, inl, inr, true, List, ◌∷◌, ◌++◌, none,
  arith, length, word_mod, add32, Bool-cases, if◌then◌else◌, bit_or,
}
use sdbm_tree.Types.{Td, Keyhead, has_flag, checksum_flag}
use sdbm_tree.Types.Error.{space}
use sdbm_tree.Machine.{ok, err}
use sdbm_tree.Memory.{slice, blit}
use sdbm_tree.Memory.Laws.{slice-blit_self, slice-blit_outside}
use sdbm_tree.Io.{td_write, td_write_keyhead, decode_keyhead}
use sdbm_tree.Io.Codec.{IsWord, KeyheadWords}
use sdbm_tree.Io.Frame.{
  set_key, td_write-ok, td_write_keyhead-ok, key_at-set_key_self, slice-set_key_outside,
}
use sdbm_tree.Space.{td_claim, td_align}
use sdbm_tree.Space.Free.{Free, Linked, Disjoint, Linked-split}
use sdbm_tree.Space.Fit.{AllUnfit}
use sdbm_tree.Space.Relink.{AwayFree, AwayFree-append}
use sdbm_tree.Space.Hold.{FreeAt, Claimed}
use sdbm_tree.Space.Grant.{td_claim-Claimed}
use sdbm_tree.Checksum.{td_checksum_create}
use sdbm_tree.Value.{checksum_field}
use sdbm_tree.Tree.{Node, NodeAt, verifying}
use sdbm_tree.Update.{td_put_new}
use sdbm_tree.Update.Room.{Remains-AwayFree, AwayFree-kept, SameHeads-away, FreeAt-same}

abbrev pub new_head : Td → List ℕ → (value previous next flags : ℕ) → Keyhead
new_head td key value previous next flags = record {
  value = value;
  size = 24 + length key;
  scn = td.header.scn;
  checksum = checksum_field flags key;
  next = next;
  previous = previous;
}

-- The state after td_put_new at `p`, from the one that td_claim left.
abbrev pub with_node : Td → ℕ → Keyhead → List ℕ → Td
with_node td p h key = record td {
  header = record (td.header) {
    nentries = add32 td.header.nentries 1;
    scn = add32 td.header.scn 1;
  };
  mem = blit (set_key td.mem p h) (p + 24) key;
}

with_node-outside :
    (td : Td) (p : ℕ) (h : Keyhead) (key : List ℕ) (a n : ℕ)
    → (a + n ≤ p) ⊎ (p + (24 + length key) ≤ a)
    → slice (with_node td p h key).mem a n ≡ slice td.mem a n
with_node-outside td p h key a n apart =
    slice-blit_outside (set_key td.mem p h) (p + 24) key a n (ground (arith, apart))
    ∙ slice-set_key_outside td.mem p h a n (ground (arith, apart))

-- The bytes of `n` were taken from the free chunks `ps`, of which `ps'` remain.
pub record Added (td td' : Td) (ps ps' : List Free) (n : Node) : Type 0 where
  pub node_at : NodeAt td' n
  pub free : FreeAt td' ps'
  pub room : AwayFree n.ptr (24 + length n.key) ps'
  pub apart :
      (a k : ℕ)
      → AwayFree a k ps
      → ((a + k ≤ n.ptr) ⊎ (n.ptr + (24 + length n.key) ≤ a)) × AwayFree a k ps'
  pub outside : (a k : ℕ) → AwayFree a k ps → slice td'.mem a k ≡ slice td.mem a k
  pub top : td'.header.top ≡ td.header.top
  pub size : td'.header.size ≡ td.header.size
  pub flags : td'.header.flags ≡ td.header.flags
  pub extend : td'.extend ≡ td.extend
  pub compare : td'.compare ≡ td.compare

put_new-run :
    (td td' : Td) (key : List ℕ) (value previous next flags p : ℕ)
    → add32 24 (length key) ≡ 24 + length key
    → add32 p 24 ≡ p + 24
    → td_claim true (24 + length key) td ≡ ok (p, 24 + length key) td'
    → td_write_keyhead p (new_head td key value previous next flags) td'
      ≡ ok tt (record td' { mem = set_key td'.mem p (new_head td key value previous next flags) })
    → td_write
        (p + 24)
        key
        (record td' { mem = set_key td'.mem p (new_head td key value previous next flags) })
      ≡ ok tt (record td' {
        mem = blit (set_key td'.mem p (new_head td key value previous next flags)) (p + 24) key;
      })
    → td_put_new key value previous next flags td
      ≡ ok p (with_node td' p (new_head td key value previous next flags) key)
unfolding td_put_new
put_new-run td td' key value previous next flags p need off claim head body =
    rw (need, claim, head, off, body) refl

-- What the words of a new node need, and the checksum that the state asks for.
pub record Suits (td : Td) (key : List ℕ) (value previous next flags : ℕ) : Type 0 where
  pub value_word : IsWord value
  pub previous_word : IsWord previous
  pub next_word : IsWord next
  pub scn_word : IsWord td.header.scn
  pub short : 24 + length key < word_mod
  pub aligned : td_align td.header.align (24 + length key) ≡ 24 + length key
  pub summed : verifying td ≡ true → has_flag flags checksum_flag ≡ true

checksum_field-IsWord : (flags : ℕ) (bytes : List ℕ) → IsWord (checksum_field flags bytes)
unfolding checksum_field td_checksum_create
checksum_field-IsWord flags bytes = ground arith

module _ (td : Td) (ps : List Free) (key : List ℕ) (value previous next flags : ℕ)
    (f : FreeAt td ps) (few : length ps ≤ td.header.size) (fixed : td.extend ≡ none)
    (w : Suits td key value previous next flags) where
  abbrev head : Keyhead
  head = new_head td key value previous next flags

  abbrev pub new_node : ℕ → Node
  new_node p = record { ptr = p; head = head; key = key }

  words : KeyheadWords head
  words = record {
    value = w.value_word;
    size = w.short;
    scn = w.scn_word;
    checksum = checksum_field-IsWord flags key;
    next = w.next_word;
    previous = w.previous_word;
  }

  -- What td_claim granted becomes the node.
  module _ (td' : Td) (p : ℕ)
      (c : Claimed td td' ps true (24 + length key) p (24 + length key)) where
    abbrev final : Td
    final = with_node td' p head key

    size_same : td'.header.size ≡ td.header.size
    size_same = ap (λ k. k.header.size) c.state

    flags_same : td'.header.flags ≡ td.header.flags
    flags_same = ap (λ k. k.header.flags) c.state

    granted_part : 24 + length key ≤ c.chunk.size
    granted_part = elim c.remains [
      | inl (none_left, all) ↦ omega (arith, all)
      | inr (some_left, part) ↦ omega (arith, part)
    ]

    -- The granted bytes lie within a free chunk.
    within : (44 ≤ p) × (p + (24 + length key) ≤ td.header.size)
    within =
        let (q, before, (e, at, behind)) =
          Linked-split td.header.size td.mem td.header.off_e 0 c.pre (c.chunk ∷ c.post)
            (subst (λ k. Linked td.header.size td.mem td.header.off_e k 0) c.split f.linked) in
        (omega (arith, c.off_eq, at.low), omega (arith, c.off_eq, at.high, granted_part))

    sum_right :
        (if verifying final then td_checksum_create key else checksum_field flags key)
        ≡ checksum_field flags key
    unfolding checksum_field
    sum_right = elim (Bool-cases (verifying final)) [
      | inl on ↦
          let asked =
            w.summed (ap (λ k. has_flag (bit_or 0 k) checksum_flag) (sym flags_same) ∙ on) in
          rw (on, asked) refl
      | inr off ↦ rw off refl
    ]

    left_free : AwayFree p (24 + length key) (c.pre ++ (c.rest ++ c.post))
    left_free =
        subst (λ q. AwayFree q (24 + length key) (c.pre ++ (c.rest ++ c.post))) (sym c.off_eq)
          (Remains-AwayFree c.pre c.chunk c.post c.rest (24 + length key)
            (subst Disjoint c.split f.disjoint) c.remains)

    away_from_node :
        (a k : ℕ)
        → AwayFree a k ps
        → ((a + k ≤ p) ⊎ (p + (24 + length key) ≤ a)) × AwayFree a k (c.pre ++ (c.rest ++ c.post))
    away_from_node a k away =
        let split = subst (AwayFree a k) c.split away in
        let (before, behind) = AwayFree-append a k c.pre (c.chunk ∷ c.post) split in
        let here = behind.0 in
        (
          ground (arith, here, granted_part, c.off_eq),
          AwayFree-kept a k c.pre c.chunk c.post c.rest (24 + length key) c.remains split,
        )

    claimed-Added : Added td final ps (c.pre ++ (c.rest ++ c.post)) (new_node p)
    claimed-Added = record {
      node_at = record {
        low = within.0;
        high = omega (arith, within.1, size_same);
        word = omega (arith, f.word, size_same);
        head =
            ap decode_keyhead
              (slice-blit_outside (set_key td'.mem p head) (p + 24) key p 24 (inl (omega arith)))
            ∙ key_at-set_key_self td'.mem p head words;
        words = words;
        size = refl;
        key = slice-blit_self (set_key td'.mem p head) (p + 24) key;
        sum = sum_right;
      };
      free = FreeAt-same td' final (c.pre ++ (c.rest ++ c.post)) c.free refl refl refl (
          SameHeads-away td'.header.size td'.mem final.mem p (24 + length key) td'.header.off_e 0
            (c.pre ++ (c.rest ++ c.post))
            (λ a n low apart. with_node-outside td' p head key a n apart) left_free c.free.linked);
      room = left_free;
      apart = away_from_node;
      outside = λ a k away.
          with_node-outside td' p head key a k (away_from_node a k away).0 ∙ c.outside a k away;
      top = ap (λ k. k.header.top) c.state;
      size = size_same;
      flags = flags_same;
      extend = ap (λ k. k.extend) c.state;
      compare = ap (λ k. k.compare) c.state;
    }

    claimed-run :
        td_claim true (24 + length key) td ≡ ok (p, 24 + length key) td'
        → td_put_new key value previous next flags td ≡ ok p final
    claimed-run run =
        put_new-run td td' key value previous next flags p (omega (arith, w.short))
          (omega (arith, within.1, f.word)) run
          (td_write_keyhead-ok td' p head (record {
            low = within.0;
            high = omega (arith, within.1, size_same);
            word = omega (arith, f.word, size_same);
          }))
          (td_write-ok (record td' { mem = set_key td'.mem p head }) (p + 24) key
            (record {
              low = omega (arith, within.0);
              high = omega (arith, within.1, size_same);
              word = omega (arith, f.word, size_same);
            }))

  -- A contiguous request is met with as many bytes as it asks for.
  granted_all : (td' : Td) (p given s : ℕ) → Claimed td td' ps true s p given → given ≡ s
  granted_all td' p given s c = elim c.enough [
    | inl e ↦ e
    | inr (fewer, never) ↦ absurd (true≢false never)
  ]

  -- td_put_new on a list of free chunks: it either writes the node into bytes of a free chunk, and the
  -- rest of the chunk stays free, or gives TDERR_SPACE with nothing changed, where no chunk has room.
  pub td_put_new-Added :
      ((p : ℕ) × (td' : Td) × (ps' : List Free) × (td_put_new key value previous next flags td
          ≡ ok p td')
        × Added td td' ps ps' (new_node p))
      ⊎ ((td_put_new key value previous next flags td ≡ err space td)
          × AllUnfit true (24 + length key) ps)
  unfolding td_put_new
  td_put_new-Added =
      let need : add32 24 (length key) ≡ 24 + length key = omega (arith, w.short) in
      elim (td_claim-Claimed td ps true (24 + length key) f few fixed) [
        | inl (p, given, td', run, claim) ↦
            let all = granted_all td' p given (td_align td.header.align (24 + length key)) claim in
            let c =
              subst (λ s. Claimed td td' ps true s p s) w.aligned
                (subst (Claimed td td' ps true (td_align td.header.align (24 + length key)) p) all
                  claim) in
            inl (
              p,
              with_node td' p head key,
              c.pre ++ (c.rest ++ c.post),
              claimed-run td' p c (run ∙ ap (λ g. ok (p, g) td') (all ∙ w.aligned)),
              claimed-Added td' p c,
            )
        | inr (run, unfit) ↦
            inr (rw (need, run) refl, subst (λ s. AllUnfit true s ps) w.aligned unfit)
      ]
