-- ===== src/Init/Fresh.antt =====
-- A new btree: td_init_mem.c on memory that holds none.
use sdbm_tree.Tree.Child.{with_top, td_write_header-top}
use sdbm_tree.Common.{
  ℕ, ◌+◌, ◌-◌, ◌≤◌, ◌<◌, ◌≡◌, refl, subst, ap, ◌∙◌, inl, [], ◌∷◌, arith, word_mod, false, sub32,
}
use sdbm_tree.Types.{Td, Header, Memory, Chunkhead, mustexist, extend_flag, sparse, has_flag}
use sdbm_tree.Machine.{ok}
use sdbm_tree.Memory.{slice, blit}
use sdbm_tree.Memory.Laws.{slice-blit_self, slice-blit_outside}
use sdbm_tree.Io.{encode_header, decode_header, decode_chunkhead, encode_chunkhead, word_at}
use sdbm_tree.Io.Codec.{decode-encode_header, length-encode_header}
use sdbm_tree.Io.Frame.{set_chunk, chunk_at, chunk_at-set_chunk_self, td_write_chunkhead-ok}
use sdbm_tree.Compare.{memcmp, td_compare}
use sdbm_tree.Space.{td_align}
use sdbm_tree.Space.Chain.{link_at}
use sdbm_tree.Space.Hold.{FreeAt}
use sdbm_tree.Tree.{leaf}
use sdbm_tree.Update.Room.{Holds}
use sdbm_tree.Init.{td_init, td_init2, td_init_create, td_init_mem, new_header, ident, is_equal}

-- The first two words of a chunk.
words_of_chunk :
    (m : Memory) (p : ℕ)
    → (link_at m p ≡ (chunk_at m p).next) × (link_at m (p + 4) ≡ (chunk_at m p).size)
unfolding slice decode_chunkhead
words_of_chunk m p = (refl, ap (λ q. word_at (slice m q 4) 0) (omega arith))

module _ (mem : Memory) (size flags : ℕ) where
  abbrev header : Header
  header = new_header size 1 flags 44 1 ident

  abbrev space : Chunkhead
  space = record { next = 0; size = sub32 size 44; checksum = 0; refcount = 0 }

  -- The btree after td_init_mem.
  abbrev pub fresh : Td
  fresh = record (td_init mem) {
    header = header;
    compare = td_compare;
    mem = set_chunk (blit mem 0 (encode_header header)) 44 space;
  }

  abbrev made : Td
  made = record (td_init mem) { header = header }

  module _ (low : 60 ≤ size) (word : size < word_mod) where
    td_init_mem-run :
        has_flag flags extend_flag ≡ false
        → has_flag flags mustexist ≡ false
        → has_flag flags sparse ≡ false
        → is_equal (memcmp (slice mem 0 4) ident 4) ≡ false
        → td_init_mem flags mem size ≡ ok tt fresh
    unfolding td_init_mem td_init2 td_init_create td_align td_init
    td_init_mem-run fixed new dense other =
        rw
          (
            fixed,
            other,
            new,
            dense,
            td_write_header-top made 0 (omega arith) word,
            td_write_chunkhead-ok (with_top made 0) 44 space
                (record { low = omega arith; high = omega (arith, low); word = word }),
          )
          refl

    space_at : chunk_at fresh.mem 44 ≡ space
    space_at = chunk_at-set_chunk_self (blit mem 0 (encode_header header)) 44 space (record {
      next = omega arith;
      size = omega arith;
      checksum = omega arith;
      refcount = omega arith;
    })

    fresh-FreeAt : FreeAt fresh (record { ptr = 44; size = size - 44 } ∷ [])
    fresh-FreeAt = record {
      word = word;
      linked = (
        refl,
        record {
          low = omega arith;
          room = omega (arith, low);
          high = omega (arith, low);
          size_eq = second ∙ ap (λ k. k.size) space_at ∙ omega (arith, low, word);
        },
        first ∙ ap (λ k. k.next) space_at,
      );
      disjoint = (tt, tt);
      count = refl;
    }
      where
        first : link_at fresh.mem 44 ≡ (chunk_at fresh.mem 44).next
        first = (words_of_chunk fresh.mem 44).0

        second : link_at fresh.mem 48 ≡ (chunk_at fresh.mem 44).size
        second = (words_of_chunk fresh.mem 44).1

    stored : flags < word_mod → decode_header (slice fresh.mem 0 44) ≡ header
    stored flags_word =
        ap decode_header (
          slice-blit_outside (blit mem 0 (encode_header header)) 44 (encode_chunkhead space) 0 44
            (inl (omega arith)))
        ∙ ap decode_header (
            subst (λ k. slice (blit mem 0 (encode_header header)) 0 k ≡ encode_header header)
              (length-encode_header header) (slice-blit_self mem 0 (encode_header header)))
        ∙ decode-encode_header header (record {
          flags = flags_word;
          size = word;
          align = omega arith;
          top = omega arith;
          level = omega arith;
          off_e = omega arith;
          scn = omega arith;
          nentries = omega arith;
          nempties = omega arith;
          nchunks = omega arith;
        })

-- td_init_mem on memory that holds no btree, of 60 bytes at least, without TDFLG_EXTEND,
-- TDFLG_MUSTEXIST and TDFLG_SPARSE: it returns with no error, and then the btree holds the empty tree,
-- its free chunks are one, of all bytes behind the header, and the header is as it is stored. Size and
-- flags are words.
pub td_init_mem-Holds :
    (mem : Memory) (size flags : ℕ)
    → 60 ≤ size
    → size < word_mod
    → flags < word_mod
    → has_flag flags extend_flag ≡ false
    → has_flag flags mustexist ≡ false
    → has_flag flags sparse ≡ false
    → is_equal (memcmp (slice mem 0 4) ident 4) ≡ false
    → (td : Td) × (td_init_mem flags mem size ≡ ok tt td)
      × Holds td leaf (record { ptr = 44; size = size - 44 } ∷ [])
      × (decode_header (slice td.mem 0 44) ≡ td.header)
td_init_mem-Holds mem size flags low word flags_word fixed new dense other = (
  fresh mem size flags,
  td_init_mem-run mem size flags low word fixed new dense other,
  record { tree = (tt, refl, tt); free = fresh-FreeAt mem size flags low word; beside = tt },
  stored mem size flags low word flags_word,
)
