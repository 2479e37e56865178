-- ===== src/Tree/Nodes.antt =====
-- What the search reads at a node.
use sdbm_tree.Common.{
  ℕ, ◌+◌, ◌≡◌, refl, ap, ◌∙◌, List, [], ◌∷◌, ◌++◌, true, false, inl, inr, some, ◌&&◌, Bool, bit_or,
  Bool-cases, arith, length, take, drop, replicate, ltb, ◌==◌, if◌then◌else◌, add32, sub32,
  length-replicate,
}
use mathlib.Core.List.{append-nil}
use sdbm_tree.Types.{Td, Cmp}
use sdbm_tree.Machine.{ok, pure}
use sdbm_tree.Io.Frame.{td_read-ok, td_read_keyhead-ok}
use sdbm_tree.Io.{td_read, td_read_keyhead}
use sdbm_tree.Tdt.{array, bytes_of, overlay, key_room, reallocating, is_null, td_read_keydata}
use sdbm_tree.Checksum.{td_checksum_create, td_checksum_verify}
use sdbm_tree.Search.{td_iterate_compare}
use sdbm_tree.Tree.{Node, NodeAt, verifying, elt_of}

take-length : (xs : List ℕ) → take (length xs) xs ≡ xs
take-length [] = refl
take-length (x ∷ xs) = ap (λ r. x ∷ r) (take-length xs)

drop-length : (xs : List ℕ) → drop (length xs) xs ≡ []
drop-length [] = refl
drop-length (x ∷ xs) = drop-length xs

pub is_zero : {p : ℕ} → p ≡ 0 → (p == 0) ≡ true
is_zero e = ground arith

drop-zero-add : (xs : List ℕ) → drop (0 + length xs) xs ≡ []
drop-zero-add xs = ap (λ k. drop k xs) (omega arith) ∙ drop-length xs

overlay-all : (buf bytes : List ℕ) → length buf ≡ length bytes → overlay buf 0 bytes ≡ bytes
unfolding overlay
overlay-all buf bytes e = rw (← e) (ap (λ r. bytes ++ r) (drop-zero-add buf) ∙ append-nil bytes)

key_room-array : (td : Td) (flags k : ℕ) → key_room td (array k) flags k td ≡ ok (array k) td
unfolding key_room reallocating is_null
key_room-array td flags k = ground arith

module _ {td : Td} {n : Node} (at : NodeAt td n) where
  pub read_head : td_read_keyhead n.ptr td ≡ ok n.head td
  read_head =
      td_read_keyhead-ok td n.ptr (record { low = at.low; high = omega arith; word = at.word })
      ∙ ap (λ k. ok k td) at.head

  -- A pointer to the node is not 0.
  pub points : {p : ℕ} → p ≡ n.ptr → (p == 0) ≡ false
  points e = ground (arith, at.low)

  pub behind_header : ltb n.ptr 44 ≡ false
  behind_header = ground (arith, at.low)

  pub key_size : sub32 n.head.size 24 ≡ length n.key
  key_size = omega (arith, at.size, at.high, at.word)

  pub key_offset : add32 n.ptr 24 ≡ n.ptr + 24
  key_offset = omega (arith, at.high, at.word)

  pub read_key : td_read (n.ptr + 24) (length n.key) td ≡ ok n.key td
  read_key =
      td_read-ok td (n.ptr + 24) (length n.key)
        (record { low = omega arith; high = omega (arith, at.high); word = at.word })
      ∙ ap (λ k. ok k td) at.key

  -- With checksums on, the node's own checksum is verified.
  pub verify_key :
      (if verifying td && (length n.key == length n.key)
          then td_checksum_verify n.key n.head.checksum
          else pure tt)
        td
      ≡ ok tt td
  unfolding td_checksum_verify
  verify_key = elim (Bool-cases (verifying td)) [
    | inl on ↦
        let e : td_checksum_create n.key ≡ n.head.checksum = rw on at at.sum in
        rw on (ground (arith, e))
    | inr off ↦ rw off refl
  ]

  pub read_keydata :
      td_read_keydata n.ptr n.head (array (length n.key)) 0 td
      ≡ ok (record { mem = some n.key; size = length n.key }) td
  unfolding td_read_keydata
  read_keydata =
      rw
        (
          behind_header,
          key_size,
          key_room-array td (bit_or 0 td.header.flags) (length n.key),
          key_offset,
          read_key,
          verify_key,
        )
        (ap (λ k. ok (record { mem = some k; size = length n.key }) td)
          (overlay-all (replicate (length n.key) 0) n.key (length-replicate (length n.key) 0)))

  pub compare_head :
      (c : Cmp) (key : List ℕ) (part : Bool)
      → td_iterate_compare (elt_of n c) key part td ≡ ok (elt_of n (td.compare key n.key part)) td
  unfolding td_iterate_compare bytes_of
  compare_head c key part =
      rw (key_size, read_keydata)
        (ap (λ k. ok (elt_of n (td.compare key k part)) td) (take-length n.key))
