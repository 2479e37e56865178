-- ===== src/Tdt/Extra.antt =====
-- tdt_init.c, tdt_string.c, and the changes of a tdt_t in place: tdt_append, tdt_prepend, tdt_insert,
-- tdt_reserve, tdt_copy and tdt_shift of tdt_extra.c. The calls of realloc and malloc are taken to
-- succeed; what is in the bytes that they add is an argument, `fresh`, at least as long as what is
-- asked for.
use sdbm_tree.Common.{
  ℕ, ◌%◌, List, [], ◌∷◌, ◌++◌, Option, none, some, leb, ltb, ◌==◌, if◌then◌else◌, length, take,
  drop, replicate, add32, sub32, suc, u32,
}
use sdbm_tree.Tdt.{Tdt, buffer_of, overlay}

-- realloc(buf, n)
unfoldable pub resized : (fresh : List ℕ) → Option (List ℕ) → ℕ → List ℕ
resized fresh buf n = take n (buffer_of buf ++ fresh)

-- memmove(buf + to, buf + from, n)
unfoldable pub memmove : List ℕ → (to from n : ℕ) → List ℕ
memmove buf to from n = overlay buf to (take n (drop from buf))

-- The last line sets the byte behind the contents to 0.
unfoldable pub tdt_append : (fresh : List ℕ) → Tdt → List ℕ → Tdt
tdt_append fresh out bytes =
    let grown = resized fresh out.mem (add32 (add32 out.size (length bytes)) 1) in
    let size = add32 out.size (length bytes) in
    record { mem = some (overlay (overlay grown out.size bytes) size (0 ∷ [])); size = size }

unfoldable pub tdt_appendchr : (fresh : List ℕ) → Tdt → ℕ → Tdt
tdt_appendchr fresh out c = tdt_append fresh out (c ∷ [])

unfoldable pub tdt_prepend : (fresh : List ℕ) → Tdt → List ℕ → Tdt
tdt_prepend fresh out bytes =
    let grown = resized fresh out.mem (add32 (add32 out.size (length bytes)) 1) in
    let shifted = memmove grown (length bytes) 0 (add32 out.size 1) in
    record { mem = some (overlay shifted 0 bytes); size = add32 out.size (length bytes) }

-- The offset modulo the size, if there is one.
unfoldable pub within : (offset size : ℕ) → ℕ
within offset size = if size == 0 then offset else offset % size

-- A gap of `size` bytes at `offset` in a buffer that has been resized for it.
unfoldable pub with_gap : List ℕ → (offset size room : ℕ) → List ℕ
with_gap grown offset size room =
    if sub32 size offset == 0
    then grown
    else memmove grown (add32 offset room) offset (add32 (sub32 size offset) 1)

-- An offset of -1 is `none`.
unfoldable pub tdt_insert : (fresh : List ℕ) → Tdt → Option ℕ → List ℕ → Tdt
tdt_insert fresh out none bytes = tdt_append fresh out bytes
tdt_insert fresh out (some offset) bytes =
    let at = within offset out.size in
    let grown = resized fresh out.mem (add32 (add32 out.size (length bytes)) 1) in
    record {
      mem = some (overlay (with_gap grown at out.size (length bytes)) at bytes);
      size = add32 out.size (length bytes);
    }

unfoldable pub tdt_reserve : (fresh : List ℕ) → Tdt → Option ℕ → ℕ → Tdt
tdt_reserve fresh out none size =
    let grown = resized fresh out.mem (add32 (add32 out.size size) 1) in
    record {
      mem = some (overlay grown out.size (replicate (add32 size 1) 0));
      size = add32 out.size size;
    }
tdt_reserve fresh out (some offset) size =
    let at = within offset out.size in
    let grown = resized fresh out.mem (add32 (add32 out.size size) 1) in
    record {
      mem = some (overlay (with_gap grown at out.size size) at (replicate size 0));
      size = add32 out.size size;
    }

-- What was in `out` is not looked at.
unfoldable pub tdt_copy : (fresh : List ℕ) → Tdt → Tdt
tdt_copy fresh t = record {
  mem = some (
      overlay (overlay (take (add32 t.size 1) fresh) 0 (take t.size (buffer_of t.mem))) t.size
        (0 ∷ []));
  size = t.size;
}

-- A size of -1 is `none`: as is one that reaches beyond the end, it stands for all from `offset` on.
unfoldable pub shift_size : Tdt → (offset : ℕ) → Option ℕ → ℕ
shift_size out offset none = sub32 out.size offset
shift_size out offset (some n) = if ltb out.size (add32 offset n) then sub32 out.size offset else n

-- Where the contents move to the end, the size is made smaller, as in the source.
unfoldable pub tdt_shift : (fresh : List ℕ) → Tdt → (offset whereto : ℕ) → Option ℕ → Tdt
tdt_shift fresh out offset whereto size =
    if leb out.size offset
    then out
    else let n = shift_size out offset size in
      if ltb offset whereto
      then (let diff = sub32 whereto offset in
          let grown = resized fresh out.mem (add32 (add32 out.size diff) 1) in
          record {
            mem =
                some (overlay (memmove grown whereto offset (add32 n 1)) offset (replicate diff 0));
            size = add32 out.size (sub32 offset whereto);
          })
      else if ltb whereto offset
      then record {
        mem = some (memmove (buffer_of out.mem) whereto offset (add32 n 1));
        size = sub32 out.size (sub32 offset whereto);
      }
      else out

-- Both take the container by value; the source fills the one that it is given, too.
abbrev pub tdt_init : Option (List ℕ) → (size : ℕ) → Tdt
tdt_init mem size = record { mem = mem; size = size }

-- strlen, which the source calls, on the bytes of a string with its end
unfoldable pub strlen : List ℕ → ℕ
strlen [] = 0
strlen (c ∷ s) = if c == 0 then 0 else suc (strlen s)

unfoldable pub tdt_string : List ℕ → Tdt
tdt_string string = record { mem = some string; size = u32 (strlen string) }
