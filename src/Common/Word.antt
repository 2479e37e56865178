-- ===== src/Common/Word.antt =====
-- Arithmetic of the C type `unsigned` (32 bits wide), and its little-endian bytes in memory.
use Prim.Native.Nat.{ℕ, ◌+◌, ◌-◌, ◌*◌, ◌/◌, ◌%◌, ◌<◌}
use mathlib.Core.Path.{◌≡◌}
use mathlib.Core.List.{List, [], ◌∷◌}
use native.Mathlib.Omega.{arith}

abbrev pub word_mod : ℕ
word_mod = 4294967296

abbrev pub u32 : ℕ → ℕ
u32 n = n % word_mod

abbrev pub add32 : ℕ → ℕ → ℕ
add32 a b = (a + b) % word_mod

-- `-` on ℕ stops at 0, so the modulus is added first.
abbrev pub sub32 : ℕ → ℕ → ℕ
sub32 a b = (a + word_mod - b) % word_mod

abbrev pub mul32 : ℕ → ℕ → ℕ
mul32 a b = (a * b) % word_mod

abbrev pub word_bytes : ℕ → List ℕ
word_bytes n = (n % 256) ∷ (n / 256 % 256) ∷ (n / 65536 % 256) ∷ (n / 16777216 % 256) ∷ []

abbrev pub word_of : ℕ → ℕ → ℕ → ℕ → ℕ
word_of a b c d = a + 256 * b + 65536 * c + 16777216 * d

pub word_of-word_bytes :
    (n : ℕ)
    → n < word_mod
    → word_of (n % 256) (n / 256 % 256) (n / 65536 % 256) (n / 16777216 % 256) ≡ n
word_of-word_bytes n h = omega arith
