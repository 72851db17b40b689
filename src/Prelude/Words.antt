-- ===== src/Prelude/Words.antt =====
-- Machine words as native numbers, and their little-endian bytes in memory.
use Prim.Native.Nat.{ℕ, ◌+◌, ◌*◌, ◌/◌, ◌%◌}
use mathlib.Core.List.{List, [], ◌∷◌}

-- The casts to `uint8_t`, `uint16_t` and `uint32_t`.
abbrev pub u8 : ℕ → ℕ
u8 n = n % 256

abbrev pub u16 : ℕ → ℕ
u16 n = n % 65536

abbrev pub u32 : ℕ → ℕ
u32 n = n % 4294967296

-- `++` and `--` on a `uint16_t`.
abbrev pub inc16 : ℕ → ℕ
inc16 n = (n + 1) % 65536

abbrev pub dec16 : ℕ → ℕ
dec16 n = (n + 65535) % 65536

-- The bytes of a `uint16_t` and of a `uint32_t`.
abbrev pub bytes16 : ℕ → List ℕ
bytes16 n = u8 n ∷ u8 (n / 256) ∷ []

abbrev pub bytes32 : ℕ → List ℕ
bytes32 n = u8 n ∷ u8 (n / 256) ∷ u8 (n / 65536) ∷ u8 (n / 16777216) ∷ []

-- The number that four, two or no fewer bytes make; a missing byte reads 0.
unfoldable pub word_at : List ℕ → ℕ
word_at [] = 0
word_at (b ∷ bs) = b + 256 * word_at bs
