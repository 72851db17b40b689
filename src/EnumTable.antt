-- ===== src/EnumTable.antt =====
-- src/compressed_enum_table.hpp: `CompressedEnumTable<Tenum, Nbits, Nitems>`, a table of small
-- values packed into 32-bit words. An enum value is the number that it is cast from.
pub mod Bits
pub mod Laws
pub mod Table
use Prim.Native.Nat.{bit_and, bit_or}
use sming_nvs.Prelude.{
  ℕ, ◌+◌, ◌-◌, ◌*◌, ◌/◌, ◌%◌, ◌^◌, Bool, Option, none, some, List, ltb, if◌then◌else◌, get_or, set,
}

-- The template's parameters.
pub record Shape : Type 0 where
  pub nbits : ℕ
  pub nitems : ℕ

module _ (t : Shape) where
  -- `ITEMS_PER_WORD`, `WORD_COUNT`, `VALUE_MASK`
  abbrev items_per_word : ℕ
  items_per_word = 32 / t.nbits

  abbrev word_count : ℕ
  word_count = (t.nbits * t.nitems + 31) / 32

  abbrev value_mask : ℕ
  value_mask = 2 ^ t.nbits - 1

  abbrev byte_size : ℕ
  byte_size = word_count * 4

  abbrev pub get_word_index : ℕ → ℕ
  get_word_index index = index / items_per_word

  abbrev offset : ℕ → ℕ
  offset index = (index % items_per_word) * t.nbits

-- `(word >> offset) & VALUE_MASK`
get_bits : ℕ → ℕ → ℕ → ℕ
get_bits nbits off word = bit_and (word / 2 ^ off) (2 ^ nbits - 1)

-- `(word & ~(VALUE_MASK << offset)) | v`, on 32-bit words
unfoldable set_bits : ℕ → ℕ → ℕ → ℕ → ℕ
set_bits nbits off word v =
    bit_or (bit_and word (4294967295 - (2 ^ nbits - 1) * 2 ^ off)) (v * 2 ^ off)

-- `none` where the assertion on the index fails.
unfoldable pub get : Shape → ℕ → List ℕ → Option ℕ
unfolding get_bits
get t index words =
    if ltb index t.nitems
    then some (get_bits t.nbits (offset t index) (get_or words (get_word_index t index) 0))
    else none

unfoldable pub put : Shape → ℕ → ℕ → List ℕ → Option (List ℕ)
unfolding set_bits
put t index v words =
    if ltb index t.nitems
    then some (
        set words (get_word_index t index)
          (set_bits t.nbits (offset t index) (get_or words (get_word_index t index) 0) v))
    else none
