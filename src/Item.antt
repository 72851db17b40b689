-- ===== src/Item.antt =====
-- src/nvs_types.hpp and src/nvs_types.cpp: `Item`, the 32-byte entry of a page, its checksums and
-- its views. An enum value is the byte that it is stored as, since an entry that is read from flash
-- may hold any. A C string is the list of its bytes without the terminator. `crc32_le`, which the
-- chip's ROM provides, is an argument.
pub mod ItemType
pub mod Codec
pub mod Keys
use sming_nvs.Prelude.{
  ℕ, zero, suc, ◌%◌, Bool, true, false, ◌&&◌, ◌||◌, Option, none, some, List, [], ◌∷◌, ◌++◌, ◌==◌,
  if◌then◌else◌, get_or, take, drop, replicate, word_at, bytes32,
}

-- `VerOffset`
abbrev pub ver_0_offset : ℕ
ver_0_offset = 0

abbrev pub ver_1_offset : ℕ
ver_1_offset = 0x80

abbrev pub ver_any : ℕ
ver_any = 0xff

abbrev pub max_key_length : ℕ
max_key_length = 15

abbrev pub chunk_any : ℕ
chunk_any = 0xff

abbrev pub is_variable_length_type : ℕ → Bool
is_variable_length_type t = t == ItemType.blob || t == ItemType.sz || t == ItemType.blob_data

-- The fields of the union's first member; `payload` is its `data[8]`.
pub record Item : Type 0 where
  pub ns_index : ℕ
  pub datatype : ℕ
  pub span : ℕ
  pub chunk_index : ℕ
  pub crc32 : ℕ
  pub key : List ℕ
  pub payload : List ℕ

-- `strncpy(dst, src, n)`: the bytes of the string, padded with NUL.
abbrev strncpy : ℕ → List ℕ → List ℕ
strncpy zero s = []
strncpy (suc n) [] = 0 ∷ strncpy n []
strncpy (suc n) (c ∷ s) = c ∷ strncpy n s

-- `strncmp(a, b, n) == 0`; a list that ends reads as the terminator.
abbrev pub strncmp_eq : ℕ → List ℕ → List ℕ → Bool
strncmp_eq zero a b = true
strncmp_eq (suc n) [] [] = true
strncmp_eq (suc n) [] (d ∷ b) = d == 0
strncmp_eq (suc n) (c ∷ a) [] = c == 0
strncmp_eq (suc n) (c ∷ a) (d ∷ b) = if c == d then c == 0 || strncmp_eq n a b else false

-- The C string that a buffer holds: what stands before the first NUL.
abbrev pub c_string : List ℕ → List ℕ
c_string [] = []
c_string (c ∷ s) = if c == 0 then [] else c ∷ c_string s

-- `Item(nsIndex, datatype, span, key_, chunkIdx)`. Its `crc32` stays uninitialized, here 0; each
-- caller that stores the item sets it first.
unfoldable pub new_item : ℕ → ℕ → ℕ → Option (List ℕ) → ℕ → Item
new_item ns_index datatype span key chunk_idx = record {
  ns_index = ns_index;
  datatype = datatype;
  span = span;
  chunk_index = chunk_idx;
  crc32 = 0;
  key = elim key [ some k ↦ strncpy max_key_length k ++ 0 ∷ [] | none ↦ 0 ∷ replicate 15 0xff ];
  payload = replicate 8 0xff;
}

-- `varLength`
abbrev pub var_data_size : Item → ℕ
var_data_size i = word_at (take 2 i.payload)

abbrev pub var_data_crc32 : Item → ℕ
var_data_crc32 i = word_at (drop 4 i.payload)

-- `blobIndex`
abbrev pub blob_data_size : Item → ℕ
blob_data_size i = word_at (take 4 i.payload)

abbrev pub blob_chunk_count : Item → ℕ
blob_chunk_count i = get_or i.payload 4 0

abbrev pub blob_chunk_start : Item → ℕ
blob_chunk_start i = get_or i.payload 5 0

-- `rawData`
abbrev pub to_raw : Item → List ℕ
to_raw i =
    i.ns_index ∷ i.datatype ∷ i.span ∷ i.chunk_index ∷ (bytes32 i.crc32 ++ (i.key ++ i.payload))

abbrev pub of_raw : List ℕ → Item
of_raw b = record {
  ns_index = get_or b 0 0;
  datatype = get_or b 1 0;
  span = get_or b 2 0;
  chunk_index = get_or b 3 0;
  crc32 = word_at (take 4 (drop 4 b));
  key = take 16 (drop 8 b);
  payload = take 8 (drop 24 b);
}

-- `crc32_le(result, bytes, size)`
module _ (crc32_le : ℕ → List ℕ → ℕ) where
  unfoldable pub calculate_crc32 : Item → ℕ
  calculate_crc32 i =
      crc32_le
        (crc32_le (crc32_le 0xffffffff (i.ns_index ∷ i.datatype ∷ i.span ∷ i.chunk_index ∷ []))
          i.key)
        i.payload

  unfoldable pub calculate_crc32_without_value : Item → ℕ
  calculate_crc32_without_value i =
      crc32_le (crc32_le (crc32_le 0xffffffff (i.ns_index ∷ [])) i.key) (i.chunk_index ∷ [])

  -- `Item::calculateCrc32(data, size)`
  abbrev pub data_crc32 : List ℕ → ℕ
  data_crc32 bytes = crc32_le 0xffffffff bytes
