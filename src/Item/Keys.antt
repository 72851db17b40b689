-- ===== src/Item/Keys.antt =====
-- The key of an entry and the bytes of a new entry.
use sming_nvs.Prelude.{
  ℕ, zero, suc, ◌<◌, ◌≡◌, refl, arith, true, some, List, [], ◌∷◌, ◌++◌, length, length-append,
  All-append,
}
use sming_nvs.Item.{Item, strncpy, strncmp_eq, new_item, to_raw, max_key_length}
use sming_nvs.Platform.Flash.{IsBytes}

strncmp_eq-strncpy : (n : ℕ) (k rest : List ℕ) → strncmp_eq n k (strncpy n k ++ rest) ≡ true
strncmp_eq-strncpy zero k rest = refl
strncmp_eq-strncpy (suc n) [] rest = refl
strncmp_eq-strncpy (suc n) (c ∷ k) rest = ground (arith, strncmp_eq-strncpy n k rest)

length-strncpy : (n : ℕ) (k : List ℕ) → length (strncpy n k) ≡ n
length-strncpy zero k = refl
length-strncpy (suc n) [] = omega (arith, length-strncpy n [])
length-strncpy (suc n) (c ∷ k) = omega (arith, length-strncpy n k)

strncpy-IsBytes : (n : ℕ) (k : List ℕ) → IsBytes k → IsBytes (strncpy n k)
strncpy-IsBytes zero k h = tt
strncpy-IsBytes (suc n) [] h = (omega arith, strncpy-IsBytes n [] tt)
strncpy-IsBytes (suc n) (c ∷ k) h = (h.0, strncpy-IsBytes n k h.1)

module _ (ns_index datatype span : ℕ) (key : List ℕ) (chunk : ℕ) where
  -- The entry's key is the one that it was made with, as far as 15 bytes reach.
  pub new_item_key :
      strncmp_eq max_key_length key (new_item ns_index datatype span (some key) chunk).key ≡ true
  unfolding new_item
  new_item_key = strncmp_eq-strncpy 15 key (0 ∷ [])

  pub length-new_key : length (new_item ns_index datatype span (some key) chunk).key ≡ 16
  unfolding new_item
  length-new_key = omega (arith, length-append (strncpy 15 key) (0 ∷ []), length-strncpy 15 key)

  pub new_key-IsBytes : IsBytes key → IsBytes (new_item ns_index datatype span (some key) chunk).key
  unfolding new_item
  new_key-IsBytes h =
      All-append (λ b. b < 256) (strncpy 15 key) (0 ∷ []) (strncpy-IsBytes 15 key h)
        (omega arith, tt)

-- The fields that are bytes.
pub record HasBytes (i : Item) : Type 0 where
  pub ns_index : i.ns_index < 256
  pub datatype : i.datatype < 256
  pub span : i.span < 256
  pub chunk_index : i.chunk_index < 256
  pub key : IsBytes i.key
  pub payload : IsBytes i.payload

pub to_raw-IsBytes : (i : Item) → HasBytes i → IsBytes (to_raw i)
to_raw-IsBytes i w = (
  w.ns_index,
  (
    w.datatype,
    (
      w.span,
      (
        w.chunk_index,
        (
          omega arith,
          (
            omega arith,
            (omega arith, (omega arith, All-append (λ b. b < 256) i.key i.payload w.key w.payload)),
          ),
        ),
      ),
    ),
  ),
)
