-- ===== src/Item/Codec.antt =====
-- The 32 bytes of an entry on flash, and its fields.
use mathlib.Core.Path.{subst}
use sming_nvs.Prelude.{
  ℕ, ◌+◌, ◌*◌, ◌/◌, ◌%◌, ◌<◌, ◌≡◌, ◌∙◌, refl, ap, arith, All, length-drop, take-append-drop, List,
  [], ◌∷◌, ◌++◌, length, word_at, bytes16, bytes32, take, drop,
}
use sming_nvs.Item.{Item, to_raw, of_raw}

-- An item whose fields have the widths of the C++ struct.
pub record IsItem (i : Item) : Type 0 where
  pub crc32_32 : i.crc32 < 4294967296
  pub key_16 : length i.key ≡ 16
  pub payload_8 : length i.payload ≡ 8

pub take-append : (xs ys : List ℕ) → take (length xs) (xs ++ ys) ≡ xs
take-append [] ys = refl
take-append (x ∷ xs) ys = ap (λ t. x ∷ t) (take-append xs ys)

drop-append : (xs ys : List ℕ) → drop (length xs) (xs ++ ys) ≡ ys
drop-append [] ys = refl
drop-append (x ∷ xs) ys = drop-append xs ys

pub take_all : (xs : List ℕ) → take (length xs) xs ≡ xs
take_all [] = refl
take_all (x ∷ xs) = ap (λ t. x ∷ t) (take_all xs)

pub word_of-bytes32 : (n : ℕ) → n < 4294967296 → word_at (bytes32 n) ≡ n
unfolding word_at
word_of-bytes32 n h = omega arith

pub word_of-bytes16 : (n : ℕ) → n < 65536 → word_at (bytes16 n) ≡ n
unfolding word_at
word_of-bytes16 n h = omega arith

-- The key and the value that stand behind the first eight bytes.
key_back : (key payload : List ℕ) → length key ≡ 16 → take 16 (key ++ payload) ≡ key
key_back key payload h = rw (← h) (take-append key payload)

payload_back :
    (key payload : List ℕ)
    → length key ≡ 16
    → length payload ≡ 8
    → take 8 (drop 16 (key ++ payload)) ≡ payload
payload_back key payload h k = rw (← h, drop-append key payload, ← k) (take_all payload)

pub of_raw-to_raw : (i : Item) → IsItem i → of_raw (to_raw i) ≡ i
of_raw-to_raw i w = λ j. record {
  ns_index = i.ns_index;
  datatype = i.datatype;
  span = i.span;
  chunk_index = i.chunk_index;
  crc32 = word_of-bytes32 i.crc32 w.crc32_32 j;
  key = key_back i.key i.payload w.key_16 j;
  payload = payload_back i.key i.payload w.key_16 w.payload_8 j;
}

-- Four bytes are those of the number that they make.
pub bytes32-word :
    (a b c d : ℕ)
    → a < 256
    → b < 256
    → c < 256
    → d < 256
    → bytes32 (word_at (a ∷ b ∷ c ∷ d ∷ [])) ≡ a ∷ b ∷ c ∷ d ∷ []
unfolding word_at
bytes32-word a b c d ha hb hc hd =
    let n : ℕ = a + 256 * (b + 256 * (c + 256 * (d + 256 * 0))) in
    let low : n % 256 ≡ a = omega arith in
    let second : n / 256 % 256 ≡ b = omega arith in
    let third : n / 65536 % 256 ≡ c = omega arith in
    let high : n / 16777216 % 256 ≡ d = omega arith in λ j. low j ∷ second j ∷ third j ∷ high j ∷ []

-- 32 bytes that are read as an item are written as they were.
pub to_raw-of_raw : (r : List ℕ) → length r ≡ 32 → All (λ b. b < 256) r → to_raw (of_raw r) ≡ r
to_raw-of_raw (n ∷ t ∷ s ∷ c ∷ w0 ∷ w1 ∷ w2 ∷ w3 ∷ rest) e h =
    let eight : length (drop 16 rest) ≡ 8 = omega (arith, e, length-drop 16 rest) in
    let tail : take 16 rest ++ take 8 (drop 16 rest) ≡ rest =
      ap (λ xs. take 16 rest ++ xs)
        (subst (λ (k : ℕ). take k (drop 16 rest) ≡ drop 16 rest) eight (take_all (drop 16 rest)))
      ∙ take-append-drop 16 rest in
    λ j.
      n
      ∷ t
      ∷ s
      ∷ c
      ∷ (bytes32-word w0 w1 w2 w3 h.1.1.1.1.0 h.1.1.1.1.1.0 h.1.1.1.1.1.1.0 h.1.1.1.1.1.1.1.0 j
          ++ tail j)
to_raw-of_raw [] e h = absurd (omega (arith, e))
to_raw-of_raw (_ ∷ []) e h = absurd (omega (arith, e))
to_raw-of_raw (_ ∷ _ ∷ []) e h = absurd (omega (arith, e))
to_raw-of_raw (_ ∷ _ ∷ _ ∷ []) e h = absurd (omega (arith, e))
to_raw-of_raw (_ ∷ _ ∷ _ ∷ _ ∷ []) e h = absurd (omega (arith, e))
to_raw-of_raw (_ ∷ _ ∷ _ ∷ _ ∷ _ ∷ []) e h = absurd (omega (arith, e))
to_raw-of_raw (_ ∷ _ ∷ _ ∷ _ ∷ _ ∷ _ ∷ []) e h = absurd (omega (arith, e))
to_raw-of_raw (_ ∷ _ ∷ _ ∷ _ ∷ _ ∷ _ ∷ _ ∷ []) e h = absurd (omega (arith, e))
