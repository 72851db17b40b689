-- ===== src/Emulator/Words.antt =====
-- test_nvs_host/spi_flash_emulation.h: words and bytes, and parts of the array of words.
use sming_nvs.Prelude.{
  ℕ, zero, suc, ◌+◌, ◌-◌, ◌*◌, ◌/◌, ◌%◌, ◌<◌, ◌≤◌, ◌≡◌, ◌⊎◌, inl, inr, refl, sym, ap, ◌∙◌, arith,
  List, [], ◌∷◌, ◌++◌, length, take, drop, set, bytes32,
}
use sming_nvs.Item.Codec.{bytes32-word}
use sming_nvs.Platform.Flash.{IsBytes}
use sming_nvs.Emulator.{bytes_of, words_of, slice}

length-bytes_of : (ws : List ℕ) → length (bytes_of ws) ≡ length ws * 4
length-bytes_of [] = refl
length-bytes_of (w ∷ ws) = omega (arith, length-bytes_of ws)

pub length-words_of : (bs : List ℕ) → length (words_of bs) ≡ length bs / 4
length-words_of (a ∷ b ∷ c ∷ d ∷ rest) = omega (arith, length-words_of rest)
length-words_of [] = omega arith
length-words_of (_ ∷ []) = omega arith
length-words_of (_ ∷ _ ∷ []) = omega arith
length-words_of (_ ∷ _ ∷ _ ∷ []) = omega arith

pub bytes_of-words_of : (bs : List ℕ) → length bs % 4 ≡ 0 → IsBytes bs → bytes_of (words_of bs) ≡ bs
bytes_of-words_of (a ∷ b ∷ c ∷ d ∷ rest) e h =
    let four = bytes32-word a b c d h.0 h.1.0 h.1.1.0 h.1.1.1.0 in
    ap (λ x. x ++ bytes_of (words_of rest)) four
    ∙ ap (λ x. a ∷ b ∷ c ∷ d ∷ x) (bytes_of-words_of rest (omega (arith, e)) h.1.1.1.1)
bytes_of-words_of [] e h = refl
bytes_of-words_of (_ ∷ []) e h = absurd (omega (arith, e))
bytes_of-words_of (_ ∷ _ ∷ []) e h = absurd (omega (arith, e))
bytes_of-words_of (_ ∷ _ ∷ _ ∷ []) e h = absurd (omega (arith, e))

pub take-bytes_of : (n : ℕ) (ws : List ℕ) → take (n * 4) (bytes_of ws) ≡ bytes_of (take n ws)
take-bytes_of zero ws = refl
take-bytes_of (suc n) [] = let e : suc n * 4 ≡ suc (n * 4 + 3) = omega arith in rw e
take-bytes_of (suc n) (w ∷ ws) =
    let e : suc n * 4 ≡ suc (suc (suc (suc (n * 4)))) = omega arith in
    rw e (ap (λ x. bytes32 w ++ x) (take-bytes_of n ws))

pub drop-bytes_of : (n : ℕ) (ws : List ℕ) → drop (n * 4) (bytes_of ws) ≡ bytes_of (drop n ws)
drop-bytes_of zero ws = refl
drop-bytes_of (suc n) [] = let e : suc n * 4 ≡ suc (n * 4 + 3) = omega arith in rw e
drop-bytes_of (suc n) (w ∷ ws) =
    let e : suc n * 4 ≡ suc (suc (suc (suc (n * 4)))) = omega arith in rw e (drop-bytes_of n ws)

-- A write elsewhere leaves a part alone.
pub slice-set :
    (ws : List ℕ) (n pos i v : ℕ)
    → (i < pos) ⊎ (pos + n ≤ i)
    → slice n pos (set ws i v) ≡ slice n pos ws
slice-set [] n pos i v h = refl
slice-set (x ∷ ws) zero pos i v h = refl
slice-set (x ∷ ws) (suc n) zero zero v h = absurd (omega (arith, h))
slice-set (x ∷ ws) (suc n) zero (suc i) v h =
    ap (λ t. x ∷ t) (slice-set ws n zero i v (inr (omega (arith, h))))
slice-set (x ∷ ws) (suc n) (suc pos) zero v h = refl
slice-set (x ∷ ws) (suc n) (suc pos) (suc i) v h =
    slice-set ws (suc n) pos i v
      (elim h [ inl before ↦ inl (omega arith) | inr behind ↦ inr (omega arith) ])

-- The part at a write.
pub slice-set_self :
    (ws : List ℕ) (pos v : ℕ) → pos < length ws → slice 1 pos (set ws pos v) ≡ v ∷ []
slice-set_self [] pos v h = absurd (omega (arith, h))
slice-set_self (x ∷ ws) zero v h = refl
slice-set_self (x ∷ ws) (suc pos) v h = slice-set_self ws pos v (omega arith)

-- A part of one word and the part behind it.
pub slice-suc :
    (ws : List ℕ) (n pos : ℕ)
    → pos < length ws
    → slice (suc n) pos ws ≡ slice 1 pos ws ++ slice n (pos + 1) ws
slice-suc [] n pos h = absurd (omega (arith, h))
slice-suc (x ∷ ws) n zero h = refl
slice-suc (x ∷ ws) n (suc pos) h =
    let e : suc pos + 1 ≡ suc (pos + 1) = omega arith in rw e (slice-suc ws n pos (omega arith))

take-take : (k n : ℕ) (xs : List ℕ) → k ≤ n → take k (take n xs) ≡ take k xs
take-take zero n xs h = refl
take-take (suc k) zero xs h = absurd (omega (arith, h))
take-take (suc k) (suc n) [] h = refl
take-take (suc k) (suc n) (x ∷ xs) h = ap (λ t. x ∷ t) (take-take k n xs (omega arith))

drop-nil : (k : ℕ) → drop {A = ℕ} k [] ≡ []
drop-nil zero = refl
drop-nil (suc k) = refl

take-nil : (k : ℕ) → take {A = ℕ} k [] ≡ []
take-nil zero = refl
take-nil (suc k) = refl

drop-take : (k n : ℕ) (xs : List ℕ) → drop k (take n xs) ≡ take (n - k) (drop k xs)
drop-take zero n xs = let e : n - 0 ≡ n = omega arith in rw e
drop-take (suc k) zero xs = let e : 0 - suc k ≡ 0 = omega arith in rw e
drop-take (suc k) (suc n) [] = sym (take-nil (suc n - suc k))
drop-take (suc k) (suc n) (x ∷ xs) =
    let e : suc n - suc k ≡ n - k = omega arith in rw e (drop-take k n xs)

drop-drop : (k i : ℕ) (xs : List ℕ) → drop k (drop i xs) ≡ drop (i + k) xs
drop-drop k zero xs = let e : 0 + k ≡ k = omega arith in rw e
drop-drop k (suc i) [] = let e : suc i + k ≡ suc (i + k) = omega arith in rw e (drop-nil k)
drop-drop k (suc i) (x ∷ xs) =
    let e : suc i + k ≡ suc (i + k) = omega arith in rw e (drop-drop k i xs)

-- A part of a part.
pub take-slice : (k n i : ℕ) (ws : List ℕ) → k ≤ n → take k (slice n i ws) ≡ slice k i ws
take-slice k n i ws h = take-take k n (drop i ws) h

pub drop-slice : (k n i : ℕ) (ws : List ℕ) → drop k (slice n i ws) ≡ slice (n - k) (i + k) ws
drop-slice k n i ws = drop-take k n (drop i ws) ∙ ap (take (n - k)) (drop-drop k i ws)
