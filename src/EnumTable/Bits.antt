-- ===== src/EnumTable/Bits.antt =====
-- What the masks and shifts of the table do to a word, by recursion on its binary digits.
use Prim.Native.Nat.{bit_and, bit_or, digits, bit_and-bitwise, bit_or-bitwise, min, max}
use native.Mathlib.Nat.{
  zero-add, pow-le-pow_right, pow-suc, pow-succ', mod-lt, mod-eq_of_lt, div-add-mod,
  div-div-eq-div-mul, add-mul-mod_self_right,
}
use sming_nvs.Prelude.{
  ℕ, zero, suc, ◌+◌, ◌-◌, ◌*◌, ◌/◌, ◌%◌, ◌^◌, ◌≤◌, ◌<◌, ◌≡◌, refl, ap, ◌∙◌, arith,
}

-- An operation on binary digits does not see the digits it is given beyond those there are.
module _ (base : ℕ → ℕ) (op : ℕ → ℕ → ℕ) where
  digits_settled : (a b k l : ℕ) → a ≤ k → a ≤ l → digits base op k a b ≡ digits base op l a b
  digits_settled zero b zero zero hk hl = refl
  digits_settled zero b zero (suc l) hk hl = refl
  digits_settled zero b (suc k) zero hk hl = refl
  digits_settled zero b (suc k) (suc l) hk hl = refl
  digits_settled (suc a) b zero l hk hl = absurd (omega (arith, hk))
  digits_settled (suc a) b (suc k) zero hk hl = absurd (omega (arith, hl))
  digits_settled (suc a) b (suc k) (suc l) hk hl =
      let half = digits_settled (suc a / 2) (b / 2) k l (omega arith) (omega arith) in
      omega (arith, half)

  last_digit :
      (a b : ℕ)
      → digits base op (suc a) (suc a) b
        ≡ digits base op (suc a / 2) (suc a / 2) (b / 2) * 2 + op (suc a % 2) (b % 2)
  last_digit a b =
      omega (arith, digits_settled (suc a / 2) (b / 2) a (suc a / 2) (omega arith) (omega arith))

-- Both operations, digit by digit.
bit_and_step : (a b : ℕ) → bit_and a b ≡ bit_and (a / 2) (b / 2) * 2 + min (a % 2) (b % 2)
bit_and_step zero b = omega (arith, bit_and-bitwise 0 b, bit_and-bitwise 0 (b / 2))
bit_and_step (suc a) b =
    let whole = bit_and-bitwise (suc a) b in
    let half = bit_and-bitwise (suc a / 2) (b / 2) in
    omega (arith, last_digit (λ c. zero) min a b, whole, half)

bit_or_step : (a b : ℕ) → bit_or a b ≡ bit_or (a / 2) (b / 2) * 2 + max (a % 2) (b % 2)
bit_or_step zero b = omega (arith, bit_or-bitwise 0 b, bit_or-bitwise 0 (b / 2))
bit_or_step (suc a) b =
    let whole = bit_or-bitwise (suc a) b in
    let half = bit_or-bitwise (suc a / 2) (b / 2) in
    omega (arith, last_digit (λ c. c) max a b, whole, half)

-- Zero, with as many steps as the other number has digits.
zero_right : (n a : ℕ) → a ≤ n → (bit_and a 0 ≡ 0) × (bit_or a 0 ≡ a)
zero_right n zero h = (refl, refl)
zero_right zero (suc a) h = absurd (omega (arith, h))
zero_right (suc n) (suc a) h =
    let half = zero_right n (suc a / 2) (omega arith) in
    (omega (arith, half.0, bit_and_step (suc a) 0), omega (arith, half.1, bit_or_step (suc a) 0))

bit_and-zero : (a : ℕ) → bit_and a 0 ≡ 0
bit_and-zero a = (zero_right a a (omega arith)).0

bit_or-zero : (a : ℕ) → bit_or a 0 ≡ a
bit_or-zero a = (zero_right a a (omega arith)).1

pub pow_pos : (n : ℕ) → 0 < 2 ^ n
pow_pos zero = omega arith
pow_pos (suc n) = omega (arith, pow-suc 2 n, pow_pos n)

pub half_div : (n w : ℕ) → w / 2 ^ suc n ≡ w / 2 / 2 ^ n
half_div n w = rw (pow-succ' 2 n, div-div-eq-div-mul w 2 (2 ^ n))

mod_double : (a p : ℕ) → 0 < p → a % (p * 2) ≡ a / 2 % p * 2 + a % 2
mod_double a p h =
    let r : ℕ = a / 2 % p * 2 + a % 2 in
    let e : a ≡ r + a / 2 / p * (p * 2) = omega (arith, div-add-mod (a / 2) p) in
    ap (λ t. t % (p * 2)) e
    ∙ add-mul-mod_self_right r (a / 2 / p) (p * 2)
    ∙ mod-eq_of_lt (omega (arith, mod-lt (a / 2) h))

pub half_mod : (n w : ℕ) → w % 2 ^ suc n ≡ w / 2 % 2 ^ n * 2 + w % 2
half_mod n w = rw (pow-suc 2 n) (mod_double w (2 ^ n) (pow_pos n))

-- A mask of `n` ones keeps the last `n` digits.
pub bit_and_ones : (n a : ℕ) → bit_and a (2 ^ n - 1) ≡ a % 2 ^ n
bit_and_ones zero a = omega (arith, bit_and-zero a)
bit_and_ones (suc n) a =
    let m : ℕ = 2 ^ suc n - 1 in
    let e : m / 2 ≡ 2 ^ n - 1 = omega (arith, pow-suc 2 n, pow_pos n) in
    let f : m % 2 ≡ 1 = omega (arith, pow-suc 2 n, pow_pos n) in
    omega (arith, bit_and_step a m, ap (bit_and (a / 2)) e, bit_and_ones n (a / 2), half_mod n a)

-- A field of `nbits` bits written at an offset, one digit of the offset at a time.
unfoldable pub put_at : ℕ → ℕ → ℕ → ℕ → ℕ
put_at nbits zero w v = w / 2 ^ nbits * 2 ^ nbits + v
put_at nbits (suc o) w v = put_at nbits o (w / 2) v * 2 + w % 2

halve : (n : ℕ) → n * 2 / 2 ≡ n
halve n = omega arith

pub pow_add : (a b : ℕ) → 2 ^ (a + b) ≡ 2 ^ a * 2 ^ b
pow_add zero b = rw zero-add (omega arith)
pow_add (suc a) b =
    let e : suc a + b ≡ suc (a + b) = omega arith in
    rw (e, pow-suc 2 (a + b), pow_add a b, pow-suc 2 a) (omega arith)

field_fits : (nb o n : ℕ) → nb + o ≤ n → (2 ^ nb - 1) * 2 ^ o + 1 ≤ 2 ^ n
field_fits nb o n h =
    let room = pow-le-pow_right {n = 2} (omega arith) h in
    grind (arith, room, pow_add nb o, pow_pos o, pow_pos nb)

replace_low :
    (nb n w v : ℕ)
    → nb ≤ n
    → w < 2 ^ n
    → v < 2 ^ nb
    → bit_or (bit_and w (2 ^ n - 2 ^ nb)) v ≡ w / 2 ^ nb * 2 ^ nb + v
replace_low zero n w v h hw hv =
    let e : v ≡ 0 = omega arith in
    rw (e, bit_or-zero, bit_and_ones n w, mod-eq_of_lt hw) (omega arith)
replace_low (suc nb) zero w v h hw hv = absurd (omega arith)
replace_low (suc nb) (suc n) w v h hw hv =
    let pn = pow-suc 2 n in
    let pb = pow-suc 2 nb in
    let e : (2 ^ suc n - 2 ^ suc nb) / 2 ≡ 2 ^ n - 2 ^ nb = omega (arith, pn, pb) in
    let f : (2 ^ suc n - 2 ^ suc nb) % 2 ≡ 0 = omega (arith, pn, pb) in
    let a : bit_and w (2 ^ suc n - 2 ^ suc nb) ≡ bit_and (w / 2) (2 ^ n - 2 ^ nb) * 2 =
      rw (bit_and_step w (2 ^ suc n - 2 ^ suc nb), e, f) (omega arith) in
    let ih =
      replace_low nb n (w / 2) (v / 2) (omega arith) (omega (arith, pn)) (omega (arith, pb)) in
    rw (a, bit_or_step (bit_and (w / 2) (2 ^ n - 2 ^ nb) * 2) v, half_div nb w, pb)
      (omega (
        arith,
        ih,
        ap (λ t. bit_or t (v / 2)) (halve (bit_and (w / 2) (2 ^ n - 2 ^ nb))),
        mod-eq_of_lt hv,
      ))

-- The masks of `set_bits` write a field: at offset `o`, on words of `n` bits.
pub replace_field :
    (nb o n w v : ℕ)
    → nb + o ≤ n
    → w < 2 ^ n
    → v < 2 ^ nb
    → bit_or (bit_and w (2 ^ n - 1 - (2 ^ nb - 1) * 2 ^ o)) (v * 2 ^ o) ≡ put_at nb o w v
unfolding put_at
replace_field nb zero n w v h hw hv =
    let e : 2 ^ n - 1 - (2 ^ nb - 1) * 1 ≡ 2 ^ n - 2 ^ nb = omega (arith, pow_pos nb) in
    let f : v * 1 ≡ v = omega arith in rw (e, f) (replace_low nb n w v (omega arith) hw hv)
replace_field nb (suc o) zero w v h hw hv = absurd (omega arith)
replace_field nb (suc o) (suc n) w v h hw hv =
    let fit = field_fits nb o n (omega arith) in
    let pn = pow-suc 2 n in
    let po : (2 ^ nb - 1) * 2 ^ suc o ≡ (2 ^ nb - 1) * 2 ^ o * 2 = rw (pow-suc 2 o) (omega arith) in
    let pv : v * 2 ^ suc o ≡ v * 2 ^ o * 2 = rw (pow-suc 2 o) (omega arith) in
    let m : ℕ = 2 ^ suc n - 1 - (2 ^ nb - 1) * 2 ^ suc o in
    let e : m / 2 ≡ 2 ^ n - 1 - (2 ^ nb - 1) * 2 ^ o = omega (arith, pn, po, fit) in
    let f : m % 2 ≡ 1 = omega (arith, pn, po, fit) in
    let a : bit_and w m / 2 ≡ bit_and (w / 2) (2 ^ n - 1 - (2 ^ nb - 1) * 2 ^ o) =
      omega (arith, bit_and_step w m, ap (bit_and (w / 2)) e) in
    let b : bit_and w m % 2 ≡ w % 2 = omega (arith, bit_and_step w m) in
    let ih = replace_field nb o n (w / 2) v (omega arith) (omega (arith, pn)) hv in
    rw (bit_or_step (bit_and w m) (v * 2 ^ suc o), a, b, pv)
      (omega (
        arith,
        ih,
        ap (bit_or (bit_and (w / 2) (2 ^ n - 1 - (2 ^ nb - 1) * 2 ^ o))) (halve (v * 2 ^ o)),
      ))
