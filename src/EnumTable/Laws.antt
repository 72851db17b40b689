-- ===== src/EnumTable/Laws.antt =====
-- The fields of a word of the table, before and after a write.
use native.Mathlib.Nat.{
  pow-suc, mod-eq_of_lt, div-mul-le_self, mul-add-div_right, div-eq_of_lt, div-one,
  div-div-eq-div-mul, add-mul-mod_self_right,
}
use sming_nvs.Prelude.{
  ℕ, zero, suc, ◌+◌, ◌-◌, ◌*◌, ◌/◌, ◌%◌, ◌^◌, ◌≤◌, ◌<◌, ◌≡◌, ◌⊎◌, sym, ap, ◌∙◌, arith,
}
use sming_nvs.EnumTable.Bits.{put_at, half_div, half_mod, pow_pos, pow_add}

-- The field at an offset.
abbrev pub field_at : ℕ → ℕ → ℕ → ℕ
field_at nbits o w = w / 2 ^ o % 2 ^ nbits

field_at-suc : (nb o w : ℕ) → field_at nb (suc o) w ≡ field_at nb o (w / 2)
field_at-suc nb o w = ap (λ t. t % 2 ^ nb) (half_div o w)

pair_half : (a b : ℕ) → (a * 2 + b % 2) / 2 ≡ a
pair_half a b = omega arith

pub field_at-put_at : (nb o w v : ℕ) → v < 2 ^ nb → field_at nb o (put_at nb o w v) ≡ v
unfolding put_at
field_at-put_at nb zero w v h =
    let one : (w / 2 ^ nb * 2 ^ nb + v) / 1 ≡ v + w / 2 ^ nb * 2 ^ nb = omega arith in
    rw one (add-mul-mod_self_right v (w / 2 ^ nb) (2 ^ nb) ∙ mod-eq_of_lt h)
field_at-put_at nb (suc o) w v h =
    field_at-suc nb o _
    ∙ ap (field_at nb o) (pair_half (put_at nb o (w / 2) v) w)
    ∙ field_at-put_at nb o (w / 2) v h

pub put_at-lt : (nb o n w v : ℕ) → nb + o ≤ n → w < 2 ^ n → v < 2 ^ nb → put_at nb o w v < 2 ^ n
unfolding put_at
put_at-lt nb zero n w v h hw hv =
    let split : nb + (n - nb) ≡ n = omega arith in
    let room : 2 ^ n ≡ 2 ^ nb * 2 ^ (n - nb) = ap (λ k. 2 ^ k) (sym split) ∙ pow_add nb (n - nb) in
    grind (arith, room, div-mul-le_self w (2 ^ nb))
put_at-lt nb (suc o) zero w v h hw hv = absurd (omega arith)
put_at-lt nb (suc o) (suc n) w v h hw hv =
    omega
      (arith, pow-suc 2 n, put_at-lt nb o n (w / 2) v (omega arith) (omega (arith, pow-suc 2 n)) hv)

put_at-mod : (nb o k w v : ℕ) → k ≤ o → put_at nb o w v % 2 ^ k ≡ w % 2 ^ k
unfolding put_at
put_at-mod nb o zero w v h = omega arith
put_at-mod nb zero (suc k) w v h = absurd (omega arith)
put_at-mod nb (suc o) (suc k) w v h =
    rw (half_mod, half_mod k w, pair_half (put_at nb o (w / 2) v) w)
      (omega (arith, put_at-mod nb o k (w / 2) v (omega arith)))

div_pow_add : (a b w : ℕ) → w / 2 ^ (a + b) ≡ w / 2 ^ a / 2 ^ b
div_pow_add a b w = rw (pow_add a b, div-div-eq-div-mul w (2 ^ a) (2 ^ b))

-- Fields that do not overlap.
pub field_at-put_at_ne :
    (nb o p w v : ℕ)
    → v < 2 ^ nb
    → (o + nb ≤ p) ⊎ (p + nb ≤ o)
    → field_at nb p (put_at nb o w v) ≡ field_at nb p w
unfolding put_at
field_at-put_at_ne zero zero p w v hv h = let e : w / 1 * 1 + v ≡ w = omega arith in rw e
field_at-put_at_ne (suc nb) zero p w v hv h =
    let split : suc nb + (p - suc nb) ≡ p = omega arith in
    let same : (w / 2 ^ suc nb * 2 ^ suc nb + v) / 2 ^ suc nb ≡ w / 2 ^ suc nb =
      mul-add-div_right (pow_pos (suc nb)) (w / 2 ^ suc nb) v ∙ omega (arith, div-eq_of_lt hv) in
    rw (← split, div_pow_add (suc nb) (p - suc nb), same, ← div_pow_add (suc nb) (p - suc nb) w)
field_at-put_at_ne nb (suc o) zero w v hv h =
    let one = λ (x : ℕ). div-one x in
    rw (div-one, div-one) (put_at-mod nb (suc o) nb w v (omega arith))
field_at-put_at_ne nb (suc o) (suc p) w v hv h =
    field_at-suc nb p _
    ∙ ap (field_at nb p) (pair_half (put_at nb o (w / 2) v) w)
    ∙ field_at-put_at_ne nb o p (w / 2) v hv (omega arith)
    ∙ sym (field_at-suc nb p w)
