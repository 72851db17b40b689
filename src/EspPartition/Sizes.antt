-- ===== src/EspPartition/Sizes.antt =====
-- src/nvs_encrypted_partition.cpp: how far the counter of the loop in `write` reaches.
use sming_nvs.Prelude.{
  ℕ, suc, zero, ◌≡◌, ◌≢◌, ◌<◌, ◌≤◌, sym, ◌∙◌, inl, inr, arith, some, List, ◌++◌, stuck, ◌+◌, ◌*◌,
  ◌/◌, ltb, ltb→lt, u8, length, take, drop, length-append, length-take, length-drop, Option-cases,
  Bool-cases,
}
use sming_nvs.EspPartition.{Xts, item_size, encrypt_loop}
use sming_nvs.EspPartition.RoundTrip.{IsCipher, sealed, loop-step, loop-fails, loop-ends}

module _ (X : Xts) (address : ℕ) where
  sealed-size :
      (entry : ℕ) (buffer bytes : List ℕ)
      → IsCipher X
      → entry < length buffer / item_size
      → sealed X address entry buffer ≡ some bytes
      → length
          (take (entry * item_size) buffer ++ bytes ++ drop (entry * item_size + item_size) buffer)
        ≡ length buffer
  unfolding sealed
  sealed-size entry buffer bytes c below is =
      let size = c.size _ _ bytes is in
      omega (
        arith,
        size,
        below,
        length-append (take (entry * item_size) buffer ++ bytes)
            (drop (entry * item_size + item_size) buffer),
        length-append (take (entry * item_size) buffer) bytes,
        length-take (entry * item_size) buffer,
        length-take item_size (drop (entry * item_size) buffer),
        length-drop (entry * item_size) buffer,
        length-drop (entry * item_size + item_size) buffer,
      )

  loop-not_stuck :
      (fuel entry : ℕ) (buffer : List ℕ)
      → IsCipher X
      → length buffer / item_size < 256
      → entry ≤ length buffer / item_size
      → length buffer / item_size < entry + fuel
      → encrypt_loop X address fuel entry buffer ≢ stuck
  loop-not_stuck zero entry buffer c small le lt = absurd (omega (arith, le, lt))
  loop-not_stuck (suc fuel) entry buffer c small le lt =
      elim (Bool-cases (ltb entry (length buffer / item_size))) [
        | inr end ↦ λ e. ground (arith, e, loop-ends X address fuel entry buffer end)
        | inl more ↦ elim (Option-cases (sealed X address entry buffer)) [
          | inl fails ↦ λ e. ground (arith, e, loop-fails X address fuel entry buffer more fails)
          | inr (bytes, is) ↦
              let more' = ltb→lt entry (length buffer / item_size) more in
              let size = sealed-size entry buffer bytes c more' is in
              let next : u8 (entry + 1) ≡ entry + 1 = omega (arith, small, more') in
              λ e.
                loop-not_stuck fuel (u8 (entry + 1)) _ c (omega (arith, size, small))
                  (omega (arith, size, next, more')) (omega (arith, size, next, lt))
                  (sym (loop-step X address fuel entry buffer bytes more is) ∙ e)
        ]
      ]

  -- With the cipher's blocks of the right size, the loop of `write` comes to an end for a buffer of
  -- less than 256 entries, which is what its counter of 8 bits can count.
  pub encrypt_loop-ends :
      (src : List ℕ) → IsCipher X → length src / 32 < 256 → encrypt_loop X address 257 0 src ≢ stuck
  encrypt_loop-ends src c small =
      loop-not_stuck 257 0 src c small (omega arith) (omega (arith, small))
