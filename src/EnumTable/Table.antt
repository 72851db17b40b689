-- ===== src/EnumTable/Table.antt =====
-- The whole table: `get` and `put` at two indices.
use sming_nvs.Prelude.{
  ℕ, ◌+◌, ◌*◌, ◌/◌, ◌%◌, ◌^◌, ◌≤◌, ◌<◌, ◌≡◌, ◌≢◌, ◌⊎◌, inl, inr, sym, ap, ◌∙◌, arith, List, some,
  length, length-set, set, get_or, All, All-set, All-get_or, get_or-set_self, get_or-set_ne, lt→ltb,
}
use native.Mathlib.Nat.{div-add-mod, mod-lt}
use native.Mathlib.Decide.{ℕ_discrete, dec_lt}
use sming_nvs.EnumTable.{
  Shape, word_count, items_per_word, get_word_index, offset, get_bits, set_bits, get, put,
}
use sming_nvs.EnumTable.Bits.{put_at, bit_and_ones, replace_field}
use sming_nvs.EnumTable.Laws.{field_at, field_at-put_at, field_at-put_at_ne, put_at-lt}

-- `static_assert(32 % Nbits == 0)`
pub record IsShape (t : Shape) : Type 0 where
  pub fills : items_per_word t * t.nbits ≡ 32
  pub wide : 0 < t.nbits
  pub several : 0 < items_per_word t

-- `uint32_t mData[WORD_COUNT]`
pub record IsTable (t : Shape) (words : List ℕ) : Type 0 where
  pub size : length words ≡ word_count t
  pub words_32 : All (λ w. w < 2 ^ 32) words

words_before : (p nb q r i : ℕ) → p * nb ≡ 32 → p * q + r ≡ i → 32 * q ≤ i * nb
words_before p nb q r i f e = omega (arith, ap (λ (x : ℕ). x * nb) e, ap (λ (x : ℕ). x * q) f)

gap : (a b nb : ℕ) → a < b → a * nb + nb ≤ b * nb
gap a b nb h = grind arith

module _ (t : Shape) (shape : IsShape t) where
  offset_fits : (i : ℕ) → t.nbits + offset t i ≤ 32
  offset_fits i = grind (arith, shape.fills, mod-lt i {m = items_per_word t} shape.several)

  word_in_range : (i : ℕ) → i < t.nitems → get_word_index t i < word_count t
  word_in_range i h = omega (
    arith,
    words_before (items_per_word t) t.nbits (i / items_per_word t) (i % items_per_word t) i
        shape.fills (div-add-mod i (items_per_word t)),
    gap i t.nitems t.nbits h,
    shape.wide,
  )

  -- Two entries of one word have fields that do not overlap.
  apart :
      (i j : ℕ)
      → i ≢ j
      → get_word_index t i ≡ get_word_index t j
      → (offset t i + t.nbits ≤ offset t j) ⊎ (offset t j + t.nbits ≤ offset t i)
  apart i j ne same =
      let ri : ℕ = i % items_per_word t in
      let rj : ℕ = j % items_per_word t in
      let differ : ri ≢ rj = λ e. ne (
        omega (
          arith,
          e,
          div-add-mod i (items_per_word t),
          div-add-mod j (items_per_word t),
          ap (λ (q : ℕ). items_per_word t * q) same,
        )) in
      elim (dec_lt ri rj) [
        | yes less ↦ inl (gap ri rj t.nbits less)
        | no more ↦ inr (gap rj ri t.nbits (omega arith))
      ]

  get-field :
      (i : ℕ) (ws : List ℕ)
      → i < t.nitems
      → get t i ws ≡ some (field_at t.nbits (offset t i) (get_or ws (get_word_index t i) 0))
  unfolding get get_bits
  get-field i ws h = rw (lt→ltb i t.nitems h) (ap some (bit_and_ones t.nbits _))

  -- The table after a write of a value that fits.
  stored : ℕ → ℕ → List ℕ → List ℕ
  stored i v ws =
      set ws (get_word_index t i) (put_at t.nbits (offset t i) (get_or ws (get_word_index t i) 0) v)

  word_32 : (ws : List ℕ) (k : ℕ) → IsTable t ws → get_or ws k 0 < 2 ^ 32
  word_32 ws k w = All-get_or (λ x. x < 2 ^ 32) ws k 0 (omega arith) w.words_32

  put-stored :
      (i v : ℕ) (ws : List ℕ)
      → IsTable t ws
      → i < t.nitems
      → v < 2 ^ t.nbits
      → put t i v ws ≡ some (stored i v ws)
  unfolding put set_bits stored
  put-stored i v ws w h hv = rw (lt→ltb i t.nitems h) (
      ap (λ x. some (set ws (get_word_index t i) x))
        (replace_field t.nbits (offset t i) 32 _ v (offset_fits i) (word_32 ws _ w) hv))

  stored-IsTable :
      (i v : ℕ) (ws : List ℕ) → IsTable t ws → v < 2 ^ t.nbits → IsTable t (stored i v ws)
  unfolding stored
  stored-IsTable i v ws w hv = record {
    size = length-set ws _ _ ∙ w.size;
    words_32 =
        All-set (λ x. x < 2 ^ 32) ws _ _
          (put_at-lt t.nbits (offset t i) 32 _ v (offset_fits i) (word_32 ws _ w) hv) w.words_32;
  }

  get-stored_self :
      (i v : ℕ) (ws : List ℕ)
      → IsTable t ws
      → i < t.nitems
      → v < 2 ^ t.nbits
      → get t i (stored i v ws) ≡ some v
  unfolding stored
  get-stored_self i v ws w h hv =
      let room : get_word_index t i < length ws = rw w.size (word_in_range i h) in
      get-field i _ h
      ∙ rw (get_or-set_self ws (get_word_index t i) (put_at t.nbits (offset t i) _ v) 0 room)
          (ap some (field_at-put_at t.nbits (offset t i) _ v hv))

  get-stored_ne :
      (i j v : ℕ) (ws : List ℕ)
      → IsTable t ws
      → i < t.nitems
      → j < t.nitems
      → v < 2 ^ t.nbits
      → i ≢ j
      → get t j (stored i v ws) ≡ get t j ws
  unfolding stored
  get-stored_ne i j v ws w hi hj hv ne =
      let room : get_word_index t i < length ws = rw w.size (word_in_range i hi) in
      let wi : ℕ = get_word_index t i in
      let wj : ℕ = get_word_index t j in
      let x : ℕ = put_at t.nbits (offset t i) (get_or ws wi 0) v in
      elim (ℕ_discrete wi wj) [
        | yes same ↦
            get-field j _ hj
            ∙ ap some (
                ap (λ k. field_at t.nbits (offset t j) (get_or (set ws wi x) k 0)) (sym same)
                ∙ ap (field_at t.nbits (offset t j)) (get_or-set_self ws wi x 0 room)
                ∙ field_at-put_at_ne t.nbits (offset t i) (offset t j) (get_or ws wi 0) v hv
                    (apart i j ne same)
                ∙ ap (λ k. field_at t.nbits (offset t j) (get_or ws k 0)) same)
            ∙ sym (get-field j ws hj)
        | no differ ↦
            get-field j _ hj
            ∙ ap (λ x. some (field_at t.nbits (offset t j) x)) (get_or-set_ne ws wi wj x 0 differ)
            ∙ sym (get-field j ws hj)
      ]

  -- A write of a value that fits into the field succeeds at an index of the table; the entry then
  -- reads that value, every other entry reads what it read before, and the words stay 32 bits wide.
  pub put-Writes :
      (i v : ℕ) (ws : List ℕ)
      → IsTable t ws
      → i < t.nitems
      → v < 2 ^ t.nbits
      → (ws' : List ℕ) × (put t i v ws ≡ some ws')
        × IsTable t ws'
        × (get t i ws' ≡ some v)
        × ((j : ℕ) → j < t.nitems → i ≢ j → get t j ws' ≡ get t j ws)
  put-Writes i v ws w h hv = (
    stored i v ws,
    put-stored i v ws w h hv,
    stored-IsTable i v ws w hv,
    get-stored_self i v ws w h hv,
    λ j hj ne. get-stored_ne i j v ws w h hj hv ne,
  )
