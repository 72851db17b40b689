-- ===== src/Page/Filling.antt =====
-- src/nvs_page.cpp: how the bytes of a value fill its entries of data.
use mathlib.Core.Path.{subst}
use sming_nvs.Prelude.{
  ℕ, ◌+◌, ◌-◌, ◌/◌, ◌%◌, ◌≤◌, ◌≡◌, sym, ap, ◌∙◌, arith, Bool, true, Bool-cases, inl, inr, List, [],
  ◌∷◌, ◌++◌, length, length-append, ltb, if◌then◌else◌, take, drop, take-append-drop, append-nil,
  append_assoc,
}
use sming_nvs.Page.Rows.{joined, joined-chunks, joined-append, length-chunks}
use sming_nvs.Page.Laid.{blank_row, whole_size, last_row, whole_rows, rows_of, length-whole}
use sming_nvs.Item.{is_variable_length_type}
use sming_nvs.Item.Codec.{take_all}
use sming_nvs.Page.State.{entry_size}
use sming_nvs.Page.Items.{total_size}

-- The bytes in the entries of data: those of the value, and what fills the last entry up.
pub joined-rows :
    (bytes : List ℕ) → (filling : List ℕ) × (joined (rows_of bytes) ≡ bytes ++ filling)
joined-rows bytes =
    let whole = take (whole_size bytes) bytes in
    let rest = drop (whole_size bytes) bytes in
    let filling = drop (length rest) blank_row in
    let first : joined (whole_rows bytes) ≡ whole =
      joined-chunks (length bytes / 32) whole (length-whole bytes) in
    let rows = λ (some_left : Bool).
      joined (whole_rows bytes ++ (if some_left then last_row bytes ∷ [] else [])) in
    elim (Bool-cases (ltb 0 (length bytes - whole_size bytes))) [
      | inl more ↦ (
        filling,
        ap rows more
            ∙ joined-append (whole_rows bytes) (last_row bytes ∷ [])
            ∙ ap (λ x. x ++ (last_row bytes ++ [])) first
            ∙ ap (λ x. whole ++ x) (append-nil (last_row bytes))
            ∙ sym (append_assoc whole rest filling)
            ∙ ap (λ x. x ++ filling) (take-append-drop (whole_size bytes) bytes),
      )
      | inr none_left ↦
          let all : length bytes ≡ whole_size bytes = ground (arith, none_left) in
          (
            [],
            ap rows none_left
                ∙ joined-append (whole_rows bytes) []
                ∙ ap (λ x. x ++ []) first
                ∙ ap (λ x. x ++ []) (subst (λ (n : ℕ). take n bytes ≡ bytes) all (take_all bytes)),
          )
    ]

pub length-rows :
    (datatype : ℕ) (bytes : List ℕ)
    → is_variable_length_type datatype ≡ true
    → length bytes ≤ 4000
    → (total_size datatype (length bytes) + entry_size - 1) / entry_size % 256 - 1
      ≡ length (rows_of bytes)
length-rows datatype bytes var short =
    rw
      (
        length-append (whole_rows bytes)
            (if ltb 0 (length bytes - whole_size bytes) then last_row bytes ∷ [] else []),
        var,
        length-chunks (length bytes / 32) (take (whole_size bytes) bytes),
      )
      (ground arith)
