-- ===== src/Prelude/Methods.antt =====
-- Methods as state transformers. A C++ method that returns an `esp_err_t` leaves the object changed
-- also when it fails, so the state comes back on every outcome.
use mathlib.Core.Bool.{Bool, true, false}
use mathlib.Core.Option.{Option, none, some}

-- The values of `esp_err_t` other than `ESP_OK`.
pub data Esp : Type 0 where
  esp_fail no_mem invalid_arg invalid_state invalid_size not_found : Esp
  flash_op_fail flash_op_timeout : Esp
  nvs_not_initialized nvs_not_found nvs_type_mismatch nvs_read_only nvs_not_enough_space : Esp
  nvs_invalid_name nvs_invalid_handle nvs_remove_failed nvs_key_too_long nvs_page_full : Esp
  nvs_invalid_state nvs_invalid_length nvs_no_free_pages nvs_value_too_long : Esp
  nvs_part_not_found nvs_new_version_found nvs_content_differs : Esp
  nvs_xts_encr_failed nvs_xts_decr_failed nvs_xts_cfg_failed : Esp

-- How a call ends: it returns, with `ESP_OK` and its results or with an error code; an `assert` or
-- an `ESP_ERROR_CHECK` fails and stops the program; or a loop of it runs out of its fuel.
pub data Outcome (A : Type 0) : Type 0 where
  ok : A → Outcome A
  err : Esp → Outcome A
  abort : Outcome A
  stuck : Outcome A

-- What `assert` and the loops of void functions return.
abbrev pub Void : Type 0
Void = Unit {0}

abbrev pub M : Type 0 → Type 0 → Type 0
M S A = S → Outcome A × S

module _ {S A : Type 0} where
  abbrev pub pure : A → M S A
  pure a s = (ok a, s)

  abbrev pub fail : Esp → M S A
  fail e s = (err e, s)

  abbrev pub abort_call : M S A
  abort_call s = (abort, s)

  abbrev pub stuck_call : M S A
  stuck_call s = (stuck, s)

  abbrev pub gets : (S → A) → M S A
  gets f s = (ok (f s), s)

abbrev pub modify : {S : Type 0} → (S → S) → M S Void
modify f s = (ok tt, f s)

abbrev pub assert : {S : Type 0} → Bool → M S Void
assert true s = (ok tt, s)
assert false s = (abort, s)

abbrev pub raise_if : {S : Type 0} → Bool → Esp → M S Void
raise_if true e s = (err e, s)
raise_if false e s = (ok tt, s)

infixl 5 ◌>>=◌ ◌>>◌
abbrev pub ◌>>=◌ : {S A B : Type 0} → M S A → (A → M S B) → M S B
◌>>=◌ m f s =
    let (r, s') = m s in
    elim r [ ok a ↦ f a s' | err e ↦ (err e, s') | abort ↦ (abort, s') | stuck ↦ (stuck, s') ]

abbrev pub ◌>>◌ : {S B : Type 0} → M S Void → M S B → M S B
m >> k = m >>= λ _. k

-- `auto err = m();` : the code is kept as a value, `none` for `ESP_OK`.
abbrev pub try : {S A : Type 0} → M S A → M S (Option Esp)
try m s =
    let (r, s') = m s in
    elim r [
      | ok _ ↦ (ok none, s')
      | err e ↦ (ok (some e), s')
      | abort ↦ (abort, s')
      | stuck ↦ (stuck, s')
    ]

-- The other way: `if (err != ESP_OK) return err;`
abbrev pub check : {S : Type 0} → Option Esp → M S Void
check none s = (ok tt, s)
check (some e) s = (err e, s)

-- A call whose result is used only if it succeeds, and whose failure is not returned at once.
pub data Attempt (A : Type 0) : Type 0 where
  done : A → Attempt A
  failed : Esp → Attempt A

abbrev pub attempt : {S A : Type 0} → M S A → M S (Attempt A)
attempt m s =
    let (r, s') = m s in
    elim r [
      | ok a ↦ (ok (done a), s')
      | err e ↦ (ok (failed e), s')
      | abort ↦ (abort, s')
      | stuck ↦ (stuck, s')
    ]

-- The value of an `Option`, or the end of the program.
abbrev pub or_abort : {S A : Type 0} → Option A → M S A
or_abort none s = (abort, s)
or_abort (some a) s = (ok a, s)
