-- ===== src/Api/Scalars.antt =====
-- src/nvs_api.cpp: the calls of `nvs_set` and `nvs_get` for the integer types, by signedness and size.
use sming_nvs.Prelude.{ℕ, true, false, List, M, Void}
use sming_nvs.Platform.{Platform}
use sming_nvs.Api.{Api, nvs_set, nvs_get}

module _ {Dev : Type 0} ⦃P : Platform Dev⦄ where
  abbrev nvs_set_i8 : ℕ → List ℕ → ℕ → M (Api Dev) Void
  nvs_set_i8 = nvs_set true 1

  abbrev nvs_set_u8 : ℕ → List ℕ → ℕ → M (Api Dev) Void
  nvs_set_u8 = nvs_set false 1

  abbrev nvs_set_i16 : ℕ → List ℕ → ℕ → M (Api Dev) Void
  nvs_set_i16 = nvs_set true 2

  abbrev nvs_set_u16 : ℕ → List ℕ → ℕ → M (Api Dev) Void
  nvs_set_u16 = nvs_set false 2

  abbrev nvs_set_i32 : ℕ → List ℕ → ℕ → M (Api Dev) Void
  nvs_set_i32 = nvs_set true 4

  abbrev nvs_set_u32 : ℕ → List ℕ → ℕ → M (Api Dev) Void
  nvs_set_u32 = nvs_set false 4

  abbrev nvs_set_i64 : ℕ → List ℕ → ℕ → M (Api Dev) Void
  nvs_set_i64 = nvs_set true 8

  abbrev nvs_set_u64 : ℕ → List ℕ → ℕ → M (Api Dev) Void
  nvs_set_u64 = nvs_set false 8

  abbrev nvs_get_i8 : ℕ → List ℕ → ℕ → M (Api Dev) ℕ
  nvs_get_i8 = nvs_get true 1

  abbrev nvs_get_u8 : ℕ → List ℕ → ℕ → M (Api Dev) ℕ
  nvs_get_u8 = nvs_get false 1

  abbrev nvs_get_i16 : ℕ → List ℕ → ℕ → M (Api Dev) ℕ
  nvs_get_i16 = nvs_get true 2

  abbrev nvs_get_u16 : ℕ → List ℕ → ℕ → M (Api Dev) ℕ
  nvs_get_u16 = nvs_get false 2

  abbrev nvs_get_i32 : ℕ → List ℕ → ℕ → M (Api Dev) ℕ
  nvs_get_i32 = nvs_get true 4

  abbrev nvs_get_u32 : ℕ → List ℕ → ℕ → M (Api Dev) ℕ
  nvs_get_u32 = nvs_get false 4

  abbrev nvs_get_i64 : ℕ → List ℕ → ℕ → M (Api Dev) ℕ
  nvs_get_i64 = nvs_get true 8

  abbrev nvs_get_u64 : ℕ → List ℕ → ℕ → M (Api Dev) ℕ
  nvs_get_u64 = nvs_get false 8
