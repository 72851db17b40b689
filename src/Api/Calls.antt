-- ===== src/Api/Calls.antt =====
-- src/nvs_api.cpp: the life of the C interface, as calls in any order.
use sming_nvs.Prelude.{length, ℕ, Bool, Option, List}
use sming_nvs.Prelude.Preserves.{Preserves}
use sming_nvs.Platform.{Platform}
use sming_nvs.PartitionManager.{OpenMode}
use sming_nvs.PartitionManager.Sound.{Sound}
use sming_nvs.Handle.{Change, change}
use sming_nvs.Handle
use sming_nvs.Api.{
  Api, EspPartition, nvs_flash_init_partition_ptr, nvs_flash_deinit_partition,
  nvs_open_from_partition, nvs_close, nvs_erase_key, nvs_erase_all, nvs_set, nvs_set_str,
  nvs_set_blob, nvs_commit, nvs_get, nvs_get_str_or_blob,
}
use sming_nvs.Api.Walk.{nvs_get_used_entry_count}

-- The calls of the C interface, with their arguments.
pub data Call : Type 0 where
  call_init : Option EspPartition → Call
  call_deinit : List ℕ → Call
  call_open : List ℕ → List ℕ → OpenMode → Call
  call_close call_erase_all call_commit : ℕ → Call
  call_erase_key : ℕ → List ℕ → Call
  call_set : Bool → ℕ → ℕ → List ℕ → ℕ → Call
  call_set_str call_set_blob : ℕ → List ℕ → List ℕ → Call
  call_get : Bool → ℕ → ℕ → List ℕ → ℕ → Call
  call_get_str_or_blob : ℕ → ℕ → List ℕ → Option (List ℕ) → Option ℕ → Call
  call_count : Bool → ℕ → Call

module _ {Dev : Type 0} ⦃P : Platform Dev⦄ where
  -- The state behind a call, whatever it returns.
  unfoldable pub after : Call → Api Dev → Api Dev
  after (call_init p) a = (nvs_flash_init_partition_ptr p a).1
  after (call_deinit name) a = (nvs_flash_deinit_partition name a).1
  after (call_open part name mode) a = (nvs_open_from_partition part name mode a).1
  after (call_close c) a = (nvs_close c a).1
  after (call_erase_all c) a = (nvs_erase_all c a).1
  after (call_commit c) a = (nvs_commit c a).1
  after (call_erase_key c key) a = (nvs_erase_key c key a).1
  after (call_set signed size c key value) a = (nvs_set signed size c key value a).1
  after (call_set_str c key value) a = (nvs_set_str c key value a).1
  after (call_set_blob c key value) a = (nvs_set_blob c key value a).1
  after (call_get signed size c key old) a = (nvs_get signed size c key old a).1
  after (call_get_str_or_blob c t key out length) a = (nvs_get_str_or_blob c t key out length a).1
  after (call_count given c) a = (nvs_get_used_entry_count given c a).1

  -- The states that calls lead to.
  pub data Reach (start : Api Dev) : Api Dev → Type 0 where
    here : Reach start start
    next : {a : Api Dev} → Reach start a → (c : Call) → Reach start (after c a)
