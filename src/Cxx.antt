-- ===== src/Cxx.antt =====
-- src/nvs_cxx_api.cpp and src/nvs_handle_locked.cpp: the C++ interface, whose handles are objects that
-- take the lock in each call and pass it on to the handle within. With the lock a call is one step.
pub mod Opening
use sming_nvs.Prelude.{
  ℕ, Bool, true, false, Option, none, some, List, M, Void, Esp, no_mem, invalid_arg, pure, attempt,
  Attempt, done, failed, ◌>>=◌, ◌>>◌,
}
use sming_nvs.Platform.{Platform}
use sming_nvs.PartitionManager.{Registry, OpenMode, request_memory, delete_handle}
use sming_nvs.PartitionManager.Requests.{open_handle}
use sming_nvs.Handle
use sming_nvs.Api.{default_part_name}

-- `NVSHandleLocked`, with the handle that it owns.
pub record HandleLocked : Type 0 where
  pub handle : ℕ

-- What the caller is given: the handle, or a null pointer, and `*err`, which is `none` for `ESP_OK`.
pub record Opened : Type 0 where
  pub locked : Option HandleLocked
  pub code : Option Esp

abbrev refused : Esp → Opened
refused e = record { locked = none; code = some e }

module _ {Dev : Type 0} where
  -- The handle with its lock, where there is memory; otherwise it is deleted.
  unfoldable pub with_lock : ℕ → M (Registry Dev) Opened
  with_lock h = do
    granted ← request_memory
    elim granted [
      | true ↦ pure (record { locked = some (record { handle = h }); code = none })
      | false ↦ do delete_handle h; pure (refused no_mem)
    ]

  -- `if (result != ESP_OK) return nullptr;` and what follows.
  abbrev pub returned : Attempt ℕ → M (Registry Dev) Opened
  returned (done h) = with_lock h
  returned (failed e) = pure (refused e)

  -- `~NVSHandleLocked`
  abbrev pub destroy : HandleLocked → M (Registry Dev) Void
  destroy l = delete_handle l.handle

module _ {Dev : Type 0} ⦃P : Platform Dev⦄ where
  unfoldable pub open_nvs_handle_from_partition :
      Option (List ℕ) → Option (List ℕ) → OpenMode → M (Registry Dev) Opened
  open_nvs_handle_from_partition none _ mode = pure (refused invalid_arg)
  open_nvs_handle_from_partition (some part) none mode = pure (refused invalid_arg)
  open_nvs_handle_from_partition (some part) (some name) mode = do
    result ← attempt (open_handle part name mode)
    returned result

  abbrev open_nvs_handle : Option (List ℕ) → OpenMode → M (Registry Dev) Opened
  open_nvs_handle name mode = open_nvs_handle_from_partition (some default_part_name) name mode

  abbrev set_string : List ℕ → List ℕ → HandleLocked → M (Registry Dev) Void
  set_string key str l = Handle.set_string key str l.handle

  abbrev set_blob : List ℕ → List ℕ → HandleLocked → M (Registry Dev) Void
  set_blob key blob l = Handle.set_blob key blob l.handle

  abbrev get_string : List ℕ → List ℕ → HandleLocked → M (Registry Dev) (List ℕ)
  get_string key buffer l = Handle.get_string key buffer l.handle

  abbrev get_blob : List ℕ → List ℕ → HandleLocked → M (Registry Dev) (List ℕ)
  get_blob key buffer l = Handle.get_blob key buffer l.handle

  abbrev get_item_size : ℕ → List ℕ → HandleLocked → M (Registry Dev) ℕ
  get_item_size datatype key l = Handle.get_item_size datatype key l.handle

  abbrev erase_item : List ℕ → HandleLocked → M (Registry Dev) Void
  erase_item key l = Handle.erase_item key l.handle

  abbrev erase_all : HandleLocked → M (Registry Dev) Void
  erase_all l = Handle.erase_all l.handle

  abbrev commit : HandleLocked → M (Registry Dev) Void
  commit l = Handle.commit l.handle

  abbrev get_used_entry_count : HandleLocked → M (Registry Dev) ℕ
  get_used_entry_count l = Handle.get_used_entry_count l.handle

  abbrev set_typed_item : ℕ → List ℕ → List ℕ → HandleLocked → M (Registry Dev) Void
  set_typed_item datatype key bytes l = Handle.set_typed_item datatype key bytes l.handle

  abbrev get_typed_item : ℕ → List ℕ → List ℕ → HandleLocked → M (Registry Dev) (List ℕ)
  get_typed_item datatype key buffer l = Handle.get_typed_item datatype key buffer l.handle
