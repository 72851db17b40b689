-- ===== src/Api.antt =====
-- src/nvs_api.cpp: the C interface, whose handles are numbers. The lock is held during each call, so a
-- call is one step. An integer is given by its size and its value as an unsigned one. The build is the
-- one without `ESP_PLATFORM`.
pub mod Scalars
pub mod Walk
pub mod Owned
pub mod Safety
pub mod Opening
pub mod Calls
pub mod Numbers
pub mod Lengths
use sming_nvs.Prelude.{
  ℕ, zero, suc, ◌+◌, ◌*◌, ◌/◌, ◌%◌, Bool, true, false, not, Option, none, some, List, [], ◌∷◌, ◌++◌,
  M, Void, Esp, Outcome, ok, err, abort, stuck, no_mem, invalid_arg, nvs_invalid_handle,
  nvs_not_initialized, nvs_invalid_state, nvs_invalid_length, pure, fail, raise_if, modify, attempt,
  Attempt, done, failed, ◌>>=◌, ◌>>◌, ltb, ◌==◌, if◌then◌else◌, take, u32, word_at,
}
use sming_nvs.Item.ItemType
use sming_nvs.Platform.{Platform}
use sming_nvs.Page.State.{sec_size}
use sming_nvs.Page.Header.{Stats}
use sming_nvs.Storage.State.{storage_active, storage_invalid, StorageState}
use sming_nvs.Storage.Entries.{Iterator, EntryInfo}
use sming_nvs.Storage.Entries
use sming_nvs.PartitionManager.{
  Registry, PartitionObject, OpenMode, lookup_storage, node_at, on_storage, request_memory,
  deinit_partition, delete_handle,
}
use sming_nvs.PartitionManager.Requests.{init_custom, open_handle}
use sming_nvs.Handle.{set_string, set_blob, erase_item, erase_all}
use sming_nvs.Handle

-- `NVSHandleEntry`
pub record Entry : Type 0 where
  pub c_handle : ℕ
  pub handle : ℕ
  pub part_name : List ℕ

-- `s_nvs_handles`, `s_nvs_next_handle`, and what is behind them.
pub record Api (Dev : Type 0) : Type 0 where
  pub registry : Registry Dev
  pub entries : List Entry
  pub next_handle : ℕ

-- The members of `esp_partition_t` that the code reads.
pub record EspPartition : Type 0 where
  pub address : ℕ
  pub size : ℕ
  pub label : List ℕ

-- `NVS_DEFAULT_PART_NAME`
abbrev pub default_part_name : List ℕ
default_part_name = 110 ∷ 118 ∷ 115 ∷ []

-- An integer of `size` bytes in memory.
abbrev bytes_of : ℕ → ℕ → List ℕ
bytes_of zero value = []
bytes_of (suc size) value = value % 256 ∷ bytes_of size (value / 256)

-- `find_if` over the entries.
unfoldable pub find_entry : ℕ → List Entry → Option Entry
find_entry c [] = none
find_entry c (e ∷ es) = if e.c_handle == c then some e else find_entry c es

unfoldable pub erase_entry : ℕ → List Entry → List Entry
erase_entry c [] = []
erase_entry c (e ∷ es) = if e.c_handle == c then es else e ∷ erase_entry c es

-- What `nvs_get_str_or_blob` leaves: its code, `*length`, and the buffer, whose content is not said
-- where a read of it has failed.
pub record Fetched : Type 0 where
  pub code : Option Esp
  pub length : Option ℕ
  pub value : Option (List ℕ)

-- `nvs_opaque_iterator_t`
pub record ApiIterator : Type 0 where
  pub storage : ℕ
  pub position : Iterator

module _ {Dev : Type 0} where
  abbrev on_registry : {A : Type 0} → M (Registry Dev) A → M (Api Dev) A
  on_registry f a = let (o, r) = f a.registry in (o, record a { registry = r })

  abbrev gets_api : {A : Type 0} → (Api Dev → A) → M (Api Dev) A
  gets_api f a = (ok (f a), a)

  -- `nvs_find_ns_handle`
  unfoldable pub find_ns_handle : ℕ → M (Api Dev) ℕ
  find_ns_handle c a = elim (find_entry c a.entries) [
    | none ↦ (err nvs_invalid_handle, a)
    | some e ↦ (ok e.handle, a)
  ]

  -- A call that a handle is asked to carry out.
  pub with_handle : {A : Type 0} → ℕ → (ℕ → M (Registry Dev) A) → M (Api Dev) A
  with_handle c f = do h ← find_ns_handle c; on_registry (f h)

  -- `s_nvs_handles.clearAndFreeNodes()`
  pub free_nodes : List Entry → M (Api Dev) Void
  free_nodes [] = pure tt
  free_nodes (e ∷ es) = do
    modify (λ a. record a { entries = es })
    on_registry (delete_handle e.handle)
    free_nodes es

  -- `close_handles_and_deinit`, `nvs_flash_deinit_partition`
  pub nvs_flash_deinit_partition : List ℕ → M (Api Dev) Void
  nvs_flash_deinit_partition part_name = do
    a ← gets_api (λ a. a)
    free_nodes a.entries
    on_registry (deinit_partition part_name)

  abbrev nvs_flash_deinit : M (Api Dev) Void
  nvs_flash_deinit = nvs_flash_deinit_partition default_part_name

  unfoldable pub nvs_close : ℕ → M (Api Dev) Void
  nvs_close c a = elim (find_entry c a.entries) [
    | none ↦ (ok tt, a)
    | some e ↦ on_registry (delete_handle e.handle) (record a { entries = erase_entry c a.entries })
  ]

  -- `NVSHandleEntry(handle, part_name)`, put behind the others; the result is its number.
  unfoldable pub push_entry : ℕ → List ℕ → M (Api Dev) ℕ
  push_entry h part_name a =
      let number = u32 (a.next_handle + 1) in
      (
        ok number,
        record a {
          entries =
              a.entries ++ record { c_handle = number; handle = h; part_name = part_name } ∷ [];
          next_handle = number;
        },
      )

  -- `new (std::nothrow) NVSPartition(partition)`, where there is memory.
  abbrev new_partition : EspPartition → M (Registry Dev) PartitionObject
  new_partition p r = (
    ok (record { address = r.next_address; name = p.label }),
    record r { next_address = r.next_address + 1 },
  )

module _ {Dev : Type 0} ⦃P : Platform Dev⦄ where
  abbrev init_new_partition : EspPartition → M (Registry Dev) Void
  init_new_partition p = do
    granted ← request_memory
    raise_if (not granted) no_mem
    part ← new_partition p
    init_custom part (p.address / sec_size) (p.size / sec_size)

  pub nvs_flash_init_partition_ptr : Option EspPartition → M (Api Dev) Void
  nvs_flash_init_partition_ptr partition = elim partition [
    | none ↦ fail invalid_arg
    | some p ↦ on_registry (init_new_partition p)
  ]

  -- The end of `nvs_open_from_partition`: the entry for the handle, where there is memory.
  unfoldable pub add_entry : ℕ → List ℕ → M (Api Dev) ℕ
  add_entry h part_name = do
    granted ← on_registry request_memory
    elim granted [
      | true ↦ push_entry h part_name
      | false ↦ do on_registry (delete_handle h); fail no_mem
    ]

  unfoldable pub nvs_open_from_partition : List ℕ → List ℕ → OpenMode → M (Api Dev) ℕ
  nvs_open_from_partition part_name name mode = do
    h ← on_registry (open_handle part_name name mode)
    add_entry h part_name

  abbrev nvs_open : List ℕ → OpenMode → M (Api Dev) ℕ
  nvs_open name mode = nvs_open_from_partition default_part_name name mode

  pub nvs_erase_key : ℕ → List ℕ → M (Api Dev) Void
  nvs_erase_key c key = with_handle c (erase_item key)

  pub nvs_erase_all : ℕ → M (Api Dev) Void
  nvs_erase_all c = with_handle c erase_all

  pub nvs_set : Bool → ℕ → ℕ → List ℕ → ℕ → M (Api Dev) Void
  nvs_set signed size c key value = with_handle c (Handle.set_item signed key (bytes_of size value))

  pub nvs_commit : ℕ → M (Api Dev) Void
  nvs_commit c = with_handle c Handle.commit

  pub nvs_set_str : ℕ → List ℕ → List ℕ → M (Api Dev) Void
  nvs_set_str c key value = with_handle c (set_string key value)

  pub nvs_set_blob : ℕ → List ℕ → List ℕ → M (Api Dev) Void
  nvs_set_blob c key value = with_handle c (set_blob key value)

  -- `*out_value` before the call is the last argument.
  pub nvs_get : Bool → ℕ → ℕ → List ℕ → ℕ → M (Api Dev) ℕ
  nvs_get signed size c key old = do
    bytes ← with_handle c (Handle.get_item signed key (bytes_of size old))
    pure (word_at bytes)

  -- The end of `nvs_get_str_or_blob`, from the size on.
  unfoldable pub fetch : ℕ → ℕ → List ℕ → Option (List ℕ) → Option ℕ → ℕ → M (Api Dev) Fetched
  fetch h datatype key out none size =
      pure (record { code = some nvs_invalid_length; length = none; value = out })
  fetch h datatype key none (some length) size =
      pure (record { code = none; length = some size; value = none })
  fetch h datatype key (some buffer) (some length) size = elim (ltb length size) [
    | true ↦
        pure (record { code = some nvs_invalid_length; length = some size; value = some buffer })
    | false ↦ do
      r ← attempt (on_registry (Handle.get_typed_item datatype key (take size buffer) h))
      elim r [
        | done bytes ↦ pure (record { code = none; length = some size; value = some bytes })
        | failed e ↦ pure (record { code = some e; length = some size; value = none })
      ]
  ]

  -- `length` and `out_value` may be null.
  unfoldable pub nvs_get_str_or_blob :
      ℕ → ℕ → List ℕ → Option (List ℕ) → Option ℕ → M (Api Dev) Fetched
  nvs_get_str_or_blob c datatype key out length = do
    h ← find_ns_handle c
    size ← on_registry (Handle.get_item_size datatype key h)
    fetch h datatype key out length size

  abbrev nvs_get_str : ℕ → List ℕ → Option (List ℕ) → Option ℕ → M (Api Dev) Fetched
  nvs_get_str c key out length = nvs_get_str_or_blob c ItemType.sz key out length

  abbrev nvs_get_blob : ℕ → List ℕ → Option (List ℕ) → Option ℕ → M (Api Dev) Fetched
  nvs_get_blob c key out length = nvs_get_str_or_blob c ItemType.blob key out length
