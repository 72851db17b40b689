-- ===== src/Handle.antt =====
-- src/nvs_handle_simple.cpp and src/nvs_handle_simple.hpp: the operations of a handle, which check
-- that it is valid and may write and pass the call on to its storage; src/nvs_handle_locked.cpp,
-- which does the same with the lock held; and the templates of include/nvs_handle.hpp.
pub mod Checks
use sming_nvs.Prelude.{
  ℕ, ◌+◌, Bool, true, false, not, Option, none, some, List, [], ◌∷◌, ◌++◌, M, Void, Outcome, Esp,
  ok, err, nvs_invalid_handle, nvs_read_only, pure, raise_if, ◌>>=◌, ◌>>◌, if◌then◌else◌, length,
}
use sming_nvs.Item.ItemType
use sming_nvs.Platform.{Platform}
use sming_nvs.Page.Header.{Stats}
use sming_nvs.Storage.State.{Storage}
use sming_nvs.Storage.Items
use sming_nvs.Storage.Check.{erase_namespace, calc_entries_in_namespace}
use sming_nvs.Storage.Entries
use sming_nvs.PartitionManager.{Registry, HandleSimple, handle_object, on_storage}

-- `itemTypeOf<T>()`, of the signedness and the size.
abbrev pub item_type_of : Bool → ℕ → ℕ
item_type_of signed size = (if signed then 0x10 else 0) + size

-- The calls of a handle that change its storage.
pub data Change : Type 0 where
  do_set_typed_item : ℕ → List ℕ → List ℕ → Change
  do_set_string do_set_blob : List ℕ → List ℕ → Change
  do_erase_item : List ℕ → Change
  do_erase_all : Change

module _ {Dev : Type 0} where
  -- The calls that only read start with the same check.
  abbrev valid_object : ℕ → M (Registry Dev) HandleSimple
  valid_object h = do o ← handle_object h; raise_if (not o.valid) nvs_invalid_handle; pure o

module _ {Dev : Type 0} ⦃P : Platform Dev⦄ where
  pub set_typed_item : ℕ → List ℕ → List ℕ → ℕ → M (Registry Dev) Void
  set_typed_item datatype key bytes h = do
    o ← handle_object h
    raise_if (not o.valid) nvs_invalid_handle
    raise_if o.read_only nvs_read_only
    on_storage o.storage_ptr (Items.write_item o.ns_index datatype key bytes)

  -- A string goes with its terminator.
  pub set_string : List ℕ → List ℕ → ℕ → M (Registry Dev) Void
  set_string key str h = do
    o ← handle_object h
    raise_if (not o.valid) nvs_invalid_handle
    raise_if o.read_only nvs_read_only
    on_storage o.storage_ptr (Items.write_item o.ns_index ItemType.sz key (str ++ 0 ∷ []))

  pub set_blob : List ℕ → List ℕ → ℕ → M (Registry Dev) Void
  set_blob key blob h = do
    o ← handle_object h
    raise_if (not o.valid) nvs_invalid_handle
    raise_if o.read_only nvs_read_only
    on_storage o.storage_ptr (Items.write_item o.ns_index ItemType.blob key blob)

  pub erase_item : List ℕ → ℕ → M (Registry Dev) Void
  erase_item key h = do
    o ← handle_object h
    raise_if (not o.valid) nvs_invalid_handle
    raise_if o.read_only nvs_read_only
    on_storage o.storage_ptr (Items.erase_item o.ns_index ItemType.any key)

  pub erase_all : ℕ → M (Registry Dev) Void
  erase_all h = do
    o ← handle_object h
    raise_if (not o.valid) nvs_invalid_handle
    raise_if o.read_only nvs_read_only
    on_storage o.storage_ptr (erase_namespace o.ns_index)

  abbrev pub change : Change → ℕ → M (Registry Dev) Void
  change (do_set_typed_item datatype key bytes) = set_typed_item datatype key bytes
  change (do_set_string key str) = set_string key str
  change (do_set_blob key blob) = set_blob key blob
  change (do_erase_item key) = erase_item key
  change do_erase_all = erase_all

  -- `set_item` and `get_item` of an integer, whose bytes are given.
  abbrev pub set_item : Bool → List ℕ → List ℕ → ℕ → M (Registry Dev) Void
  set_item signed key bytes = set_typed_item (item_type_of signed (length bytes)) key bytes

  pub get_typed_item : ℕ → List ℕ → List ℕ → ℕ → M (Registry Dev) (List ℕ)
  get_typed_item datatype key buffer h = do
    o ← valid_object h
    on_storage o.storage_ptr (Items.read_item o.ns_index datatype key buffer)

  abbrev pub get_item : Bool → List ℕ → List ℕ → ℕ → M (Registry Dev) (List ℕ)
  get_item signed key buffer = get_typed_item (item_type_of signed (length buffer)) key buffer

  abbrev pub get_string : List ℕ → List ℕ → ℕ → M (Registry Dev) (List ℕ)
  get_string key buffer h = do
    o ← valid_object h
    on_storage o.storage_ptr (Items.read_item o.ns_index ItemType.sz key buffer)

  abbrev pub get_blob : List ℕ → List ℕ → ℕ → M (Registry Dev) (List ℕ)
  get_blob key buffer h = do
    o ← valid_object h
    on_storage o.storage_ptr (Items.read_item o.ns_index ItemType.blob key buffer)

  unfoldable pub get_item_size : ℕ → List ℕ → ℕ → M (Registry Dev) ℕ
  get_item_size datatype key h = do
    o ← valid_object h
    on_storage o.storage_ptr (Items.get_item_data_size o.ns_index datatype key)

  pub commit : ℕ → M (Registry Dev) Void
  commit h = do o ← valid_object h; pure tt

  pub get_used_entry_count : ℕ → M (Registry Dev) ℕ
  get_used_entry_count h = do
    o ← valid_object h
    on_storage o.storage_ptr (calc_entries_in_namespace o.ns_index)

  -- The four that check nothing.
  abbrev calc_entries : ℕ → M (Registry Dev) ℕ
  calc_entries h = do
    o ← handle_object h
    on_storage o.storage_ptr (calc_entries_in_namespace o.ns_index)

  abbrev fill_stats : Stats → ℕ → M (Registry Dev) (Outcome Void × Stats)
  fill_stats stats h = do
    o ← handle_object h
    on_storage o.storage_ptr (λ s. (ok (Entries.fill_stats s stats), s))

  abbrev find_entry :
      Option (List ℕ) → Entries.Iterator → ℕ → M (Registry Dev) (Bool × Entries.Iterator)
  find_entry name it h = do
    o ← handle_object h
    on_storage o.storage_ptr (Entries.find_entry name it)

  abbrev next_entry : Entries.Iterator → ℕ → M (Registry Dev) (Bool × Entries.Iterator)
  next_entry it h = do o ← handle_object h; on_storage o.storage_ptr (Entries.next_entry it)
