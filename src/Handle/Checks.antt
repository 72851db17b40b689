-- ===== src/Handle/Checks.antt =====
-- src/nvs_handle_simple.cpp: the calls of a handle, the handles and the storages.
use sming_nvs.Prelude.{
  ℕ, ◌≡◌, arith, true, not, M, [], ◌∷◌, ◌++◌, raise_if, ◌>>=◌, ◌>>◌, some, List, Void, err,
  nvs_invalid_handle, nvs_read_only,
}
use sming_nvs.Prelude.Preserves.{Preserves, bind-Preserves, pure-Preserves, raise_if-Preserves}
use sming_nvs.Platform.{Platform}
use sming_nvs.PartitionManager.{Registry, HandleSimple, Objects, handle_object}
use sming_nvs.PartitionManager.Calm.{Calm, on_storage-Calm, handle_object-Calm}
use sming_nvs.Item.ItemType
use sming_nvs.Storage.Items
use sming_nvs.Storage.Check.{erase_namespace}
use sming_nvs.Handle.{
  Change, do_set_typed_item, do_set_string, do_set_blob, do_erase_item, do_erase_all,
  set_typed_item, set_string, set_blob, erase_item, erase_all, change, valid_object, get_typed_item,
  get_item_size, get_used_entry_count, commit,
}

module _ {Dev : Type 0} where
  valid_object-Calm :
      (objects : Objects) (h : ℕ) → Preserves {S = Registry Dev} (Calm objects) (valid_object h)
  valid_object-Calm objects h = bind-Preserves (handle_object-Calm objects h) (λ o.
      bind-Preserves (raise_if-Preserves (not o.valid) nvs_invalid_handle) (λ _. pure-Preserves o))

module _ {Dev : Type 0} ⦃P : Platform Dev⦄ (objects : Objects) where
  -- The start of each call that changes the storage.
  guarded-Calm :
      (h : ℕ) (ask : HandleSimple → M (Registry Dev) Void)
      → ((o : HandleSimple) → Preserves (Calm objects) (ask o))
      → Preserves {S = Registry Dev} (Calm objects) (do
        o ← handle_object h
        raise_if (not o.valid) nvs_invalid_handle
        raise_if o.read_only nvs_read_only
        ask o)
  guarded-Calm h ask calm = bind-Preserves (handle_object-Calm objects h) (λ o.
      bind-Preserves (raise_if-Preserves (not o.valid) nvs_invalid_handle)
        (λ _. bind-Preserves (raise_if-Preserves o.read_only nvs_read_only) (λ _. calm o)))

  pub change-Calm : (c : Change) (h : ℕ) → Preserves {S = Registry Dev} (Calm objects) (change c h)
  unfolding set_typed_item set_string set_blob erase_item erase_all
  change-Calm (do_set_typed_item datatype key bytes) h =
      guarded-Calm h _ (λ o.
        on_storage-Calm objects o.storage_ptr (Items.write_item o.ns_index datatype key bytes))
  change-Calm (do_set_string key str) h = guarded-Calm h _ (λ o.
      on_storage-Calm objects o.storage_ptr
        (Items.write_item o.ns_index ItemType.sz key (str ++ 0 ∷ [])))
  change-Calm (do_set_blob key blob) h = guarded-Calm h _ (λ o.
      on_storage-Calm objects o.storage_ptr (Items.write_item o.ns_index ItemType.blob key blob))
  change-Calm (do_erase_item key) h =
      guarded-Calm h _
        (λ o. on_storage-Calm objects o.storage_ptr (Items.erase_item o.ns_index ItemType.any key))
  change-Calm do_erase_all h =
      guarded-Calm h _ (λ o. on_storage-Calm objects o.storage_ptr (erase_namespace o.ns_index))

  pub get_typed_item-Calm :
      (datatype : ℕ) (key buffer : List ℕ) (h : ℕ)
      → Preserves {S = Registry Dev} (Calm objects) (get_typed_item datatype key buffer h)
  unfolding get_typed_item
  get_typed_item-Calm datatype key buffer h =
      bind-Preserves (valid_object-Calm objects h) (λ o. on_storage-Calm objects o.storage_ptr _)

  pub get_item_size-Calm :
      (datatype : ℕ) (key : List ℕ) (h : ℕ)
      → Preserves {S = Registry Dev} (Calm objects) (get_item_size datatype key h)
  unfolding get_item_size
  get_item_size-Calm datatype key h =
      bind-Preserves (valid_object-Calm objects h) (λ o. on_storage-Calm objects o.storage_ptr _)

  pub get_used_entry_count-Calm :
      (h : ℕ) → Preserves {S = Registry Dev} (Calm objects) (get_used_entry_count h)
  unfolding get_used_entry_count
  get_used_entry_count-Calm h =
      bind-Preserves (valid_object-Calm objects h) (λ o. on_storage-Calm objects o.storage_ptr _)

  pub commit-Calm : (h : ℕ) → Preserves {S = Registry Dev} (Calm objects) (commit h)
  unfolding commit
  commit-Calm h = bind-Preserves (valid_object-Calm objects h) (λ o. pure-Preserves tt)

module _ {Dev : Type 0} ⦃P : Platform Dev⦄ where
  pub change-read_only :
      (c : Change) (h : ℕ) (r : Registry Dev) (o : HandleSimple)
      → r.objects h ≡ some o
      → o.valid ≡ true
      → o.read_only ≡ true
      → change c h r ≡ (err nvs_read_only, r)
  unfolding set_typed_item set_string set_blob erase_item erase_all handle_object
  change-read_only (do_set_typed_item datatype key bytes) h r o there valid only =
      ground (arith, there, valid, only)
  change-read_only (do_set_string key str) h r o there valid only =
      ground (arith, there, valid, only)
  change-read_only (do_set_blob key blob) h r o there valid only =
      ground (arith, there, valid, only)
  change-read_only (do_erase_item key) h r o there valid only = ground (arith, there, valid, only)
  change-read_only do_erase_all h r o there valid only = ground (arith, there, valid, only)
