-- ===== src/Storage/Namespaces.antt =====
-- src/nvs_storage.cpp: `createOrOpenNamespace`, and `init`, which reads the namespaces and takes out
-- the chunks of blobs that have no index.
use sming_nvs.Prelude.{
  ℕ, zero, suc, ◌+◌, Bool, true, false, ◌&&◌, ◌||◌, not, Option, none, some, List, [], ◌∷◌, ◌++◌, M,
  Void, no_mem, nvs_not_found, nvs_not_enough_space, ok, err, abort, stuck, pure, fail, stuck_call,
  assert, raise_if, modify, try, ◌>>=◌, ◌>>◌, ltb, leb, ◌==◌, if◌then◌else◌, take, get_or,
  replicate,
}
use sming_nvs.EnumTable
use sming_nvs.Item.ItemType
use sming_nvs.Item.{Item, c_string, strncmp_eq, blob_chunk_count, blob_chunk_start, ver_any}
use sming_nvs.Platform.{Platform}
use sming_nvs.Page.State.{ns_any}
use sming_nvs.Page.Find.{Query, query, no_item}
use sming_nvs.Page.Find
use sming_nvs.PageManager.Load
use sming_nvs.Storage.State.{
  Storage, storage_active, storage_invalid, NamespaceEntry, BlobIndexNode, usage_shape, on_manager,
  gets_storage, at_page, page_list, request_memory,
}
use sming_nvs.Storage.Blobs.{need_active}
use sming_nvs.Storage.Check.{debug_check}
use sming_nvs.Storage.Items.{write_item}

-- `strncmp(nsName, e.mName, sizeof(e.mName) - 1) == 0`
abbrev pub find_namespace : List ℕ → List NamespaceEntry → Option ℕ
find_namespace ns_name [] = none
find_namespace ns_name (e ∷ es) =
    if strncmp_eq 15 ns_name e.name then some e.index else find_namespace ns_name es

-- The loop over the `n` indices from `ns` on, to the first that is not used.
unfoldable pub next_free : List ℕ → ℕ → ℕ → Option ℕ
next_free usage zero ns = none
next_free usage (suc n) ns = elim (EnumTable.get usage_shape ns usage) [
  | some zero ↦ some ns
  | _ ↦ next_free usage n (ns + 1)
]

-- `for (ns = 1; ns < 255; ++ns)`, where `none` stands for the end of the loop.
unfoldable pub free_index : List ℕ → Option ℕ
free_index usage = next_free usage 254 1

-- Whether a chunk belongs to one of the indices.
abbrev has_index : Item → List BlobIndexNode → Bool
has_index item [] = false
has_index item (e ∷ es) =
    strncmp_eq 15 item.key e.key
      && item.ns_index == e.ns_index
      && leb e.chunk_start item.chunk_index
      && ltb item.chunk_index (e.chunk_start + e.chunk_count)
    || has_index item es

module _ {Dev : Type 0} where
  -- `mNamespaceUsage.set(index, true)`
  abbrev pub use_index : ℕ → M (Storage Dev) Void
  use_index index s = elim (EnumTable.put usage_shape index 1 s.namespace_usage) [
    | none ↦ (abort, s)
    | some usage ↦ (ok tt, record s { namespace_usage = usage })
  ]

  abbrev pub add_namespace : List ℕ → ℕ → M (Storage Dev) Void
  add_namespace name index =
      modify
        (λ s. record s { namespaces = s.namespaces ++ record { name = name; index = index } ∷ [] })

module _ {Dev : Type 0} ⦃P : Platform Dev⦄ where
  abbrev pub create_or_open_namespace : List ℕ → Bool → M (Storage Dev) ℕ
  create_or_open_namespace ns_name can_create = do
    need_active
    s ← gets_storage (λ s. s)
    elim (find_namespace ns_name s.namespaces) [
      | some index ↦ pure index
      | none ↦ do
        raise_if (not can_create) nvs_not_found
        elim (free_index s.namespace_usage) [
          | none ↦ fail nvs_not_enough_space
          | some ns ↦ do
            granted ← request_memory
            raise_if (not granted) no_mem
            write_item 0 ItemType.u8 ns_name (ns ∷ [])
            use_index ns
            add_namespace (take 15 ns_name) ns
            pure ns
        ]
    ]

  -- `if (!entry) { mState = StorageState::INVALID; return ESP_ERR_NO_MEM; }`
  abbrev or_invalid_storage : {A : Type 0} → M (Storage Dev) A → M (Storage Dev) A
  or_invalid_storage m s =
      let (r, t) = m s in
      elim r [
        | ok a ↦ (ok a, t)
        | err e ↦ (err e, record t { state = storage_invalid })
        | abort ↦ (abort, t)
        | stuck ↦ (stuck, t)
      ]

  -- The namespaces on a page, from entry `index` on.
  abbrev load_namespaces : ℕ → ℕ → ℕ → Item → M (Storage Dev) Void
  load_namespaces page zero index item = stuck_call
  load_namespaces page (suc fuel) index item = do
    r ← at_page page (Find.find_item (query 0 ItemType.u8 none) index item)
    elim r.code [
      | some _ ↦ pure tt
      | none ↦ do
        granted ← request_memory
        or_invalid_storage (raise_if (not granted) no_mem)
        assert (r.item.datatype == ItemType.u8)
        add_namespace (c_string (take 15 r.item.key)) (get_or r.item.payload 0 0)
        use_index (get_or r.item.payload 0 0)
        load_namespaces page fuel (r.index + r.item.span) r.item
    ]

  abbrev load_all_namespaces : List ℕ → M (Storage Dev) Void
  load_all_namespaces [] = pure tt
  load_all_namespaces (i ∷ is) = do load_namespaces i 127 0 no_item; load_all_namespaces is

  -- `populateBlobIndices` on a page, from entry `index` on.
  abbrev populate_page :
      ℕ → ℕ → ℕ → Item → List BlobIndexNode → M (Storage Dev) (List BlobIndexNode)
  populate_page page zero index item found = stuck_call
  populate_page page (suc fuel) index item found = do
    r ← at_page page (Find.find_item (query ns_any ItemType.blob_idx none) index item)
    elim r.code [
      | some _ ↦ pure found
      | none ↦ do
        granted ← request_memory
        raise_if (not granted) no_mem
        let node : BlobIndexNode = record {
          key = c_string (take 15 r.item.key);
          ns_index = r.item.ns_index;
          chunk_count = blob_chunk_count r.item;
          chunk_start = blob_chunk_start r.item;
        }
        populate_page page fuel (r.index + r.item.span) r.item (found ++ node ∷ [])
    ]

  abbrev populate_blob_indices : List ℕ → List BlobIndexNode → M (Storage Dev) (List BlobIndexNode)
  populate_blob_indices [] found = pure found
  populate_blob_indices (i ∷ is) found = do
    more ← populate_page i 127 0 no_item found
    populate_blob_indices is more

  -- `eraseOrphanDataBlobs` on a page, from entry `index` on.
  abbrev erase_orphans_on : ℕ → ℕ → ℕ → Item → List BlobIndexNode → M (Storage Dev) Void
  erase_orphans_on page zero index item indices = stuck_call
  erase_orphans_on page (suc fuel) index item indices = do
    r ← at_page page (Find.find_item (query ns_any ItemType.blob_data none) index item)
    elim r.code [
      | some _ ↦ pure tt
      | none ↦ do
        let q : Query = record {
          ns_index = r.item.ns_index;
          datatype = r.item.datatype;
          key = some (c_string r.item.key);
          chunk_idx = r.item.chunk_index;
          chunk_start = ver_any;
        }
        rc ←
            (if has_index r.item indices then pure none else try (at_page page (Find.erase_item q)))
        erase_orphans_on page fuel (r.index + r.item.span) r.item indices
    ]

  abbrev erase_orphan_data_blobs : List BlobIndexNode → List ℕ → M (Storage Dev) Void
  erase_orphan_data_blobs indices [] = pure tt
  erase_orphan_data_blobs indices (i ∷ is) = do
    erase_orphans_on i 127 0 no_item indices
    erase_orphan_data_blobs indices is

  abbrev pub init : ℕ → ℕ → M (Storage Dev) Void
  init base_sector sector_count = do
    or_invalid_storage (on_manager (Load.load true base_sector sector_count))
    modify (λ s. record s { namespaces = []; namespace_usage = replicate 8 0 })
    load_all_namespaces (← page_list)
    use_index 0
    use_index 255
    modify (λ s. record s { state = storage_active })
    indices ← or_invalid_storage (populate_blob_indices (← page_list) [])
    erase_orphan_data_blobs indices (← page_list)
    debug_check
