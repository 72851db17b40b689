-- ===== src/PartitionManager/Requests.antt =====
-- src/nvs_partition_manager.cpp: `init_custom` and `open_handle`.
use sming_nvs.Prelude.{
  ℕ, ◌+◌, Bool, true, false, ◌&&◌, not, none, some, List, [], ◌∷◌, ◌++◌, M, Void, Outcome, no_mem,
  nvs_not_initialized, nvs_part_not_found, ok, err, abort, stuck, abort_call, raise_if, modify,
  or_abort, ◌>>=◌, ◌>>◌, ◌==◌,
}
use sming_nvs.Platform.{Platform}
use sming_nvs.Storage.State.{Storage, storage_invalid}
use sming_nvs.Storage.Namespaces.{create_or_open_namespace, init}
use sming_nvs.PartitionManager.{
  Registry, PartitionObject, HandleSimple, OpenMode, is_readonly, node_at, lookup_storage,
  request_memory, on_storage, put_object, gets_registry, has_partition, without_partition,
  put_flash, is_empty,
}

module _ {Dev : Type 0} where
  abbrev pub drop_partition : PartitionObject → Registry Dev → Registry Dev
  drop_partition p r = record r { partitions = without_partition p.address r.partitions }

  -- `Storage(partition)`
  abbrev new_storage : List Bool → Dev → Storage Dev
  new_storage heap dev = record {
    manager = record {
      pages = [];
      page_list = [];
      free_page_list = [];
      base_sector = 0;
      page_count = 0;
      seq_number = 0;
      heap = heap;
      dev = dev;
    };
    namespaces = [];
    namespace_usage = [];
    state = storage_invalid;
  }

  -- `nvs_storage_list.push_back(new_storage)`, or `delete new_storage`.
  unfoldable pub settle : PartitionObject → Outcome Void × Storage Dev → M (Registry Dev) Void
  settle p (o, s) r = elim o [
    | ok _ ↦ (
      ok tt,
      record r {
        storages =
            r.storages ++ record { address = r.next_address; partition = p; storage = s } ∷ [];
        next_address = r.next_address + 1;
        heap = s.manager.heap;
      },
    )
    | err e ↦
        (err e, record r { flash = put_flash p.name s.manager.dev r.flash; heap = s.manager.heap })
    | abort ↦ (abort, r)
    | stuck ↦ (stuck, r)
  ]

  -- `nvs_handles.push_back(*handle)`; the result is the handle.
  unfoldable pub push_handle : HandleSimple → M (Registry Dev) ℕ
  push_handle o r = (
    ok r.next_address,
    record r {
      handles = r.handles ++ r.next_address ∷ [];
      objects = put_object r.next_address (some o) r.objects;
      next_address = r.next_address + 1;
    },
  )

module _ {Dev : Type 0} ⦃P : Platform Dev⦄ where
  -- The branch of `init_custom` for a name that has a storage: a partition of the list is deleted,
  -- the one of the storage itself too, which `init` would then use.
  unfoldable pub init_again : ℕ → PartitionObject → ℕ → ℕ → M (Registry Dev) Void
  init_again a p base count = do
    r ← gets_registry (λ r. r)
    node ← or_abort (node_at a r.storages)
    modify (drop_partition p)
    elim (has_partition p.address r.partitions && p.address == node.partition.address) [
      | true ↦ abort_call
      | false ↦ on_storage a (init base count)
    ]

  -- `Storage(partition)` and its `init`.
  unfoldable pub settle_new : PartitionObject → ℕ → ℕ → M (Registry Dev) Void
  settle_new p base count r = settle p (init base count (new_storage r.heap (r.flash p.name))) r

  unfoldable pub init_new : PartitionObject → ℕ → ℕ → M (Registry Dev) Void
  init_new p base count = do
    granted ← request_memory
    raise_if (not granted) no_mem
    settle_new p base count

  unfoldable pub init_custom : PartitionObject → ℕ → ℕ → M (Registry Dev) Void
  init_custom p base count r = elim (lookup_storage p.name r.storages) [
    | some a ↦ init_again a p base count r
    | none ↦ init_new p base count r
  ]

  -- The end of `open_handle`. A handle for which there is no memory is a null node that is put into
  -- the list.
  unfoldable pub open_on : ℕ → List ℕ → OpenMode → M (Registry Dev) ℕ
  open_on a ns_name mode = do
    ns_index ← on_storage a (create_or_open_namespace ns_name (not (is_readonly mode)))
    granted ← request_memory
    elim granted [
      | false ↦ abort_call
      | true ↦ push_handle (record {
        storage_ptr = a;
        ns_index = ns_index;
        read_only = is_readonly mode;
        valid = true;
      })
    ]

  unfoldable pub open_handle : List ℕ → List ℕ → OpenMode → M (Registry Dev) ℕ
  open_handle part_name ns_name mode r = elim (is_empty r.storages) [
    | true ↦ (err nvs_not_initialized, r)
    | false ↦ elim (lookup_storage part_name r.storages) [
      | none ↦ (err nvs_part_not_found, r)
      | some a ↦ open_on a ns_name mode r
    ]
  ]
