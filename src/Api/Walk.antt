-- ===== src/Api/Walk.antt =====
-- src/nvs_api.cpp: the totals, and the iterator over the entries of a partition.
use sming_nvs.Prelude.{
  ℕ, Bool, true, false, Option, none, some, List, [], M, Void, Esp, Outcome, ok, err, abort, stuck,
  invalid_arg, nvs_not_initialized, nvs_invalid_state, pure, fail, abort_call, or_abort, attempt,
  done, failed, ◌>>=◌,
}
use sming_nvs.Platform.{Platform}
use sming_nvs.Page.Header.{Stats}
use sming_nvs.Storage.State.{storage_active, storage_invalid}
use sming_nvs.Storage.Entries.{Iterator, EntryInfo}
use sming_nvs.Storage.Entries
use sming_nvs.PartitionManager.{lookup_storage, node_at, on_storage, request_memory}
use sming_nvs.Handle
use sming_nvs.Api.{Api, ApiIterator, default_part_name, on_registry, gets_api, find_ns_handle}

abbrev no_stats : Stats
no_stats = record { used_entries = 0; free_entries = 0; total_entries = 0; namespace_count = 0 }

abbrev name_or_default : Option (List ℕ) → List ℕ
name_or_default none = default_part_name
name_or_default (some name) = name

abbrev nvs_entry_info : ApiIterator → EntryInfo
nvs_entry_info it = it.position.entry_info

-- How a method that fills a structure ends, with the structure.
abbrev Filled : Type 0
Filled = Option Esp × Stats

abbrev filled : {S : Type 0} → Outcome Void × Stats → M S Filled
filled (ok _, stats) s = (ok (none, stats), s)
filled (err e, stats) s = (ok (some e, stats), s)
filled (abort, stats) s = (abort, s)
filled (stuck, stats) s = (stuck, s)

-- `calloc` and what `create_iterator` fills in.
abbrev blank_iterator : ℕ → ℕ → ApiIterator
blank_iterator a datatype = record {
  storage = a;
  position = record {
    datatype = datatype;
    ns_index = 0;
    entry_index = 0;
    page = none;
    entry_info = record { namespace_name = []; key = []; datatype = 0 };
  };
}

module _ {Dev : Type 0} ⦃P : Platform Dev⦄ where
  -- `part_name` and `nvs_stats` may be null.
  nvs_get_stats : Option (List ℕ) → Option Stats → M (Api Dev) Filled
  nvs_get_stats part_name none = fail invalid_arg
  nvs_get_stats part_name (some stats) = do
    a ← gets_api (λ a. a)
    elim (lookup_storage (name_or_default part_name) a.registry.storages) [
      | none ↦ pure (some nvs_not_initialized, no_stats)
      | some p ↦ do
        node ← or_abort (node_at p a.registry.storages)
        elim node.storage.state [
          | storage_invalid ↦ pure (some nvs_invalid_state, no_stats)
          | storage_active ↦ filled (Entries.fill_stats node.storage no_stats)
        ]
    ]

  -- `*used_entries`, where the pointer is not null, and the code.
  unfoldable pub nvs_get_used_entry_count : Bool → ℕ → M (Api Dev) (Option Esp × ℕ)
  nvs_get_used_entry_count given c = elim given [
    | false ↦ fail invalid_arg
    | true ↦ do
      h ← attempt (find_ns_handle c)
      elim h [
        | failed e ↦ pure (some e, 0)
        | done h ↦ do
          n ← attempt (on_registry (Handle.get_used_entry_count h))
          elim n [ done n ↦ pure (none, n) | failed e ↦ pure (some e, 0) ]
      ]
  ]

  -- `create_iterator`
  create_iterator : ℕ → ℕ → M (Api Dev) (Option ApiIterator)
  create_iterator a datatype = do
    granted ← on_registry request_memory
    elim granted [ true ↦ pure (some (blank_iterator a datatype)) | false ↦ pure none ]

  -- The iterator where there is an entry, and a null pointer where there is none.
  abbrev kept : ℕ → Bool × Iterator → M (Api Dev) (Option ApiIterator)
  kept a (found, position) = elim found [
    | false ↦ pure none
    | true ↦ pure (some (record { storage = a; position = position }))
  ]

  nvs_entry_find : List ℕ → Option (List ℕ) → ℕ → M (Api Dev) (Option ApiIterator)
  nvs_entry_find part_name namespace_name datatype = do
    a ← gets_api (λ a. a)
    elim (lookup_storage part_name a.registry.storages) [
      | none ↦ pure none
      | some p ↦ do
        it ← create_iterator p datatype
        elim it [
          | none ↦ pure none
          | some it ↦ do
            r ← on_registry (on_storage p (Entries.find_entry namespace_name it.position))
            kept p r
        ]
    ]

  -- `assert(it)`: a null iterator ends the program.
  nvs_entry_next : Option ApiIterator → M (Api Dev) (Option ApiIterator)
  nvs_entry_next none = abort_call
  nvs_entry_next (some it) = do
    r ← on_registry (on_storage it.storage (Entries.next_entry it.position))
    kept it.storage r
