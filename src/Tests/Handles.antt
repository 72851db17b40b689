-- ===== src/Tests/Handles.antt =====
-- The theorems on handles on concrete inputs: a storage with one namespace and one open handle.
use sming_nvs.Prelude.{
  ℕ, ◌+◌, ◌≡◌, refl, inl, inr, arith, true, false, none, some, List, [], ◌∷◌, ok, err,
  nvs_invalid_handle, nvs_read_only, no_mem, replicate, Bool-cases, ◌==◌, M,
}
use sming_nvs.Storage.State.{Storage, storage_active}
use sming_nvs.PartitionManager.{
  Registry, HandleSimple, nvs_readonly, put_object, lookup_storage, strcmp_eq, node_at, put_node,
  on_storage, delete_handle, deinit_partition, detach, drop_storage,
}
use sming_nvs.PartitionManager.Requests.{push_handle, open_on, open_handle}
use sming_nvs.PartitionManager.Sound.{Sound}
use sming_nvs.PartitionManager.Deinit.{IsGone, deinit_partition-IsGone}
use sming_nvs.Handle.{do_erase_all, change}
use sming_nvs.Api.{
  Api, find_entry, find_ns_handle, push_entry, add_entry, nvs_open_from_partition,
  nvs_flash_deinit_partition, with_handle,
}
use sming_nvs.Api.Safety.{IsSafe}
use sming_nvs.Api.Calls.{call_close, after}
use sming_nvs.Api.Numbers.{
  Opened, nvs_open-number, nvs_open-read_only, nvs_flash_deinit_partition-closes,
}
use sming_nvs.Cxx.{HandleLocked, destroy, with_lock, open_nvs_handle_from_partition}
use sming_nvs.Cxx
use sming_nvs.Cxx.Opening.{
  Opens, open_nvs_handle_from_partition-Opens, open_nvs_handle_from_partition-destroy,
}
use sming_nvs.Tests.{platform, manager}

abbrev pub label : List ℕ
label = 110 ∷ 118 ∷ 115 ∷ []

abbrev pub name : List ℕ
name = 97 ∷ []

abbrev storage : Storage (List ℕ)
storage = record {
  manager = manager;
  namespaces = record { name = name; index = 1 } ∷ [];
  namespace_usage = 3 ∷ replicate 7 0;
  state = storage_active;
}

abbrev pub open_object : HandleSimple
open_object = record { storage_ptr = 5; ns_index = 1; read_only = false; valid = true }

abbrev pub registry : Registry (List ℕ)
registry = record {
  storages =
      record { address = 5; partition = record { address = 4; name = label }; storage = storage }
      ∷ [];
  handles = 7 ∷ [];
  partitions = [];
  objects = put_object 7 (some open_object) (λ _. none);
  next_address = 8;
  flash = λ _. [];
  heap = [];
}

abbrev pub api : Api (List ℕ)
api = record {
  registry = registry;
  entries = record { c_handle = 1; handle = 7; part_name = label } ∷ [];
  next_handle = 1;
}

only_object :
    (h : ℕ) (o : HandleSimple) → registry.objects h ≡ some o → (h ≡ 7) × (o.storage_ptr ≡ 5)
only_object h o e = elim (Bool-cases (h == 7)) [
  | inl same ↦ (ground (arith, same), ground (arith, e, same))
  | inr other ↦ absurd (ground (arith, e, other))
]

registry-Sound : Sound registry
unfolding node_at lookup_storage
registry-Sound = record {
  listed = λ h o e v. rw ((only_object h o e).0) refl;
  live = λ h o e v. rw ((only_object h o e).1) refl;
  fresh = λ h le. let other : (h == 7) ≡ false = ground (arith, le) in rw other refl;
  apart = (refl, refl, omega arith, tt);
}

api-IsSafe : IsSafe api
api-IsSafe = record { registry = registry-Sound; entries = (refl, refl, tt) }

abbrev closed : Api (List ℕ)
closed = after (call_close 9) api

abbrev reading : M (Api (List ℕ)) ℕ
reading = nvs_open_from_partition label name nvs_readonly

opened : (reading api).0 ≡ ok 2
unfolding nvs_open_from_partition open_handle lookup_storage strcmp_eq open_on on_storage node_at
    put_node push_handle add_entry push_entry
opened = refl

nvs_open-number_example :
    (2 ≡ 1 + 1)
    × (find_entry 2 api.entries ≡ none)
    × ((p : ℕ) × (lookup_storage label registry.storages ≡ some p)
        × Opened nvs_readonly p 2 (reading api).1)
nvs_open-number_example =
    nvs_open-number label name nvs_readonly api api-IsSafe (omega arith, tt) (omega arith) 2 opened

nvs_open-read_only_example :
    with_handle 2 (change do_erase_all) (reading api).1 ≡ (err nvs_read_only, (reading api).1)
nvs_open-read_only_example =
    nvs_open-read_only label name api api-IsSafe (omega arith, tt) (omega arith) 2 opened
      do_erase_all

nvs_flash_deinit_partition-closes_example :
    (find_ns_handle 1 (nvs_flash_deinit_partition name api).1).0 ≡ err nvs_invalid_handle
nvs_flash_deinit_partition-closes_example = nvs_flash_deinit_partition-closes name api api-IsSafe 1

gone : (deinit_partition label registry).0 ≡ ok tt
unfolding deinit_partition lookup_storage strcmp_eq detach drop_storage
gone = refl

deinit_partition-IsGone_example :
    (a : ℕ) × (lookup_storage label registry.storages ≡ some a)
    × IsGone a label (deinit_partition label registry).1
deinit_partition-IsGone_example = deinit_partition-IsGone label registry registry-Sound tt gone

-- There is memory for the handle, and none for its lock.
abbrev short_of_memory : Registry (List ℕ)
short_of_memory = record registry { heap = true ∷ false ∷ [] }

short_of_memory-Sound : Sound short_of_memory
short_of_memory-Sound = record {
  listed = registry-Sound.listed;
  live = registry-Sound.live;
  fresh = registry-Sound.fresh;
  apart = registry-Sound.apart;
}

abbrev without_lock : Registry (List ℕ)
without_lock =
    (open_nvs_handle_from_partition (some label) (some name) nvs_readonly short_of_memory).1

abbrev no_handle : Cxx.Opened
no_handle = record { locked = none; code = some no_mem }

opened_without_lock :
    open_nvs_handle_from_partition (some label) (some name) nvs_readonly short_of_memory
    ≡ (ok no_handle, without_lock)
unfolding open_nvs_handle_from_partition open_handle lookup_storage strcmp_eq open_on on_storage
    node_at put_node push_handle with_lock delete_handle
opened_without_lock = refl

open_nvs_handle_from_partition-Opens_example :
    Sound without_lock × Opens registry.objects nvs_readonly no_handle without_lock.objects
open_nvs_handle_from_partition-Opens_example =
    open_nvs_handle_from_partition-Opens (some label) (some name) nvs_readonly short_of_memory
      without_lock no_handle short_of_memory-Sound opened_without_lock

abbrev locked_handle : HandleLocked
locked_handle = record { handle = 8 }

abbrev one_handle : Cxx.Opened
one_handle = record { locked = some locked_handle; code = none }

abbrev with_handle_open : Registry (List ℕ)
with_handle_open = (open_nvs_handle_from_partition (some label) (some name) nvs_readonly registry).1

opened_with_lock :
    open_nvs_handle_from_partition (some label) (some name) nvs_readonly registry
    ≡ (ok one_handle, with_handle_open)
unfolding open_nvs_handle_from_partition open_handle lookup_storage strcmp_eq open_on on_storage
    node_at put_node push_handle with_lock
opened_with_lock = refl

open_nvs_handle_from_partition-destroy_example :
    ((destroy locked_handle with_handle_open).0 ≡ ok tt)
    × (Sound (destroy locked_handle with_handle_open).1
        × ((g : ℕ) → (destroy locked_handle with_handle_open).1.objects g ≡ registry.objects g))
open_nvs_handle_from_partition-destroy_example =
    open_nvs_handle_from_partition-destroy (some label) (some name) nvs_readonly registry
      with_handle_open one_handle locked_handle registry-Sound opened_with_lock refl
