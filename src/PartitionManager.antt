-- ===== src/PartitionManager.antt =====
-- src/nvs_partition_manager.hpp and src/nvs_partition_manager.cpp: the storages, the partitions and
-- the open handles. A pointer is a number: storages and handles get fresh ones. An intrusive list is a
-- list of such nodes. The storages have one allocator, whose answers are `heap`. The read of a
-- pointer to an object that is not there ends the program.
pub mod Requests
pub mod Sound
pub mod Steps
pub mod Deinit
pub mod Opening
pub mod Calm
pub mod Opened
use sming_nvs.Prelude.{
  ℕ, ◌+◌, Bool, true, false, ◌&&◌, not, Option, none, some, List, [], ◌∷◌, ◌++◌, M, Void, Outcome,
  no_mem, nvs_not_initialized, nvs_part_not_found, nvs_invalid_handle, ok, err, abort, stuck, pure,
  fail, abort_call, raise_if, gets, modify, or_abort, ◌>>=◌, ◌>>◌, ◌==◌, if◌then◌else◌, length,
}
use sming_nvs.PageManager.{Manager, erase_node}
use sming_nvs.Storage.State.{Storage, storage_invalid}

-- `nvs_open_mode_t`
pub data OpenMode : Type 0 where
  nvs_readonly nvs_readwrite : OpenMode

abbrev pub is_readonly : OpenMode → Bool
is_readonly nvs_readonly = true
is_readonly nvs_readwrite = false

-- A `Partition` object, with its name.
pub record PartitionObject : Type 0 where
  pub address : ℕ
  pub name : List ℕ

-- A `Storage` object of `nvs_storage_list`, with its `mPartition`.
pub record StorageNode (Dev : Type 0) : Type 0 where
  pub address : ℕ
  pub partition : PartitionObject
  pub storage : Storage Dev

-- `NVSHandleSimple`
pub record HandleSimple : Type 0 where
  pub storage_ptr : ℕ
  pub ns_index : ℕ
  pub read_only : Bool
  pub valid : Bool

abbrev pub Objects : Type 0
Objects = ℕ → Option HandleSimple

-- `NVSPartitionManager`, with the objects that handles point to, and what the flash holds under the
-- name of a partition while no storage is on it.
pub record Registry (Dev : Type 0) : Type 0 where
  pub storages : List (StorageNode Dev)
  pub handles : List ℕ
  pub partitions : List PartitionObject
  pub objects : Objects
  pub next_address : ℕ
  pub flash : List ℕ → Dev
  pub heap : List Bool

-- `strcmp(a, b) == 0`
unfoldable pub strcmp_eq : List ℕ → List ℕ → Bool
strcmp_eq [] [] = true
strcmp_eq [] (d ∷ b) = false
strcmp_eq (c ∷ a) [] = false
strcmp_eq (c ∷ a) (d ∷ b) = c == d && strcmp_eq a b

abbrev pub put_object : ℕ → Option HandleSimple → Objects → Objects
put_object h o objects g = if g == h then o else objects g

abbrev put_flash : {Dev : Type 0} → List ℕ → Dev → (List ℕ → Dev) → List ℕ → Dev
put_flash name dev flash other = if strcmp_eq other name then dev else flash other

abbrev pub has_partition : ℕ → List PartitionObject → Bool
has_partition a [] = false
has_partition a (p ∷ ps) = if a == p.address then true else has_partition a ps

-- `nvs_partition_list.erase(it)` where the object is `partition`, or has the label.
abbrev without_partition : ℕ → List PartitionObject → List PartitionObject
without_partition a [] = []
without_partition a (p ∷ ps) = if a == p.address then ps else p ∷ without_partition a ps

abbrev without_label : List ℕ → List PartitionObject → List PartitionObject
without_label label [] = []
without_label label (p ∷ ps) = if strcmp_eq p.name label then ps else p ∷ without_label label ps

abbrev is_listed : ℕ → List ℕ → Bool
is_listed h [] = false
is_listed h (g ∷ gs) = if h == g then true else is_listed h gs

module _ {Dev : Type 0} where
  -- `lookup_storage_from_name`
  unfoldable pub lookup_storage : List ℕ → List (StorageNode Dev) → Option ℕ
  lookup_storage name [] = none
  lookup_storage name (n ∷ ns) =
      if strcmp_eq n.partition.name name then some n.address else lookup_storage name ns

  unfoldable pub node_at : ℕ → List (StorageNode Dev) → Option (StorageNode Dev)
  node_at a [] = none
  node_at a (n ∷ ns) = if a == n.address then some n else node_at a ns

  unfoldable pub put_node : ℕ → Storage Dev → List (StorageNode Dev) → List (StorageNode Dev)
  put_node a s [] = []
  put_node a s (n ∷ ns) =
      if a == n.address then record n { storage = s } ∷ ns else n ∷ put_node a s ns

  -- `nvs_storage_list.erase(storage)`
  unfoldable pub erase_storage : ℕ → List (StorageNode Dev) → List (StorageNode Dev)
  erase_storage a [] = []
  erase_storage a (n ∷ ns) = if a == n.address then ns else n ∷ erase_storage a ns

  abbrev pub is_empty : List (StorageNode Dev) → Bool
  is_empty [] = true
  is_empty (n ∷ ns) = false

  abbrev gets_registry : {A : Type 0} → (Registry Dev → A) → M (Registry Dev) A
  gets_registry f r = (ok (f r), r)

  -- `new (std::nothrow)`
  abbrev answer : Registry Dev → List Bool → Outcome Bool × Registry Dev
  answer r [] = (ok true, r)
  answer r (granted ∷ rest) = (ok granted, record r { heap = rest })

  abbrev pub request_memory : M (Registry Dev) Bool
  request_memory r = answer r r.heap

  abbrev with_heap : List Bool → Storage Dev → Storage Dev
  with_heap heap s = record s { manager = record s.manager { heap = heap } }

  -- A method of the storage at an address, where one is there.
  abbrev storage_call :
      {A : Type 0}
      → ℕ
      → M (Storage Dev) A
      → Registry Dev
      → Option (StorageNode Dev)
      → Outcome A × Registry Dev
  storage_call a method r none = (abort, r)
  storage_call a method r (some n) =
      let (o, s) = method (with_heap r.heap n.storage) in
      (o, record r { storages = put_node a s r.storages; heap = s.manager.heap })

  unfoldable pub on_storage : {A : Type 0} → ℕ → M (Storage Dev) A → M (Registry Dev) A
  on_storage a method r = storage_call a method r (node_at a r.storages)

  unfoldable pub handle_object : ℕ → M (Registry Dev) HandleSimple
  handle_object h r = or_abort (r.objects h) r

  -- `close_handle`
  unfoldable pub close_handle : ℕ → M (Registry Dev) Void
  close_handle h r =
      if is_listed h r.handles
      then (ok tt, record r { handles = erase_node h r.handles })
      else (err nvs_invalid_handle, r)

  -- `delete handle`, whose destructor closes the handle.
  unfoldable pub delete_handle : ℕ → M (Registry Dev) Void
  delete_handle h r = elim (r.objects h) [
    | none ↦ (abort, r)
    | some _ ↦
        let closed = (close_handle h r).1 in
        (ok tt, record closed { objects = put_object h none closed.objects })
  ]

  abbrev open_handles_size : Registry Dev → ℕ
  open_handles_size r = length r.handles

  -- The body of the loop of `deinit_partition` over the open handles.
  abbrev detach_one : ℕ → ℕ → HandleSimple → Registry Dev → Registry Dev
  detach_one a h o r =
      if o.storage_ptr == a
      then record r {
        objects = put_object h (some (record o { valid = false })) r.objects;
        handles = erase_node h r.handles;
      }
      else r

  unfoldable pub detach : ℕ → List ℕ → M (Registry Dev) Void
  detach a [] r = (ok tt, r)
  detach a (h ∷ hs) r = elim (r.objects h) [
    | none ↦ (abort, r)
    | some o ↦ detach a hs (detach_one a h o r)
  ]

  -- `delete storage` and the end of `deinit_partition`.
  unfoldable pub drop_storage : ℕ → List ℕ → Registry Dev → Registry Dev
  drop_storage a label r = record r {
    storages = erase_storage a r.storages;
    partitions = without_label label r.partitions;
    flash = elim (node_at a r.storages) [
      | none ↦ r.flash
      | some n ↦ put_flash label n.storage.manager.dev r.flash
    ];
  }

  unfoldable pub deinit_partition : List ℕ → M (Registry Dev) Void
  deinit_partition label r = elim (lookup_storage label r.storages) [
    | none ↦ (err nvs_not_initialized, r)
    | some a ↦ (detach a r.handles >> modify (drop_storage a label)) r
  ]
