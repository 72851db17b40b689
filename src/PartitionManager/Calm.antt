-- ===== src/PartitionManager/Calm.antt =====
-- src/nvs_partition_manager.cpp: the calls that leave the handles as they are.
use sming_nvs.Prelude.{
  ℕ, ◌≡◌, inl, inr, ◌&&◌, not, none, some, [], ◌∷◌, M, Void, Outcome, ok, err, abort, stuck, no_mem,
  or_abort, ◌==◌, Option-cases,
}
use sming_nvs.Prelude.Preserves.{
  Preserves, bind-Preserves, gets-Preserves, or_abort-Preserves, modify-Preserves,
  raise_if-Preserves, both-Preserves, bool-Preserves, abort-Preserves,
}
use sming_nvs.Platform.{Platform}
use sming_nvs.Storage.State.{Storage}
use sming_nvs.Storage.Namespaces.{init}
use sming_nvs.PartitionManager.{
  Registry, PartitionObject, Objects, handle_object, on_storage, storage_call, request_memory,
  answer, node_at, has_partition, lookup_storage,
}
use sming_nvs.PartitionManager.Requests.{
  settle, settle_new, init_again, init_new, init_custom, drop_partition,
}
use sming_nvs.PartitionManager.Sound.{Sound, on_storage-Sound, request_memory-Sound}
use sming_nvs.PartitionManager.Opening.{init_custom-Sound}

-- The objects stay what they are.
abbrev Same : {Dev : Type 0} → Objects → Registry Dev → Type 0
Same objects r = r.objects ≡ objects

module _ {Dev : Type 0} (objects : Objects) where
  on_storage-Same :
      {A : Type 0} (a : ℕ) (m : M (Storage Dev) A) → Preserves (Same objects) (on_storage a m)
  unfolding on_storage
  on_storage-Same a m = record {
    apply = λ r same.
        elim (node_at a r.storages) as (λ n. (storage_call a m r n).1.objects ≡ objects) [
          | none ↦ same
          | some n ↦ same
        ];
  }

  request_memory-Same : Preserves {S = Registry Dev} (Same objects) request_memory
  request_memory-Same = record {
    apply = λ r same. elim r.heap as (λ heap. (answer r heap).1.objects ≡ objects) [
      | [] ↦ same
      | granted ∷ rest ↦ same
    ];
  }

  settle-Same :
      (p : PartitionObject) (o : Outcome Void) (s : Storage Dev) (r : Registry Dev)
      → Same objects r
      → Same objects (settle p (o, s) r).1
  unfolding settle
  settle-Same p (ok u) s r same = same
  settle-Same p (err c) s r same = same
  settle-Same p abort s r same = same
  settle-Same p stuck s r same = same

-- The registry is sound, and the objects are what they were.
abbrev pub Calm : {Dev : Type 0} → Objects → Registry Dev → Type 0
Calm objects r = Sound r × Same objects r

module _ {Dev : Type 0} (objects : Objects) where
  handle_object-Same : (h : ℕ) → Preserves {S = Registry Dev} (Same objects) (handle_object h)
  unfolding handle_object
  handle_object-Same h = record {
    apply = λ r same. elim (r.objects h) as (λ o. Same objects (or_abort o r).1) [
      | none ↦ same
      | some o ↦ same
    ];
  }

  handle_object-Sound : (h : ℕ) → Preserves {S = Registry Dev} Sound (handle_object h)
  unfolding handle_object
  handle_object-Sound h = record {
    apply = λ r w. elim (r.objects h) as (λ o. Sound (or_abort o r).1) [ none ↦ w | some o ↦ w ];
  }

  pub handle_object-Calm : (h : ℕ) → Preserves {S = Registry Dev} (Calm objects) (handle_object h)
  handle_object-Calm h = both-Preserves (handle_object-Sound h) (handle_object-Same h)

  pub on_storage-Calm :
      {A : Type 0} (a : ℕ) (m : M (Storage Dev) A) → Preserves (Calm objects) (on_storage a m)
  on_storage-Calm a m = both-Preserves (on_storage-Sound a m) (on_storage-Same objects a m)

  pub request_memory-Calm : Preserves {S = Registry Dev} (Calm objects) request_memory
  request_memory-Calm = both-Preserves request_memory-Sound (request_memory-Same objects)

module _ {Dev : Type 0} ⦃P : Platform Dev⦄ (objects : Objects) where
  init_again-Same :
      (a : ℕ) (p : PartitionObject) (base count : ℕ)
      → Preserves {S = Registry Dev} (Same objects) (init_again a p base count)
  unfolding init_again
  init_again-Same a p base count = bind-Preserves (gets-Preserves (λ r. r)) (λ r.
      bind-Preserves (or_abort-Preserves (node_at a r.storages)) (λ node.
        bind-Preserves (modify-Preserves (drop_partition p) (λ r same. same)) (λ _.
          bool-Preserves
            (has_partition p.address r.partitions && p.address == node.partition.address)
            abort-Preserves (on_storage-Same objects a (init base count)))))

  settle_new-Same :
      (p : PartitionObject) (base count : ℕ)
      → Preserves {S = Registry Dev} (Same objects) (settle_new p base count)
  unfolding settle_new
  settle_new-Same p base count = record { apply = λ r same. settle-Same objects p _ _ r same }

  init_new-Same :
      (p : PartitionObject) (base count : ℕ)
      → Preserves {S = Registry Dev} (Same objects) (init_new p base count)
  unfolding init_new
  init_new-Same p base count = bind-Preserves (request_memory-Same objects) (λ granted.
      bind-Preserves (raise_if-Preserves (not granted) no_mem) (λ _. settle_new-Same p base count))

  pub init_custom-Calm :
      (p : PartitionObject) (base count : ℕ)
      → Preserves {S = Registry Dev} (Calm objects) (init_custom p base count)
  unfolding init_custom
  init_custom-Calm p base count = record {
    apply = λ r (w, same). (
      (init_custom-Sound p base count).apply r w,
      elim (Option-cases (lookup_storage p.name r.storages)) [
        | inl new ↦ rw (init_custom, new) ((init_new-Same p base count).apply r same)
        | inr (a, found) ↦ rw (init_custom, found) ((init_again-Same a p base count).apply r same)
      ],
    );
  }
