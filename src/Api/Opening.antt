-- ===== src/Api/Opening.antt =====
-- src/nvs_api.cpp: the calls that open a handle, set a partition up, or read, between safe states.
use sming_nvs.Prelude.{
  ℕ, ◌≡◌, refl, arith, true, false, not, Option, none, some, List, Outcome, ok, err, abort, stuck,
  no_mem, invalid_arg, fail, ◌==◌, ◌>>◌, ◌/◌,
}
use sming_nvs.Prelude.Preserves.{
  Preserves, Carries, Yields, Result, bind_state, bind-Preserves, Yields-Preserves, fail-Preserves,
  raise_if-Preserves, bind-Carries, bool-Carries,
}
use sming_nvs.Platform.{Platform}
use sming_nvs.Page.State.{sec_size}
use sming_nvs.PartitionManager.{
  Registry, Objects, HandleSimple, OpenMode, put_object, request_memory, delete_handle,
}
use sming_nvs.PartitionManager.Requests.{open_handle}
use sming_nvs.PartitionManager.Sound.{Sound}
use sming_nvs.PartitionManager.Opening.{open_handle-Sound, Apart-weaken}
use sming_nvs.PartitionManager.Calm.{Calm, request_memory-Calm, init_custom-Calm}
use sming_nvs.Api.{
  Api, EspPartition, on_registry, push_entry, nvs_flash_init_partition_ptr, init_new_partition,
  new_partition, nvs_open_from_partition, add_entry,
}
use sming_nvs.PartitionManager.Opened.{SomeOpened, open_handle-SomeOpened}
use sming_nvs.Api.Safety.{IsSafe, deleted-IsSafe, push_entry-IsSafe, Calm-IsSafe}
use sming_nvs.Api.Owned.{owns, is_valid_at, Owned-put, fresh-owns}

valid-new :
    (h : ℕ) (o : HandleSimple) (objects : Objects)
    → is_valid_at (put_object h (some o) objects) h ≡ o.valid
valid-new h o objects = let same : (h == h) ≡ true = ground arith in rw (is_valid_at, same) refl

module _ {Dev : Type 0} where
  -- A handle that no number owns yet.
  IsLoose : ℕ → Api Dev → Type 0
  IsLoose h a = IsSafe a × (is_valid_at a.registry.objects h ≡ true) × (owns h a.entries ≡ false)

  push_entry-IsLoose :
      (h : ℕ) (name : List ℕ) → Carries {S = Api Dev} (IsLoose h) IsSafe (push_entry h name)
  unfolding IsLoose
  push_entry-IsLoose h name = push_entry-IsSafe h name

  delete-IsLoose :
      (h : ℕ) → Carries {S = Api Dev} (IsLoose h) IsSafe (on_registry (delete_handle h))
  unfolding IsLoose
  delete-IsLoose h = record {
    apply = λ a (w, valid, away).
        deleted-IsSafe h a.entries a w.registry valid
          (Owned-put h none a.registry.objects a.entries away w.entries);
  }

  request_memory-IsLoose :
      (h : ℕ) → Preserves {S = Api Dev} (IsLoose h) (on_registry request_memory)
  unfolding IsLoose
  request_memory-IsLoose h = record {
    apply = λ a (w, valid, away).
        let (sound, same) =
          (request_memory-Calm a.registry.objects).apply a.registry (w.registry, refl) in
        (record { registry = sound; entries = rw same w.entries }, rw same valid, away);
  }

module _ {Dev : Type 0} ⦃P : Platform Dev⦄ where
  new_partition-Calm :
      (objects : Objects) (p : EspPartition)
      → Preserves {S = Registry Dev} (Calm objects) (new_partition p)
  new_partition-Calm objects p = record {
    apply = λ r (w, same). (
      record {
        listed = w.listed;
        live = w.live;
        fresh = λ h le. w.fresh h (omega (arith, le));
        apart = Apart-weaken r.next_address r.storages w.apart;
      },
      same,
    );
  }

  -- What `open_handle` leaves, as the registry of the interface.
  opened_outcome :
      (mode : OpenMode) (a : Api Dev) (out : Outcome ℕ) (r : Registry Dev)
      → IsSafe a
      → Sound r
      → Result (Calm a.registry.objects) (SomeOpened a.registry.objects mode) out r
      → Result IsSafe IsLoose out (record a { registry = r })
  unfolding Result IsLoose
  opened_outcome mode a (ok h) r w sound (_, (new, (o, objects, _, _, valid))) =
      let away = fresh-owns h a.registry.objects a.entries new w.entries in
      (
        record {
          registry = sound;
          entries = rw objects (Owned-put h (some o) a.registry.objects a.entries away w.entries);
        },
        rw (objects, valid-new h o a.registry.objects) valid,
        away,
      )
  opened_outcome mode a (err e) r w sound (_, same) = record {
    registry = sound;
    entries = rw same w.entries;
  }
  opened_outcome mode a abort r w sound (_, same) = record {
    registry = sound;
    entries = rw same w.entries;
  }
  opened_outcome mode a stuck r w sound (_, same) = record {
    registry = sound;
    entries = rw same w.entries;
  }

  opened-IsLoose :
      (part_name ns_name : List ℕ) (mode : OpenMode)
      → Yields {S = Api Dev} IsSafe IsLoose (on_registry (open_handle part_name ns_name mode))
  opened-IsLoose part_name ns_name mode = record {
    apply = λ a w.
        opened_outcome mode a _ _ w
          ((open_handle-Sound part_name ns_name mode).apply a.registry w.registry)
          ((open_handle-SomeOpened a.registry.objects part_name ns_name mode).apply a.registry
            (w.registry, refl));
  }

  drop-IsLoose :
      (h : ℕ)
      → Carries {S = Api Dev}
          (IsLoose h)
          IsSafe
          (on_registry (delete_handle h) >> fail {A = ℕ} no_mem)
  drop-IsLoose h = record {
    apply = λ a w.
        bind_state IsSafe (on_registry (delete_handle h) a).0 a (on_registry (delete_handle h) a).1
          (λ _. fail {A = ℕ} no_mem) ((delete-IsLoose h).apply a w)
          (λ _ _. (delete-IsLoose h).apply a w);
  }

  loose-IsSafe : (h : ℕ) (a : Api Dev) → IsLoose h a → IsSafe a
  unfolding IsLoose
  loose-IsSafe h a (w, _, _) = w

  pub nvs_open_from_partition-IsSafe :
      (part_name name : List ℕ) (mode : OpenMode)
      → Preserves {S = Api Dev} IsSafe (nvs_open_from_partition part_name name mode)
  unfolding nvs_open_from_partition add_entry
  nvs_open_from_partition-IsSafe part_name name mode =
      Yields-Preserves (opened-IsLoose part_name name mode) (λ h.
        bind-Carries (request_memory-IsLoose h) (loose-IsSafe h)
          (λ granted. bool-Carries granted (push_entry-IsLoose h part_name) (drop-IsLoose h)))

  new_partition-IsSafe :
      (p : EspPartition) → Preserves {S = Api Dev} IsSafe (nvs_flash_init_partition_ptr (some p))
  unfolding nvs_flash_init_partition_ptr
  new_partition-IsSafe p = Calm-IsSafe (init_new_partition p) (λ objects.
      bind-Preserves (request_memory-Calm objects) (λ granted.
        bind-Preserves (raise_if-Preserves (not granted) no_mem) (λ _.
          bind-Preserves (new_partition-Calm objects p)
            (λ part. init_custom-Calm objects part (p.address / sec_size) (p.size / sec_size)))))

  pub nvs_flash_init_partition_ptr-IsSafe :
      (p : Option EspPartition) → Preserves {S = Api Dev} IsSafe (nvs_flash_init_partition_ptr p)
  unfolding nvs_flash_init_partition_ptr
  nvs_flash_init_partition_ptr-IsSafe none = fail-Preserves invalid_arg
  nvs_flash_init_partition_ptr-IsSafe (some p) = new_partition-IsSafe p
