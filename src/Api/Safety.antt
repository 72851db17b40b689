-- ===== src/Api/Safety.antt =====
-- src/nvs_api.cpp: what holds between the calls of the C interface, and that each call keeps it.
use mathlib.Core.Path.{subst}
use sming_nvs.Prelude.{
  ℕ, ◌≡◌, ◌≢◌, refl, inl, inr, arith, true, false, none, List, [], ◌∷◌, M, ok, Option-cases,
}
use sming_nvs.Prelude.Preserves.{Preserves, Carries, bind-ok, bind-Preserves}
use sming_nvs.PartitionManager.{Registry, Objects, put_object, deinit_partition, delete_handle}
use sming_nvs.PartitionManager.Sound.{Sound}
use sming_nvs.PartitionManager.Steps.{delete_handle-Sound, delete_handle-deleted}
use sming_nvs.PartitionManager.Deinit.{deinit_partition-Sound}
use sming_nvs.PartitionManager.Calm.{Calm}
use sming_nvs.Api.{
  Api, Entry, find_entry, erase_entry, on_registry, find_ns_handle, with_handle, free_nodes,
  nvs_flash_deinit_partition, nvs_close, push_entry,
}
use sming_nvs.Api.Owned.{
  Owned, owns, is_valid_at, Owned-put, Owned-erase, Owned-append, found-valid,
}

-- The registry is sound, and every number stands for a valid handle of its own.
pub record IsSafe {Dev : Type 0} (a : Api Dev) : Type 0 where
  pub registry : Sound a.registry
  pub entries : Owned a.registry.objects a.entries

valid-there : (objects : Objects) (h : ℕ) → is_valid_at objects h ≡ true → objects h ≢ none
valid-there objects h valid gone = ground (arith, valid, gone)

module _ {Dev : Type 0} where
  -- A call of the registry that leaves the handles as they are.
  pub Calm-IsSafe :
      {A : Type 0} (m : M (Registry Dev) A)
      → ((objects : Objects) → Preserves (Calm objects) m)
      → Preserves IsSafe (on_registry m)
  Calm-IsSafe m calm = record {
    apply = λ a w.
        let (sound, same) = (calm a.registry.objects).apply a.registry (w.registry, refl) in
        record { registry = sound; entries = rw same w.entries };
  }

  pub find_ns_handle-IsSafe : (c : ℕ) → Preserves {S = Api Dev} IsSafe (find_ns_handle c)
  unfolding find_ns_handle
  find_ns_handle-IsSafe c = record {
    apply = λ a w. elim (Option-cases (find_entry c a.entries)) [
      | inl missing ↦ rw (find_ns_handle, missing) w
      | inr (e, found) ↦ rw (find_ns_handle, found) w
    ];
  }

  pub with_handle-IsSafe :
      {A : Type 0} (c : ℕ) (f : ℕ → M (Registry Dev) A)
      → ((objects : Objects) (h : ℕ) → Preserves (Calm objects) (f h))
      → Preserves {S = Api Dev} IsSafe (with_handle c f)
  unfolding with_handle
  with_handle-IsSafe c f calm =
      bind-Preserves (find_ns_handle-IsSafe c) (λ h. Calm-IsSafe (f h) (λ objects. calm objects h))

  -- A handle goes away together with its number.
  pub deleted-IsSafe :
      (h : ℕ) (es : List Entry) (a : Api Dev)
      → Sound a.registry
      → is_valid_at a.registry.objects h ≡ true
      → Owned (put_object h none a.registry.objects) es
      → IsSafe (record a { registry = (delete_handle h a.registry).1; entries = es })
  deleted-IsSafe h es a sound valid owned = record {
    registry = (delete_handle-Sound h).apply a.registry sound;
    entries =
        rw ((delete_handle-deleted h a.registry (valid-there a.registry.objects h valid)).1) owned;
  }

  freed_one :
      (e : Entry) (es : List Entry) (a : Api Dev)
      → (delete_handle e.handle a.registry).0 ≡ ok tt
      → free_nodes (e ∷ es) a
        ≡ free_nodes es
            (record a { registry = (delete_handle e.handle a.registry).1; entries = es })
  unfolding free_nodes
  freed_one e es a deleted =
      bind-ok (on_registry (delete_handle e.handle)) (λ _. free_nodes es)
        (record a { entries = es }) tt deleted

  -- Freeing all the nodes never meets an object that is gone.
  pub free_nodes-freed :
      (es : List Entry) (a : Api Dev)
      → a.entries ≡ es
      → IsSafe a
      → ((free_nodes es a).0 ≡ ok tt)
        × IsSafe (free_nodes es a).1
        × ((free_nodes es a).1.entries ≡ [])
        × ((free_nodes es a).1.next_handle ≡ a.next_handle)
  unfolding free_nodes
  free_nodes-freed [] a e w = (refl, w, e, refl)
  free_nodes-freed (d ∷ es) a e w =
      let owned : Owned a.registry.objects (d ∷ es) =
        subst (λ ns. Owned a.registry.objects ns) e w.entries in
      rw
        (freed_one d es a
          (delete_handle-deleted d.handle a.registry
            (valid-there a.registry.objects d.handle owned.0)).0)
        (free_nodes-freed es _ refl (
          deleted-IsSafe d.handle es a w.registry owned.0
            (Owned-put d.handle none a.registry.objects es owned.1 owned.2)))

  pub nvs_close-IsSafe : (c : ℕ) → Preserves {S = Api Dev} IsSafe (nvs_close c)
  unfolding nvs_close
  nvs_close-IsSafe c = record {
    apply = λ a w. elim (Option-cases (find_entry c a.entries)) [
      | inl missing ↦ rw (nvs_close, missing) w
      | inr (e, found) ↦
          rw (nvs_close, found)
            (deleted-IsSafe e.handle (erase_entry c a.entries) a w.registry
              (found-valid c e a.registry.objects a.entries found w.entries)
              (Owned-erase c e a.registry.objects a.entries found w.entries))
    ];
  }

  pub nvs_flash_deinit_partition-IsSafe :
      (name : List ℕ) → Preserves {S = Api Dev} IsSafe (nvs_flash_deinit_partition name)
  unfolding nvs_flash_deinit_partition
  nvs_flash_deinit_partition-IsSafe name = record {
    apply = λ a w.
        let (returns, safe, none_left, _) = free_nodes-freed a.entries a refl w in
        rw (bind-ok (free_nodes a.entries) (λ _. on_registry (deinit_partition name)) a tt returns)
          (record {
            registry = (deinit_partition-Sound name).apply _ safe.registry;
            entries = rw none_left tt;
          });
  }

  pub push_entry-IsSafe :
      (h : ℕ) (name : List ℕ)
      → Carries {S = Api Dev}
          (λ a. IsSafe a × (is_valid_at a.registry.objects h ≡ true) × (owns h a.entries ≡ false))
          IsSafe
          (push_entry h name)
  unfolding push_entry
  push_entry-IsSafe h name = record {
    apply = λ a (w, valid, new). record {
      registry = w.registry;
      entries = Owned-append _ a.registry.objects a.entries valid new w.entries;
    };
  }
