-- ===== src/PartitionManager/Opened.antt =====
-- src/nvs_partition_manager.cpp: the handle that `open_handle` gives.
use mathlib.Core.Path.{subst}
use sming_nvs.PartitionManager.Sound.{Sound}
use sming_nvs.Prelude.Preserves.{Yields-ok}
use sming_nvs.Prelude.{
  ap, ◌∙◌, ℕ, ◌≡◌, refl, inl, inr, sym, arith, true, not, none, some, List, Outcome, ok, err, abort,
  stuck, Bool-cases, Option-cases,
}
use sming_nvs.Prelude.Preserves.{Yields, Result, bind-Yields, bool-Yields, abort-Yields}
use sming_nvs.Platform.{Platform}
use sming_nvs.Storage.Namespaces.{create_or_open_namespace}
use sming_nvs.PartitionManager.{
  Registry, HandleSimple, Objects, OpenMode, is_readonly, is_empty, lookup_storage, put_object,
}
use sming_nvs.PartitionManager.Requests.{push_handle, open_on, open_handle}
use sming_nvs.PartitionManager.Calm.{Calm, on_storage-Calm, request_memory-Calm}

-- A new object on top of the old ones: on the storage, valid, and read-only as asked.
abbrev IsOpened : {Dev : Type 0} → Objects → ℕ → OpenMode → ℕ → Registry Dev → Type 0
IsOpened objects a mode h r =
    (objects h ≡ none)
    × ((o : HandleSimple) × (r.objects ≡ put_object h (some o) objects)
        × (o.storage_ptr ≡ a)
        × (o.read_only ≡ is_readonly mode)
        × (o.valid ≡ true))

abbrev opened : ℕ → ℕ → OpenMode → HandleSimple
opened a ns_index mode = record {
  storage_ptr = a;
  ns_index = ns_index;
  read_only = is_readonly mode;
  valid = true;
}

module _ {Dev : Type 0} ⦃P : Platform Dev⦄ (objects : Objects) where
  push_handle-IsOpened :
      (a ns_index : ℕ) (mode : OpenMode)
      → Yields {S = Registry Dev}
          (Calm objects)
          (IsOpened objects a mode)
          (push_handle (opened a ns_index mode))
  unfolding push_handle Result
  push_handle-IsOpened a ns_index mode = record {
    apply = λ r (w, same). (
      rw (sym same) (w.fresh r.next_address (omega arith)),
      (opened a ns_index mode, rw same refl, refl, refl, refl),
    );
  }

  open_on-IsOpened :
      (a : ℕ) (ns_name : List ℕ) (mode : OpenMode)
      → Yields {S = Registry Dev} (Calm objects) (IsOpened objects a mode) (open_on a ns_name mode)
  unfolding open_on
  open_on-IsOpened a ns_name mode =
      bind-Yields
        (on_storage-Calm objects a (create_or_open_namespace ns_name (not (is_readonly mode))))
        (λ ns_index.
          bind-Yields (request_memory-Calm objects)
            (λ granted. bool-Yields granted (push_handle-IsOpened a ns_index mode) abort-Yields))

  abbrev pub SomeOpened : OpenMode → ℕ → Registry Dev → Type 0
  SomeOpened mode h r = (a : ℕ) × IsOpened objects a mode h r

  somewhere :
      (a : ℕ) (mode : OpenMode) (out : Outcome ℕ) (r : Registry Dev)
      → Result (Calm objects) (IsOpened objects a mode) out r
      → Result (Calm objects) (SomeOpened mode) out r
  unfolding Result
  somewhere a mode (ok h) r w = (a, w)
  somewhere a mode (err e) r w = w
  somewhere a mode abort r w = w
  somewhere a mode stuck r w = w

  -- `open_handle`: it leaves the handles as they are, or adds one.
  pub open_handle-SomeOpened :
      (part_name ns_name : List ℕ) (mode : OpenMode)
      → Yields {S = Registry Dev}
          (Calm objects)
          (SomeOpened mode)
          (open_handle part_name ns_name mode)
  unfolding open_handle Result
  open_handle-SomeOpened part_name ns_name mode = record {
    apply = λ r w. elim (Bool-cases (is_empty r.storages)) [
      | inl empty ↦ rw (open_handle, empty) w
      | inr not_empty ↦ elim (Option-cases (lookup_storage part_name r.storages)) [
        | inl missing ↦ rw (open_handle, not_empty, missing) w
        | inr (a, found) ↦
            rw (open_handle, not_empty, found)
              (somewhere a mode _ _ ((open_on-IsOpened a ns_name mode).apply r w))
      ]
    ];
  }

module _ {Dev : Type 0} ⦃P : Platform Dev⦄ where
  -- A handle that `open_handle` gives is on the storage of the partition.
  pub open_handle-IsOpened :
      (part_name ns_name : List ℕ) (mode : OpenMode) (r : Registry Dev) (h : ℕ)
      → Sound r
      → (open_handle part_name ns_name mode r).0 ≡ ok h
      → (a : ℕ) × (lookup_storage part_name r.storages ≡ some a)
        × IsOpened r.objects a mode h (open_handle part_name ns_name mode r).1
  unfolding open_handle
  open_handle-IsOpened part_name ns_name mode r h w e = elim (Bool-cases (is_empty r.storages)) [
    | inl empty ↦ absurd (ground (arith, e, empty))
    | inr not_empty ↦ elim (Option-cases (lookup_storage part_name r.storages)) [
      | inl missing ↦ absurd (ground (arith, e, not_empty, missing))
      | inr (a, found) ↦
          let same : open_on a ns_name mode r ≡ open_handle part_name ns_name mode r =
            rw (open_handle, not_empty, found) refl in
          (
            a,
            found,
            subst (λ (x : Outcome ℕ × Registry Dev). IsOpened r.objects a mode h x.1) same
                (Yields-ok (open_on-IsOpened r.objects a ns_name mode) r (w, refl) h
                  (ap (λ x. x.0) same ∙ e)),
          )
    ]
  ]
