-- ===== src/Storage/Indices.antt =====
-- src/nvs_storage.cpp: the index that `createOrOpenNamespace` gives a new namespace.
use mathlib.Core.Path.{subst}
use sming_nvs.Prelude.{
  sym, ap, ◌∙◌, ℕ, zero, suc, ◌+◌, ◌≡◌, ◌≤◌, ◌<◌, refl, arith, Bool, true, false, not, Option, none,
  some, List, [], ◌∷◌, ok, no_mem, nvs_not_initialized, nvs_not_found, nvs_not_enough_space, pure,
  fail, raise_if, ◌>>=◌, ◌>>◌, take,
}
use sming_nvs.EnumTable
use sming_nvs.Item.ItemType
use sming_nvs.Storage.State.{usage_shape}
use sming_nvs.Platform.{Platform}
use sming_nvs.Storage.State.{Storage, request_memory}
use sming_nvs.Storage.Blobs.{is_active, need_active}
use sming_nvs.Storage.Items.{write_item}
use sming_nvs.Storage.Namespaces.{
  next_free, free_index, find_namespace, use_index, add_namespace, create_or_open_namespace,
}
use sming_nvs.Prelude.Returns.{Gives, then-Gives, pure-Gives, after-Gives, next-Gives}

-- An index whose bit in the usage table is clear.
abbrev pub IsUnused : List ℕ → ℕ → Type 0
IsUnused usage i = EnumTable.get usage_shape i usage ≡ some 0

next_free-found :
    (usage : List ℕ) (n first i : ℕ)
    → next_free usage n first ≡ some i
    → (first ≤ i) × (i < first + n) × IsUnused usage i
unfolding next_free
next_free-found usage zero first i e = absurd (ground (arith, e))
next_free-found usage (suc n) first i e = ground (arith, e, next_free-found usage n (first + 1) i)

next_free-first :
    (usage : List ℕ) (n first i j : ℕ)
    → next_free usage n first ≡ some i
    → first ≤ j
    → j < i
    → IsUnused usage j
    → ⊥
unfolding next_free
next_free-first usage zero first i j e le lt u = absurd (ground (arith, e))
next_free-first usage (suc n) first i j e le lt u =
    ground (arith, e, le, lt, u, next_free-first usage n (first + 1) i j)

-- The lowest index from 1 to 254 that is not in use.
pub record IsLowest (usage : List ℕ) (i : ℕ) : Type 0 where
  pub first : 1 ≤ i
  pub last : i ≤ 254
  pub unused : IsUnused usage i
  pub lowest : (j : ℕ) → 1 ≤ j → j < i → ¬ (IsUnused usage j)

free_index-IsLowest : (usage : List ℕ) (i : ℕ) → free_index usage ≡ some i → IsLowest usage i
unfolding free_index
free_index-IsLowest usage i e =
    let found = next_free-found usage 254 1 i e in
    record {
      first = found.0;
      last = ground (arith, found.1);
      unused = found.2;
      lowest = λ j le lt. next_free-first usage 254 1 i j e le lt;
    }

module _ {Dev : Type 0} ⦃P : Platform Dev⦄ (name : List ℕ) where
  raised : {s : Storage Dev} (b : Bool) → Gives s (λ _ t. s ≡ t) (raise_if b nvs_not_initialized)
  raised true = record { apply = λ _ _ e. absurd (ground (arith, e)) }
  raised false = pure-Gives tt refl

  need_active-same : (s : Storage Dev) → Gives s (λ _ t. s ≡ t) need_active
  need_active-same s = record { apply = (raised (not (is_active s.state))).apply }

  new_namespace :
      (s t : Storage Dev) (o : Option ℕ)
      → free_index s.namespace_usage ≡ o
      → Gives t
          (λ i _. IsLowest s.namespace_usage i)
          (elim o [
            | none ↦ fail {A = ℕ} nvs_not_enough_space
            | some ns ↦ do
              granted ← request_memory
              raise_if (not granted) no_mem
              write_item 0 ItemType.u8 name (ns ∷ [])
              use_index ns
              add_namespace (take 15 name) ns
              pure ns
          ])
  new_namespace s t none e = record { apply = λ _ _ r. absurd (ground (arith, r)) }
  new_namespace s t (some ns) e = after-Gives request_memory (λ granted _.
      next-Gives (raise_if (not granted) no_mem) (λ _.
        next-Gives (write_item 0 ItemType.u8 name (ns ∷ [])) (λ _. next-Gives (use_index ns) (λ _.
          next-Gives (add_namespace (take 15 name) ns)
            (λ _. pure-Gives ns (free_index-IsLowest s.namespace_usage ns e))))))

  not_found :
      (can_create : Bool) (t : Storage Dev) (o : Option ℕ)
      → o ≡ none
      → Gives t
          (λ i _. IsLowest t.namespace_usage i)
          (elim o [
            | some index ↦ pure index
            | none ↦ do
              raise_if (not can_create) nvs_not_found
              elim (free_index t.namespace_usage) [
                | none ↦ fail nvs_not_enough_space
                | some ns ↦ do
                  granted ← request_memory
                  raise_if (not granted) no_mem
                  write_item 0 ItemType.u8 name (ns ∷ [])
                  use_index ns
                  add_namespace (take 15 name) ns
                  pure ns
              ]
          ])
  not_found can_create t (some index) e = absurd (ground (arith, e))
  not_found can_create t none e =
      next-Gives (raise_if (not can_create) nvs_not_found)
        (λ u. new_namespace t u (free_index t.namespace_usage) refl)

  -- Where `createOrOpenNamespace` returns an index for a name that no namespace has, the index is the
  -- lowest from 1 to 254 that was not in use before.
  pub create_or_open_namespace-IsLowest :
      (can_create : Bool) (s t : Storage Dev) (i : ℕ)
      → find_namespace name s.namespaces ≡ none
      → create_or_open_namespace name can_create s ≡ (ok i, t)
      → IsLowest s.namespace_usage i
  create_or_open_namespace-IsLowest can_create s t i missing returns =
      (then-Gives {s = s} {Post = λ i _. IsLowest s.namespace_usage i} need_active
          (need_active-same s)
          (λ u same. record {
            apply = λ j v e.
                subst (λ (x : Storage Dev). IsLowest x.namespace_usage j) (sym same)
                  ((not_found can_create u (find_namespace name u.namespaces) (
                      ap (λ (x : Storage Dev). find_namespace name x.namespaces) (sym same)
                      ∙ missing)).apply
                    j v e);
          })).apply
        i t returns
