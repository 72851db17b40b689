-- ===== src/PartitionManager/Deinit.antt =====
-- src/nvs_partition_manager.cpp: what `deinit_partition` leaves.
use sming_nvs.Prelude.{
  ℕ, ◌≡◌, ◌≢◌, refl, arith, true, false, none, some, List, [], ◌>>◌, modify, ◌∷◌, Void, Outcome, ok,
  err, abort, stuck, inl, inr, if◌then◌else◌, ◌==◌, Bool-cases, Option-cases,
}
use sming_nvs.Prelude.Preserves.{Preserves, bind_state}
use sming_nvs.PartitionManager.{
  Registry, StorageNode, HandleSimple, strcmp_eq, lookup_storage, node_at, erase_storage, detach,
  drop_storage, deinit_partition,
}
use sming_nvs.PartitionManager.Steps.{detach-Sound, Pending, detach-Pending, detach-storages}
use sming_nvs.PartitionManager.Sound.{Sound, Apart, has_node, eq_of_strcmp_eq}

module _ {Dev : Type 0} where
  node_at-erase :
      (a b : ℕ) (ns : List (StorageNode Dev))
      → b ≢ a
      → node_at b (erase_storage a ns) ≡ node_at b ns
  unfolding node_at erase_storage
  node_at-erase a b [] ne = refl
  node_at-erase a b (n ∷ ns) ne = ground (arith, node_at-erase a b ns)

  none-erase :
      (a b : ℕ) (ns : List (StorageNode Dev))
      → node_at b ns ≡ none
      → node_at b (erase_storage a ns) ≡ none
  unfolding node_at erase_storage
  none-erase a b [] e = refl
  none-erase a b (n ∷ ns) e = ground (arith, none-erase a b ns)

  lookup-erase :
      (a : ℕ) (name : List ℕ) (ns : List (StorageNode Dev))
      → lookup_storage name ns ≡ none
      → lookup_storage name (erase_storage a ns) ≡ none
  unfolding lookup_storage erase_storage
  lookup-erase a name [] e = refl
  lookup-erase a name (n ∷ ns) e = ground (arith, lookup-erase a name ns)

  Apart-erase :
      (next a : ℕ) (ns : List (StorageNode Dev)) → Apart next ns → Apart next (erase_storage a ns)
  unfolding erase_storage
  Apart-erase next a [] w = tt
  Apart-erase next a (n ∷ ns) (names, addresses, below, rest) =
      elim (a == n.address) as (λ x. Apart next (if x then ns else n ∷ erase_storage a ns)) [
        | true ↦ rest
        | false ↦ (
          lookup-erase a n.partition.name ns names,
          none-erase a n.address ns addresses,
          below,
          Apart-erase next a ns rest,
        )
      ]

  Sound-drop :
      (a : ℕ) (label : List ℕ) (r : Registry Dev)
      → Sound r
      → Pending a [] r
      → Sound (drop_storage a label r)
  unfolding drop_storage
  Sound-drop a label r w gone = record {
    listed = w.listed;
    live = λ h o e v.
        rw
          (
            has_node,
            node_at-erase a o.storage_ptr r.storages (λ s. absurd (ground (arith, gone h o e v s))),
          )
          (w.live h o e v);
    fresh = w.fresh;
    apart = Apart-erase r.next_address a r.storages w.apart;
  }

  listed-Pending : (a : ℕ) (r : Registry Dev) → Sound r → Pending a r.handles r
  listed-Pending a r w g p e v s = w.listed g p e v

  taken-Sound :
      (a : ℕ) (label : List ℕ) (r : Registry Dev)
      → Sound r
      → Sound ((detach a r.handles >> modify (drop_storage a label)) r).1
  taken-Sound a label r w =
      bind_state Sound (detach a r.handles r).0 r (detach a r.handles r).1
        (λ _. modify (drop_storage a label)) (detach-Sound a r.handles r w)
        (λ u e.
          Sound-drop a label _ (detach-Sound a r.handles r w)
            (detach-Pending a r.handles r (listed-Pending a r w) u e))

  pub deinit_partition-Sound :
      (label : List ℕ) → Preserves {S = Registry Dev} Sound (deinit_partition label)
  unfolding deinit_partition
  deinit_partition-Sound label = record {
    apply = λ r w. elim (Option-cases (lookup_storage label r.storages)) [
      | inl missing ↦ rw (deinit_partition, missing) w
      | inr (a, found) ↦ rw (deinit_partition, found) (taken-Sound a label r w)
    ];
  }

  pub lookup-has_node :
      (name : List ℕ) (ns : List (StorageNode Dev)) (a : ℕ)
      → lookup_storage name ns ≡ some a
      → node_at a ns ≢ none
  unfolding lookup_storage node_at
  lookup-has_node name [] a e = absurd (ground (arith, e))
  lookup-has_node name (n ∷ ns) a e = ground (arith, e, lookup-has_node name ns a)

  lookup-missing :
      (a : ℕ) (name : List ℕ) (next : ℕ) (ns : List (StorageNode Dev))
      → Apart next ns
      → lookup_storage name ns ≡ some a
      → (lookup_storage name (erase_storage a ns) ≡ none) × (node_at a (erase_storage a ns) ≡ none)
  unfolding lookup_storage erase_storage node_at
  lookup-missing a name next [] w e = absurd (ground (arith, e))
  lookup-missing a name next (n ∷ ns) (names, addresses, below, rest) e =
      elim (Bool-cases (strcmp_eq n.partition.name name)) [
        | inl same ↦
            ground (arith, eq_of_strcmp_eq n.partition.name name same, same, e, names, addresses)
        | inr other ↦
            let here : lookup_storage name ns ≡ some a = ground (arith, e, other) in
            ground (
              arith,
              lookup-missing a name next ns rest here,
              lookup-has_node name ns a here,
              other,
              addresses,
            )
      ]

  -- No storage has the name, and no handle of the storage is valid.
  abbrev pub IsGone : ℕ → List ℕ → Registry Dev → Type 0
  IsGone a label r =
      (lookup_storage label r.storages ≡ none)
      × ((h : ℕ) (o : HandleSimple) → r.objects h ≡ some o → o.storage_ptr ≡ a → o.valid ≡ false)

  outcome-IsGone :
      (a : ℕ) (label : List ℕ) (o : Outcome Void) (s t : Registry Dev)
      → Sound t
      → lookup_storage label t.storages ≡ some a
      → ((u : Void) → o ≡ ok u → Pending a [] t)
      → (u : Void) → (((λ (_ : Registry Dev). (o, t)) >> modify (drop_storage a label)) s).0 ≡ ok u
      → IsGone a label (((λ (_ : Registry Dev). (o, t)) >> modify (drop_storage a label)) s).1
  unfolding drop_storage
  outcome-IsGone a label (ok v) s t w found pending u e = (
    (lookup-missing a label t.next_address t.storages w.apart found).0,
    λ h o there same. elim (Bool-cases o.valid) [
      | inl valid ↦ absurd (ground (arith, pending v refl h o there valid same))
      | inr not_valid ↦ not_valid
    ],
  )
  outcome-IsGone a label (err c) s t w found pending u e = absurd (ground (arith, e))
  outcome-IsGone a label abort s t w found pending u e = absurd (ground (arith, e))
  outcome-IsGone a label stuck s t w found pending u e = absurd (ground (arith, e))

  taken-IsGone :
      (a : ℕ) (label : List ℕ) (r : Registry Dev)
      → Sound r
      → lookup_storage label r.storages ≡ some a
      → (u : Void) → ((detach a r.handles >> modify (drop_storage a label)) r).0 ≡ ok u
      → IsGone a label ((detach a r.handles >> modify (drop_storage a label)) r).1
  taken-IsGone a label r w found u e =
      outcome-IsGone a label (detach a r.handles r).0 r (detach a r.handles r).1
        (detach-Sound a r.handles r w) (rw ((detach-storages a r.handles r).0) found)
        (detach-Pending a r.handles r (listed-Pending a r w)) u e

  -- From a sound state, a `deinit_partition` that returns `ESP_OK` has found a storage of that name;
  -- afterwards there is none of that name, and no handle of the storage is valid.
  pub deinit_partition-IsGone :
      (label : List ℕ) (r : Registry Dev)
      → Sound r
      → (u : Void) → (deinit_partition label r).0 ≡ ok u
      → (a : ℕ) × (lookup_storage label r.storages ≡ some a)
        × IsGone a label (deinit_partition label r).1
  unfolding deinit_partition
  deinit_partition-IsGone label r w u e = elim (Option-cases (lookup_storage label r.storages)) [
    | inl missing ↦ absurd (ground (arith, e, missing))
    | inr (a, found) ↦ (
      a,
      found,
      rw (deinit_partition, found) (taken-IsGone a label r w found u (ground (arith, found, e))),
    )
  ]
