-- ===== src/PartitionManager/Opening.antt =====
-- src/nvs_partition_manager.cpp: `init_custom` and `open_handle` between sound states.
use sming_nvs.Prelude.{
  ℕ, ◌+◌, ◌≡◌, refl, arith, true, false, ◌&&◌, not, none, List, [], abort_call, ◌∷◌, ◌++◌, M, Void,
  Outcome, no_mem, ok, err, abort, stuck, inl, inr, ◌==◌, Bool-cases, Option-cases,
}
use sming_nvs.Prelude.Preserves.{
  Preserves, Carries, bind-Carries, bool-Carries, gets-Preserves, bind-Preserves, abort-Preserves,
  or_abort-Preserves, raise_if-Preserves, modify-Preserves, bool-Preserves,
}
use sming_nvs.Platform.{Platform}
use sming_nvs.Storage.State.{Storage}
use sming_nvs.Storage.Namespaces.{create_or_open_namespace, init}
use sming_nvs.PartitionManager.{
  Registry, StorageNode, HandleSimple, PartitionObject, OpenMode, strcmp_eq, lookup_storage,
  is_empty, is_readonly, has_partition, answer, node_at, is_listed, on_storage, request_memory,
}
use sming_nvs.PartitionManager.Requests.{
  drop_partition, settle, push_handle, init_again, settle_new, init_new, init_custom, open_on,
  open_handle,
}
use sming_nvs.PartitionManager.Deinit.{lookup-has_node}
use sming_nvs.PartitionManager.Sound.{
  Sound, Apart, has_node, on_storage-Sound, on_storage-has_node, request_memory-Sound,
  request_memory-has_node,
}

is_listed-append : (g : ℕ) (hs ks : List ℕ) → is_listed g hs ≡ true → is_listed g (hs ++ ks) ≡ true
is_listed-append g [] ks e = absurd (ground (arith, e))
is_listed-append g (x ∷ hs) ks e = ground (arith, is_listed-append g hs ks)

is_listed-last : (g : ℕ) (hs : List ℕ) → is_listed g (hs ++ g ∷ []) ≡ true
is_listed-last g [] = ground arith
is_listed-last g (x ∷ hs) = ground (arith, is_listed-last g hs)

strcmp_eq-sym : (a b : List ℕ) → strcmp_eq a b ≡ strcmp_eq b a
unfolding strcmp_eq
strcmp_eq-sym [] [] = refl
strcmp_eq-sym [] (d ∷ b) = refl
strcmp_eq-sym (c ∷ a) [] = refl
strcmp_eq-sym (c ∷ a) (d ∷ b) = ground (arith, strcmp_eq-sym a b)

module _ {Dev : Type 0} where
  has_node-append :
      (a : ℕ) (ns ms : List (StorageNode Dev)) → has_node a ns ≡ true → has_node a (ns ++ ms) ≡ true
  unfolding node_at
  has_node-append a [] ms e = absurd (ground (arith, e))
  has_node-append a (n ∷ ns) ms e = ground (arith, e, has_node-append a ns ms)

  lookup-append :
      (name : List ℕ) (n : StorageNode Dev) (ns : List (StorageNode Dev))
      → lookup_storage name ns ≡ none
      → strcmp_eq n.partition.name name ≡ false
      → lookup_storage name (ns ++ n ∷ []) ≡ none
  unfolding lookup_storage
  lookup-append name n [] e f = ground (arith, f)
  lookup-append name n (m ∷ ns) e f = ground (arith, e, lookup-append name n ns, f)

  node_at-append :
      (a : ℕ) (n : StorageNode Dev) (ns : List (StorageNode Dev))
      → node_at a ns ≡ none
      → (a == n.address) ≡ false
      → node_at a (ns ++ n ∷ []) ≡ none
  unfolding node_at
  node_at-append a n [] e f = ground (arith, f)
  node_at-append a n (m ∷ ns) e f = ground (arith, e, node_at-append a n ns, f)

  Apart-append :
      (next : ℕ) (n : StorageNode Dev) (ns : List (StorageNode Dev))
      → n.address ≡ next
      → lookup_storage n.partition.name ns ≡ none
      → Apart next ns
      → Apart (next + 1) (ns ++ n ∷ [])
  unfolding lookup_storage node_at
  Apart-append next n [] here new w = (refl, refl, omega (arith, here), tt)
  Apart-append next n (m ∷ ns) here new (names, addresses, below, rest) = (
    lookup-append m.partition.name n ns names
        (rw (strcmp_eq-sym n.partition.name m.partition.name) (ground (arith, new))),
    node_at-append m.address n ns addresses (ground (arith, here, below)),
    omega (arith, below),
    Apart-append next n ns here (ground (arith, new)) rest,
  )

  pub Apart-weaken : (next : ℕ) (ns : List (StorageNode Dev)) → Apart next ns → Apart (next + 1) ns
  Apart-weaken next [] w = tt
  Apart-weaken next (n ∷ ns) (names, addresses, below, rest) =
      (names, addresses, omega (arith, below), Apart-weaken next ns rest)

  settle-Sound :
      (p : PartitionObject) (o : Outcome Void) (s : Storage Dev) (r : Registry Dev)
      → lookup_storage p.name r.storages ≡ none
      → Sound r
      → Sound (settle p (o, s) r).1
  unfolding settle
  settle-Sound p (ok u) s r new w = record {
    listed = w.listed;
    live = λ h o e v. has_node-append o.storage_ptr r.storages _ (w.live h o e v);
    fresh = λ h le. w.fresh h (omega (arith, le));
    apart = Apart-append r.next_address _ r.storages refl new w.apart;
  }
  settle-Sound p (err c) s r new w = record {
    listed = w.listed;
    live = w.live;
    fresh = w.fresh;
    apart = w.apart;
  }
  settle-Sound p abort s r new w = w
  settle-Sound p stuck s r new w = w

  -- A fresh handle on a storage of the list.
  push_handle-Sound :
      (o : HandleSimple)
      → Carries {S = Registry Dev}
          (λ r. Sound r × (has_node o.storage_ptr r.storages ≡ true))
          Sound
          (push_handle o)
  unfolding push_handle
  push_handle-Sound o = record {
    apply = λ r (w, there). record {
      listed = λ g p e v. elim (Bool-cases (g == r.next_address)) [
        | inl new ↦ ground (arith, new, is_listed-last g r.handles)
        | inr old ↦ is_listed-append g r.handles _ (w.listed g p (ground (arith, e, old)) v)
      ];
      live = λ g p e v. elim (Bool-cases (g == r.next_address)) [
        | inl new ↦ ground (arith, e, new, there)
        | inr old ↦ w.live g p (ground (arith, e, old)) v
      ];
      fresh = λ g le. ground (arith, w.fresh g, le);
      apart = Apart-weaken r.next_address r.storages w.apart;
    };
  }

module _ {Dev : Type 0} ⦃P : Platform Dev⦄ where
  init_again-Sound :
      (a : ℕ) (p : PartitionObject) (base count : ℕ)
      → Preserves {S = Registry Dev} Sound (init_again a p base count)
  unfolding init_again
  init_again-Sound a p base count = bind-Preserves (gets-Preserves (λ r. r)) (λ r.
      bind-Preserves (or_abort-Preserves (node_at a r.storages)) (λ node.
        bind-Preserves
          (modify-Preserves (drop_partition p)
            (λ r w. record { listed = w.listed; live = w.live; fresh = w.fresh; apart = w.apart }))
          (λ _.
            bool-Preserves
              (has_partition p.address r.partitions && p.address == node.partition.address)
              abort-Preserves (on_storage-Sound a (init base count)))))

  -- There is no storage of the name yet.
  IsNew : List ℕ → Registry Dev → Type 0
  IsNew name r = Sound r × (lookup_storage name r.storages ≡ none)

  settle_new-Sound :
      (p : PartitionObject) (base count : ℕ)
      → Carries {S = Registry Dev} (IsNew p.name) Sound (settle_new p base count)
  unfolding settle_new IsNew
  settle_new-Sound p base count = record { apply = λ r (w, new). settle-Sound p _ _ r new w }

  request_memory-IsNew : (name : List ℕ) → Preserves {S = Registry Dev} (IsNew name) request_memory
  unfolding IsNew
  request_memory-IsNew name = record {
    apply = λ r (w, new). (
      request_memory-Sound.apply r w,
      elim r.heap as (λ heap. lookup_storage name (answer r heap).1.storages ≡ none) [
        | [] ↦ new
        | granted ∷ rest ↦ new
      ],
    );
  }

  init_new-Sound :
      (p : PartitionObject) (base count : ℕ)
      → Carries {S = Registry Dev} (IsNew p.name) Sound (init_new p base count)
  unfolding init_new IsNew
  init_new-Sound p base count =
      bind-Carries (request_memory-IsNew p.name) (λ r (w, new). w)
        (λ granted.
          bind-Carries (raise_if-Preserves (not granted) no_mem) (λ r (w, new). w)
            (λ _. settle_new-Sound p base count))

  pub init_custom-Sound :
      (p : PartitionObject) (base count : ℕ)
      → Preserves {S = Registry Dev} Sound (init_custom p base count)
  unfolding init_custom IsNew
  init_custom-Sound p base count = record {
    apply = λ r w. elim (Option-cases (lookup_storage p.name r.storages)) [
      | inl new ↦ rw (init_custom, new) ((init_new-Sound p base count).apply r (w, new))
      | inr (a, found) ↦ rw (init_custom, found) ((init_again-Sound a p base count).apply r w)
    ];
  }

  -- There is a storage at the address.
  WithNode : ℕ → Registry Dev → Type 0
  WithNode a r = Sound r × (has_node a r.storages ≡ true)

  on_storage-WithNode :
      {A : Type 0} (a : ℕ) (m : M (Storage Dev) A)
      → Preserves {S = Registry Dev} (WithNode a) (on_storage a m)
  unfolding WithNode
  on_storage-WithNode a m = record {
    apply = λ r (w, there).
        ((on_storage-Sound a m).apply r w, (on_storage-has_node a a m).apply r there);
  }

  request_memory-WithNode : (a : ℕ) → Preserves {S = Registry Dev} (WithNode a) request_memory
  unfolding WithNode
  request_memory-WithNode a = record {
    apply =
        λ r (w, there). (request_memory-Sound.apply r w, (request_memory-has_node a).apply r there);
  }

  abort-Carries :
      {A : Type 0} (a : ℕ) → Carries {S = Registry Dev} (WithNode a) Sound (abort_call {A = A})
  unfolding WithNode
  abort-Carries a = record { apply = λ r (w, there). w }

  open_on-Sound :
      (a : ℕ) (ns_name : List ℕ) (mode : OpenMode)
      → Carries {S = Registry Dev} (WithNode a) Sound (open_on a ns_name mode)
  unfolding open_on WithNode
  open_on-Sound a ns_name mode =
      bind-Carries
        (on_storage-WithNode a (create_or_open_namespace ns_name (not (is_readonly mode))))
        (λ r (w, there). w)
        (λ ns_index.
          bind-Carries (request_memory-WithNode a) (λ r (w, there). w)
            (λ granted.
              bool-Carries granted
                (push_handle-Sound (record {
                  storage_ptr = a;
                  ns_index = ns_index;
                  read_only = is_readonly mode;
                  valid = true;
                }))
                (abort-Carries a)))

  pub open_handle-Sound :
      (part_name ns_name : List ℕ) (mode : OpenMode)
      → Preserves {S = Registry Dev} Sound (open_handle part_name ns_name mode)
  unfolding open_handle WithNode
  open_handle-Sound part_name ns_name mode = record {
    apply = λ r w. elim (Bool-cases (is_empty r.storages)) [
      | inl empty ↦ rw (open_handle, empty) w
      | inr some_there ↦ elim (Option-cases (lookup_storage part_name r.storages)) [
        | inl missing ↦ rw (open_handle, some_there, missing) w
        | inr (a, found) ↦
            rw (open_handle, some_there, found)
              ((open_on-Sound a ns_name mode).apply r
                (w, ground (arith, lookup-has_node part_name r.storages a found)))
      ]
    ];
  }
