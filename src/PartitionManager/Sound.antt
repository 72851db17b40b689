-- ===== src/PartitionManager/Sound.antt =====
-- src/nvs_partition_manager.cpp: what holds of the storages and the handles between calls, and the
-- calls that only change a storage or what is not tied to one.
use sming_nvs.Prelude.{
  ℕ, ◌≤◌, ◌<◌, ◌≡◌, refl, arith, Bool, true, false, none, some, List, [], ◌∷◌, M, if◌then◌else◌,
  ◌==◌,
}
use sming_nvs.Storage.State.{Storage}
use sming_nvs.Prelude.Preserves.{Preserves}
use sming_nvs.PartitionManager.{
  Registry, StorageNode, HandleSimple, strcmp_eq, lookup_storage, node_at, put_node, storage_call,
  answer, request_memory, is_listed, on_storage,
}

abbrev pub has_node : {Dev : Type 0} → ℕ → List (StorageNode Dev) → Bool
has_node a ns = elim (node_at a ns) [ none ↦ false | some _ ↦ true ]

-- No two storages have one name, or one address; all addresses were given out.
abbrev pub Apart : {Dev : Type 0} → ℕ → List (StorageNode Dev) → Type 0
Apart next [] = Unit
Apart next (n ∷ ns) =
    (lookup_storage n.partition.name ns ≡ none)
    × (node_at n.address ns ≡ none)
    × (n.address < next)
    × Apart next ns

-- A valid handle is in the list of open handles, and its storage is in the list of storages.
pub record Sound {Dev : Type 0} (r : Registry Dev) : Type 0 where
  pub listed :
      (h : ℕ) (o : HandleSimple)
      → r.objects h ≡ some o
      → o.valid ≡ true
      → is_listed h r.handles ≡ true
  pub live :
      (h : ℕ) (o : HandleSimple)
      → r.objects h ≡ some o
      → o.valid ≡ true
      → has_node o.storage_ptr r.storages ≡ true
  pub fresh : (h : ℕ) → r.next_address ≤ h → r.objects h ≡ none
  pub apart : Apart r.next_address r.storages

strcmp_eq_refl : (a : List ℕ) → strcmp_eq a a ≡ true
unfolding strcmp_eq
strcmp_eq_refl [] = refl
strcmp_eq_refl (c ∷ a) = ground (arith, strcmp_eq_refl a)

pub eq_of_strcmp_eq : (a b : List ℕ) → strcmp_eq a b ≡ true → a ≡ b
unfolding strcmp_eq
eq_of_strcmp_eq [] [] h = refl
eq_of_strcmp_eq [] (d ∷ b) h = absurd (ground (arith, h))
eq_of_strcmp_eq (c ∷ a) [] h = absurd (ground (arith, h))
eq_of_strcmp_eq (c ∷ a) (d ∷ b) h = ground (arith, eq_of_strcmp_eq a b)

module _ {Dev : Type 0} where
  has_node-put_node :
      (a b : ℕ) (s : Storage Dev) (ns : List (StorageNode Dev))
      → has_node a (put_node b s ns) ≡ has_node a ns
  unfolding put_node node_at
  has_node-put_node a b s [] = refl
  has_node-put_node a b s (n ∷ ns) = ground (arith, has_node-put_node a b s ns)

  lookup_storage-put_node :
      (name : List ℕ) (b : ℕ) (s : Storage Dev) (ns : List (StorageNode Dev))
      → lookup_storage name (put_node b s ns) ≡ lookup_storage name ns
  unfolding put_node lookup_storage
  lookup_storage-put_node name b s [] = refl
  lookup_storage-put_node name b s (n ∷ ns) = ground (arith, lookup_storage-put_node name b s ns)

  none-put_node :
      (a b : ℕ) (s : Storage Dev) (ns : List (StorageNode Dev))
      → node_at a ns ≡ none
      → node_at a (put_node b s ns) ≡ none
  unfolding put_node node_at
  none-put_node a b s [] h = refl
  none-put_node a b s (n ∷ ns) h = ground (arith, none-put_node a b s ns)

  Apart-put_node :
      (next b : ℕ) (s : Storage Dev) (ns : List (StorageNode Dev))
      → Apart next ns
      → Apart next (put_node b s ns)
  unfolding put_node
  Apart-put_node next b s [] h = tt
  Apart-put_node next b s (n ∷ ns) (names, addresses, below, rest) =
      elim (b == n.address)
        as (λ x. Apart next (if x then record n { storage = s } ∷ ns else n ∷ put_node b s ns)) [
          | true ↦ (names, addresses, below, rest)
          | false ↦ (
            rw (lookup_storage-put_node n.partition.name b s ns) names,
            none-put_node n.address b s ns addresses,
            below,
            Apart-put_node next b s ns rest,
          )
        ]

  Sound-put_node :
      (a : ℕ) (s : Storage Dev) (heap : List Bool) (r : Registry Dev)
      → Sound r
      → Sound (record r { storages = put_node a s r.storages; heap = heap })
  Sound-put_node a s heap r w = record {
    listed = w.listed;
    live = λ h o e v. rw (has_node-put_node o.storage_ptr a s r.storages) (w.live h o e v);
    fresh = w.fresh;
    apart = Apart-put_node r.next_address a s r.storages w.apart;
  }

  -- A method of a storage, whatever it does, keeps the registry sound, and no storage goes away.
  pub on_storage-Sound :
      {A : Type 0} (a : ℕ) (m : M (Storage Dev) A) → Preserves Sound (on_storage a m)
  unfolding on_storage
  on_storage-Sound a m = record {
    apply = λ r w. elim (node_at a r.storages) as (λ n. Sound (storage_call a m r n).1) [
      | none ↦ w
      | some n ↦ Sound-put_node a _ _ r w
    ];
  }

  pub on_storage-has_node :
      {A : Type 0} (a b : ℕ) (m : M (Storage Dev) A)
      → Preserves (λ r. has_node b r.storages ≡ true) (on_storage a m)
  unfolding on_storage
  on_storage-has_node a b m = record {
    apply = λ r w.
        elim (node_at a r.storages) as (λ n. has_node b (storage_call a m r n).1.storages ≡ true) [
          | none ↦ w
          | some n ↦ rw (has_node-put_node b a _ r.storages) w
        ];
  }

  pub request_memory-Sound : Preserves {S = Registry Dev} Sound request_memory
  request_memory-Sound = record {
    apply = λ r w. elim r.heap as (λ heap. Sound (answer r heap).1) [
      | [] ↦ w
      | granted ∷ rest ↦ record {
        listed = w.listed;
        live = w.live;
        fresh = w.fresh;
        apart = w.apart;
      }
    ];
  }

  pub request_memory-has_node :
      (b : ℕ) → Preserves {S = Registry Dev} (λ r. has_node b r.storages ≡ true) request_memory
  request_memory-has_node b = record {
    apply = λ r w. elim r.heap as (λ heap. has_node b (answer r heap).1.storages ≡ true) [
      | [] ↦ w
      | granted ∷ rest ↦ w
    ];
  }
