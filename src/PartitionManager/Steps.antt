-- ===== src/PartitionManager/Steps.antt =====
-- src/nvs_partition_manager.cpp: the calls that open, close and detach handles and that put storages
-- up and take them down, between sound states.
use sming_nvs.Prelude.{
  ℕ, ◌≡◌, ◌≢◌, refl, arith, true, false, Option, none, some, List, [], ◌∷◌, Void, ok, inl, inr,
  if◌then◌else◌, ◌==◌, Bool-cases, Option-cases,
}
use sming_nvs.Prelude.Preserves.{Preserves}
use sming_nvs.PageManager.{erase_node}
use sming_nvs.PartitionManager.{
  Registry, HandleSimple, is_listed, put_object, close_handle, delete_handle, detach, detach_one,
}
use sming_nvs.PartitionManager.Sound.{Sound}

is_listed-erase_node :
    (g h : ℕ) (hs : List ℕ) → (g == h) ≡ false → is_listed g (erase_node h hs) ≡ is_listed g hs
is_listed-erase_node g h [] e = refl
is_listed-erase_node g h (x ∷ hs) e = ground (arith, is_listed-erase_node g h hs)

erase_node-unlisted : (h : ℕ) (hs : List ℕ) → is_listed h hs ≡ false → erase_node h hs ≡ hs
erase_node-unlisted h [] e = refl
erase_node-unlisted h (x ∷ hs) e = ground (arith, erase_node-unlisted h hs)

-- A valid object behind a change of the object at `h` to one that is not valid.
other_object :
    (h : ℕ) (o : Option HandleSimple) (objects : ℕ → Option HandleSimple) (g : ℕ) (p : HandleSimple)
    → ((q : HandleSimple) → o ≡ some q → q.valid ≡ false)
    → put_object h o objects g ≡ some p
    → p.valid ≡ true
    → ((g == h) ≡ false) × (objects g ≡ some p)
other_object h o objects g p invalid e v = elim (Bool-cases (g == h)) [
  | inl same ↦ absurd (ground (arith, invalid p, same, e, v))
  | inr other ↦ ground (arith, other, e)
]

module _ {Dev : Type 0} where
  -- An object that becomes invalid or goes away, with its node off the list.
  Sound-invalid :
      (h : ℕ) (o : Option HandleSimple) (r : Registry Dev)
      → Sound r
      → r.objects h ≢ none
      → ((p : HandleSimple) → o ≡ some p → p.valid ≡ false)
      → Sound (record r { objects = put_object h o r.objects; handles = erase_node h r.handles })
  Sound-invalid h o r w there invalid = record {
    listed = λ g p e v.
        let (apart, same) = other_object h o r.objects g p invalid e v in
        rw (is_listed-erase_node g h r.handles apart) (w.listed g p same v);
    live = λ g p e v. w.live g p (other_object h o r.objects g p invalid e v).1 v;
    fresh = λ g le. ground (arith, w.fresh g le, w.fresh h, there);
    apart = w.apart;
  }

  closed-handles :
      (h : ℕ) (r : Registry Dev)
      → (close_handle h r).1 ≡ record r { handles = erase_node h r.handles }
  unfolding close_handle
  closed-handles h r = elim (Bool-cases (is_listed h r.handles)) [
    | inl here ↦ rw here refl
    | inr away ↦ rw (away, erase_node-unlisted h r.handles away) refl
  ]

  pub delete_handle-Sound : (h : ℕ) → Preserves {S = Registry Dev} Sound (delete_handle h)
  unfolding delete_handle
  delete_handle-Sound h = record {
    apply = λ r w. elim (Option-cases (r.objects h)) [
      | inl gone ↦ rw (delete_handle, gone) w
      | inr (o, there) ↦
          rw (delete_handle, there, closed-handles h r)
            (Sound-invalid h none r w (λ e. ground (arith, e, there))
              (λ p e. absurd (ground (arith, e))))
    ];
  }

  -- The object of a handle that is deleted is gone, and the others stay.
  pub delete_handle-deleted :
      (h : ℕ) (r : Registry Dev)
      → r.objects h ≢ none
      → ((delete_handle h r).0 ≡ ok tt)
        × ((delete_handle h r).1.objects ≡ put_object h none r.objects)
  unfolding delete_handle
  delete_handle-deleted h r there = elim (Option-cases (r.objects h)) [
    | inl gone ↦ absurd (there gone)
    | inr (o, here) ↦ rw (delete_handle, here, closed-handles h r) (refl, refl)
  ]

  detach_one-Sound :
      (a h : ℕ) (o : HandleSimple) (r : Registry Dev)
      → r.objects h ≡ some o
      → Sound r
      → Sound (detach_one a h o r)
  detach_one-Sound a h o r there w =
      elim (o.storage_ptr == a)
        as (λ b. Sound (
          if b
          then record r {
            objects = put_object h (some (record o { valid = false })) r.objects;
            handles = erase_node h r.handles;
          }
          else r)) [
            | true ↦
                Sound-invalid h _ r w (λ e. ground (arith, e, there)) (λ p e. ground (arith, e))
            | false ↦ w
          ]

  pub detach-Sound : (a : ℕ) (hs : List ℕ) (r : Registry Dev) → Sound r → Sound (detach a hs r).1
  unfolding detach
  detach-Sound a [] r w = w
  detach-Sound a (h ∷ hs) r w = elim (Option-cases (r.objects h)) [
    | inl gone ↦ rw (detach, gone) w
    | inr (o, there) ↦ rw (detach, there) (detach-Sound a hs _ (detach_one-Sound a h o r there w))
  ]

  -- The handles of a storage that the loop of `deinit_partition` has still to reach.
  abbrev pub Pending : ℕ → List ℕ → Registry Dev → Type 0
  Pending a hs r =
      (g : ℕ) (p : HandleSimple)
      → r.objects g ≡ some p
      → p.valid ≡ true
      → p.storage_ptr ≡ a
      → is_listed g hs ≡ true

  detach_one-Pending :
      (a h : ℕ) (hs : List ℕ) (o : HandleSimple) (r : Registry Dev)
      → r.objects h ≡ some o
      → Pending a (h ∷ hs) r
      → Pending a hs (detach_one a h o r)
  detach_one-Pending a h hs o r there pending g p e v s = elim (Bool-cases (g == h)) [
    | inl here ↦ absurd (ground (arith, e, v, s, here, there))
    | inr away ↦ ground (arith, pending g p, e, v, s, away)
  ]

  pub detach-Pending :
      (a : ℕ) (hs : List ℕ) (r : Registry Dev)
      → Pending a hs r
      → (u : Void) → (detach a hs r).0 ≡ ok u
      → Pending a [] (detach a hs r).1
  unfolding detach
  detach-Pending a [] r pending u e = pending
  detach-Pending a (h ∷ hs) r pending u e = elim (Option-cases (r.objects h)) [
    | inl gone ↦ absurd (ground (arith, e, gone))
    | inr (o, there) ↦
        rw (detach, there)
          (detach-Pending a hs _ (detach_one-Pending a h hs o r there pending) u
            (ground (arith, e, there)))
  ]

  pub detach-storages :
      (a : ℕ) (hs : List ℕ) (r : Registry Dev)
      → ((detach a hs r).1.storages ≡ r.storages)
        × ((detach a hs r).1.next_address ≡ r.next_address)
  unfolding detach
  detach-storages a [] r = (refl, refl)
  detach-storages a (h ∷ hs) r = elim (Option-cases (r.objects h)) [
    | inl gone ↦ ground (arith, gone)
    | inr (o, there) ↦ ground (arith, there, detach-storages a hs (detach_one a h o r))
  ]
