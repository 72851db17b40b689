-- ===== src/Api/Numbers.antt =====
-- src/nvs_api.cpp: the numbers of handles, from the call that gives one out to the calls that take it.
use mathlib.Core.Path.{subst}
use sming_nvs.Prelude.{
  ℕ, ◌+◌, ◌≤◌, ◌<◌, ◌≡◌, refl, sym, ap, ◌∙◌, arith, Bool, true, false, none, some, List, [], ◌∷◌,
  ◌++◌, M, ok, err, no_mem, nvs_invalid_handle, nvs_read_only, fail, ◌>>◌, ◌==◌, if◌then◌else◌, u32,
}
use sming_nvs.Prelude.Preserves.{bind-value, bind-ok, bind-returned}
use sming_nvs.Platform.{Platform}
use sming_nvs.PartitionManager.{
  lookup_storage, Registry, HandleSimple, Objects, OpenMode, nvs_readonly, is_readonly, put_object,
  request_memory, delete_handle, deinit_partition,
}
use sming_nvs.PartitionManager.Requests.{open_handle}
use sming_nvs.PartitionManager.Sound.{Sound}
use sming_nvs.PartitionManager.Calm.{request_memory-Calm}
use sming_nvs.PartitionManager.Opening.{open_handle-Sound}
use sming_nvs.PartitionManager.Opened.{open_handle-IsOpened}
use sming_nvs.Handle.{Change, change}
use sming_nvs.Handle.Checks.{change-read_only}
use sming_nvs.Api.{
  Api, Entry, find_entry, on_registry, find_ns_handle, with_handle, push_entry, free_nodes,
  nvs_flash_deinit_partition, nvs_open_from_partition, add_entry,
}
use sming_nvs.Api.Safety.{IsSafe, free_nodes-freed}

-- All numbers in use were given out.
abbrev Below : ℕ → List Entry → Type 0
Below next [] = Unit
Below next (e ∷ es) = (e.c_handle ≤ next) × Below next es

find-append :
    (c : ℕ) (e : Entry) (es : List Entry)
    → find_entry c (es ++ e ∷ []) ≡ (elim (find_entry c es) [
      | some d ↦ some d
      | none ↦ if e.c_handle == c then some e else none
    ])
unfolding find_entry
find-append c e [] = refl
find-append c e (d ∷ es) = ground (arith, find-append c e es)

find-above : (c next : ℕ) (es : List Entry) → Below next es → next < c → find_entry c es ≡ none
unfolding find_entry
find-above c next [] w above = refl
find-above c next (e ∷ es) (below, rest) above =
    ground (arith, below, above, find-above c next es rest)

-- The number stands for a valid handle on the storage, which is read-only exactly if that was asked
-- for.
abbrev pub Opened : {Dev : Type 0} → OpenMode → ℕ → ℕ → Api Dev → Type 0
Opened mode p c b =
    (e : Entry) × (o : HandleSimple) × (find_entry c b.entries ≡ some e)
    × (b.registry.objects e.handle ≡ some o)
    × (o.storage_ptr ≡ p)
    × (o.read_only ≡ is_readonly mode)
    × (o.valid ≡ true)

put-here :
    (h g : ℕ) (o : HandleSimple) (objects : Objects)
    → g ≡ h
    → put_object h (some o) objects g ≡ some o
put-here h g o objects e =
    let same : (g == h) ≡ true = ground (arith, e) in rw (put_object, same) refl

module _ {Dev : Type 0} where
  unknown :
      (c : ℕ) (a : Api Dev)
      → find_entry c a.entries ≡ none
      → find_ns_handle c a ≡ (err nvs_invalid_handle, a)
  unfolding find_ns_handle
  unknown c a e = rw (find_ns_handle, e) refl

  none_known :
      (c : ℕ) (a : Api Dev) → a.entries ≡ [] → (find_ns_handle c a).0 ≡ err nvs_invalid_handle
  unfolding find_ns_handle find_entry
  none_known c a e = ground (arith, e)

  known :
      (c : ℕ) (a : Api Dev) (e : Entry)
      → find_entry c a.entries ≡ some e
      → find_ns_handle c a ≡ (ok e.handle, a)
  unfolding find_ns_handle
  known c a e found = rw (find_ns_handle, found) refl

  -- `nvs_flash_deinit_partition`, of whatever partition and also where it returns an error, leaves
  -- no handle open: every number is refused afterwards.
  pub nvs_flash_deinit_partition-closes :
      (name : List ℕ) (a : Api Dev)
      → IsSafe a
      → (c : ℕ)
      → (find_ns_handle c (nvs_flash_deinit_partition name a).1).0 ≡ err nvs_invalid_handle
  unfolding nvs_flash_deinit_partition
  nvs_flash_deinit_partition-closes name a w c =
      let (returns, _, none_left, _) = free_nodes-freed a.entries a refl w in
      rw (bind-ok (free_nodes a.entries) (λ _. on_registry (deinit_partition name)) a tt returns)
        (none_known c _ none_left)

module _ {Dev : Type 0} ⦃P : Platform Dev⦄ where
  pushed-number :
      (h c : ℕ) (name : List ℕ) (b : Api Dev)
      → Below b.next_handle b.entries
      → b.next_handle + 1 < 0x1_0000_0000
      → (push_entry h name b).0 ≡ ok c
      → (c ≡ b.next_handle + 1)
        × (find_entry c b.entries ≡ none)
        × ((e : Entry) × (e.handle ≡ h) × (find_entry c (push_entry h name b).1.entries ≡ some e))
  unfolding push_entry
  pushed-number h c name b below room returned =
      let same : c ≡ u32 (b.next_handle + 1) = ground (arith, returned) in
      let number : c ≡ b.next_handle + 1 = omega (arith, same, room) in
      let missing : find_entry c b.entries ≡ none =
        find-above c b.next_handle b.entries below (omega (arith, number)) in
      let e : Entry = record { c_handle = u32 (b.next_handle + 1); handle = h; part_name = name } in
      let hit : (e.c_handle == c) ≡ true = ground (arith, same) in
      (number, missing, (e, refl, rw (find-append c e b.entries, missing, hit) refl))

  refused :
      (h : ℕ) (o : HandleSimple) (r : Registry Dev)
      → r.objects h ≡ some o
      → o.read_only ≡ true
      → o.valid ≡ true
      → (ch : Change) → change ch h r ≡ (err nvs_read_only, r)
  refused h o r there only valid ch = change-read_only ch h r o there valid only

  -- The number is the next one, and was not in use; it stands for the handle from now on.
  IsNumbered : ℕ → ℕ → Api Dev → Api Dev → Type 0
  IsNumbered h c a b =
      (c ≡ a.next_handle + 1)
      × (find_entry c a.entries ≡ none)
      × ((e : Entry) × (e.handle ≡ h) × (find_entry c b.entries ≡ some e))
      × (b.registry.objects ≡ a.registry.objects)

  granted-number :
      (granted : Bool) (h c : ℕ) (name : List ℕ) (a : Api Dev)
      → Below a.next_handle a.entries
      → a.next_handle + 1 < 0x1_0000_0000
      → let rest : M (Api Dev) ℕ = elim granted [
        | true ↦ push_entry h name
        | false ↦ on_registry (delete_handle h) >> fail no_mem
      ] in
        (rest a).0 ≡ ok c → IsNumbered h c a (rest a).1
  unfolding IsNumbered push_entry
  granted-number true h c name a below room returned =
      let (number, missing, found) = pushed-number h c name a below room returned in
      (number, missing, found, refl)
  granted-number false h c name a below room returned =
      let (u, _, same) =
        bind-returned (on_registry (delete_handle h)) (λ _. fail {A = ℕ} no_mem) a c returned in
      absurd (ground (arith, sym (ap (λ x. x.0) same) ∙ returned))

  add_entry-number :
      (h c : ℕ) (name : List ℕ) (a : Api Dev)
      → Sound a.registry
      → Below a.next_handle a.entries
      → a.next_handle + 1 < 0x1_0000_0000
      → (add_entry h name a).0 ≡ ok c
      → IsNumbered h c a (add_entry h name a).1
  unfolding IsNumbered add_entry
  add_entry-number h c name a w below room returned =
      let rest : Bool → M (Api Dev) ℕ = λ granted. elim granted [
        | true ↦ push_entry h name
        | false ↦ on_registry (delete_handle h) >> fail no_mem
      ] in
      let (granted, _, same) = bind-returned (on_registry request_memory) rest a c returned in
      let after = (on_registry request_memory a).1 in
      let kept = ((request_memory-Calm a.registry.objects).apply a.registry (w, refl)).1 in
      let (number, missing, found, objects) =
        granted-number granted h c name after below room (sym (ap (λ x. x.0) same) ∙ returned) in
      subst (λ x. IsNumbered h c a x.1) (sym same) (number, missing, found, objects ∙ kept)

  -- A call that opens a handle and returns, where the numbers in use are not above the last one given
  -- out and the next one still fits 32 bits, gives the next number, which was not in use; afterwards
  -- the number is known and stands for a valid handle on the storage of the partition, which is
  -- read-only exactly if it was opened so.
  pub nvs_open-number :
      (part_name name : List ℕ) (mode : OpenMode) (a : Api Dev)
      → IsSafe a
      → Below a.next_handle a.entries
      → a.next_handle + 1 < 0x1_0000_0000
      → (c : ℕ) → (nvs_open_from_partition part_name name mode a).0 ≡ ok c
      → (c ≡ a.next_handle + 1)
        × (find_entry c a.entries ≡ none)
        × ((p : ℕ) × (lookup_storage part_name a.registry.storages ≡ some p)
            × Opened mode p c (nvs_open_from_partition part_name name mode a).1)
  unfolding nvs_open_from_partition IsNumbered
  nvs_open-number part_name name mode a w below room c returned =
      let opening : M (Api Dev) ℕ = on_registry (open_handle part_name name mode) in
      let (h, opened, same) = bind-returned opening (λ h. add_entry h part_name) a c returned in
      let middle = (opening a).1 in
      let (p, known, (new, (o, objects, on, mode_is, valid))) =
        open_handle-IsOpened part_name name mode a.registry h w.registry opened in
      let sound = (open_handle-Sound part_name name mode).apply a.registry w.registry in
      let (number, missing, (e, is, found), kept) =
        add_entry-number h c part_name middle sound below room
          (sym (ap (λ x. x.0) same) ∙ returned) in
      let there =
        ap (λ os. os e.handle) (kept ∙ objects) ∙ put-here h e.handle o a.registry.objects is in
      (
        number,
        missing,
        (
          p,
          known,
          subst (λ x. Opened mode p c x.1) (sym same) (e, o, found, there, on, mode_is, valid),
        ),
      )

  Opened-read_only :
      (c p : ℕ) (b : Api Dev)
      → Opened nvs_readonly p c b
      → (ch : Change) → with_handle c (change ch) b ≡ (err nvs_read_only, b)
  unfolding with_handle
  Opened-read_only c p b (e, o, found, there, _, only, valid) ch =
      bind-value (find_ns_handle c) (λ h. on_registry (change ch h)) b b e.handle
        (known c b e found)
      ∙ ap (λ r. (r.0, record b { registry = r.1 }))
          (refused e.handle o b.registry there only valid ch)

  -- A handle that was opened read-only refuses every change by its number, with the error for that,
  -- and nothing is changed; the numbers are to be below the limit as they are for `nvs_open-number`.
  pub nvs_open-read_only :
      (part_name name : List ℕ) (a : Api Dev)
      → IsSafe a
      → Below a.next_handle a.entries
      → a.next_handle + 1 < 0x1_0000_0000
      → (c : ℕ) → (nvs_open_from_partition part_name name nvs_readonly a).0 ≡ ok c
      → (ch : Change)
      → let b = (nvs_open_from_partition part_name name nvs_readonly a).1 in
        with_handle c (change ch) b ≡ (err nvs_read_only, b)
  nvs_open-read_only part_name name a w below room c returned ch =
      let (_, _, (p, _, opened)) =
        nvs_open-number part_name name nvs_readonly a w below room c returned in
      Opened-read_only c p _ opened ch
