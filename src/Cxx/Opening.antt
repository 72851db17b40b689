-- ===== src/Cxx/Opening.antt =====
-- src/nvs_cxx_api.cpp: what the caller of `open_nvs_handle_from_partition` is given.
use mathlib.Core.Path.{subst}
use sming_nvs.Prelude.{
  ℕ, ◌==◌, ◌≡◌, ◌≢◌, refl, ap, ◌∙◌, arith, Bool-cases, inl, inr, true, false, Option, none, some,
  List, M, Void, Outcome, ok, err, abort, stuck, Esp, no_mem, invalid_arg, pure, attempt, Attempt,
  done, failed, ◌>>=◌, ◌>>◌,
}
use sming_nvs.Prelude.Preserves.{Preserves, Result, Yields-ok}
use sming_nvs.Prelude.Returns.{Gives, bind-Gives, then-Gives, pure-Gives}
use sming_nvs.Platform.{Platform}
use sming_nvs.PartitionManager.{
  Registry, HandleSimple, Objects, OpenMode, is_readonly, put_object, delete_handle,
}
use sming_nvs.PartitionManager.Requests.{open_handle}
use sming_nvs.PartitionManager.Sound.{Sound}
use sming_nvs.PartitionManager.Steps.{delete_handle-Sound, delete_handle-deleted}
use sming_nvs.PartitionManager.Calm.{Calm, request_memory-Calm}
use sming_nvs.PartitionManager.Opening.{open_handle-Sound}
use sming_nvs.PartitionManager.Opened.{SomeOpened, open_handle-SomeOpened}
use sming_nvs.Cxx.{
  destroy, HandleLocked, Opened, with_lock, returned, open_nvs_handle_from_partition,
}

-- The object at `h` is new, valid, and read-only as asked, and the others are what they were.
pub record IsNew (objects : Objects) (mode : OpenMode) (h : ℕ) (t : Objects) : Type 0 where
  pub new : objects h ≡ none
  pub object : HandleSimple
  pub there : t h ≡ some object
  pub valid : object.valid ≡ true
  pub read_only : object.read_only ≡ is_readonly mode
  pub others : (g : ℕ) → (g == h) ≡ false → t g ≡ objects g

-- A handle comes with `ESP_OK`, and is new; a null pointer comes with an error, and leaves no object
-- behind.
abbrev pub Opens : Objects → OpenMode → Opened → Objects → Type 0
Opens objects mode x t = elim x.locked [
  | some l ↦ (x.code ≡ none) × IsNew objects mode l.handle t
  | none ↦ (x.code ≢ none) × ((g : ℕ) → t g ≡ objects g)
]

module _ {S A : Type 0} where
  Preserves-Gives :
      {Inv : S → Type 0} {m : M S A} {s : S} → Preserves Inv m → Inv s → Gives s (λ _ t. Inv t) m
  Preserves-Gives {Inv} h i = record {
    apply = λ _ _ e. subst (λ (r : Outcome A × S). Inv r.1) e (h.apply _ i);
  }

module _ {S A B : Type 0} {s : S} {Post : B → S → Type 0} where
  tried :
      (o : Outcome A) (u : S) (f : Attempt A → M S B)
      → ((a : A) → o ≡ ok a → Gives u Post (f (done a)))
      → ((c : Esp) → o ≡ err c → Gives u Post (f (failed c)))
      → Gives s Post (attempt (λ (_ : S). (o, u)) >>= f)
  tried (ok a) u f h k = record { apply = (h a refl).apply }
  tried (err c) u f h k = record { apply = (k c refl).apply }
  tried abort u f h k = record { apply = λ _ _ e. absurd (ground (arith, e)) }
  tried stuck u f h k = record { apply = λ _ _ e. absurd (ground (arith, e)) }

  attempt-Gives :
      (m : M S A) (f : Attempt A → M S B)
      → ((a : A) → (m s).0 ≡ ok a → Gives (m s).1 Post (f (done a)))
      → ((c : Esp) → (m s).0 ≡ err c → Gives (m s).1 Post (f (failed c)))
      → Gives s Post (attempt m >>= f)
  attempt-Gives m f h k = record { apply = (tried (m s).0 (m s).1 f h k).apply }

put_object_here :
    (h : ℕ) (o : Option HandleSimple) (objects : Objects) → put_object h o objects h ≡ o
put_object_here h o objects = let same : (h == h) ≡ true = ground arith in rw same refl

put_object_away :
    (h g : ℕ) (o : Option HandleSimple) (objects : Objects)
    → (g == h) ≡ false
    → put_object h o objects g ≡ objects g
put_object_away h g o objects other = rw other refl

module _ (objects : Objects) (mode : OpenMode) where
  deleted-same :
      (h : ℕ) (before : Objects)
      → IsNew objects mode h before
      → (g : ℕ) → put_object h none before g ≡ objects g
  deleted-same h before new g = elim (Bool-cases (g == h)) [
    | inl same ↦ let at : g ≡ h = ground (arith, same) in ground (arith, same, at, new.new)
    | inr other ↦ ground (arith, other, new.others g other)
  ]

module _ {Dev : Type 0} (objects : Objects) (mode : OpenMode) where
  -- What the theorem says of the result and the registry.
  abbrev Right : Opened → Registry Dev → Type 0
  Right x t = Sound t × Opens objects mode x t.objects

  refused-Right :
      (c : Esp) (t : Registry Dev)
      → Sound t
      → ((g : ℕ) → t.objects g ≡ objects g)
      → Right (record { locked = none; code = some c }) t
  refused-Right c t w same = (w, ((λ e. ground (arith, e)), same))

  -- A new handle that is deleted leaves the objects as they were before it.
  pub deleted :
      (h : ℕ) (t : Registry Dev)
      → Sound t
      → IsNew objects mode h t.objects
      → ((delete_handle h t).0 ≡ ok tt)
        × (Sound (delete_handle h t).1 × ((g : ℕ) → (delete_handle h t).1.objects g ≡ objects g))
  deleted h t w new =
      let gone = delete_handle-deleted h t (λ e. ground (arith, new.there, e)) in
      (
        gone.0,
        (
          (delete_handle-Sound h).apply t w,
          λ g. ap (λ (f : Objects). f g) gone.1 ∙ deleted-same objects mode h t.objects new g,
        ),
      )

  with_lock-Right :
      (h : ℕ) (s : Registry Dev)
      → Sound s
      → IsNew objects mode h s.objects
      → Gives s Right (with_lock h)
  unfolding with_lock
  with_lock-Right h s w new =
      bind-Gives _ (Preserves-Gives (request_memory-Calm s.objects) (w, refl))
        (λ granted t (sound, same).
          elim granted
            as (λ g. Gives t Right (elim g [
              | true ↦ pure (record { locked = some (record { handle = h }); code = none })
              | false ↦ delete_handle h >> pure (record { locked = none; code = some no_mem })
            ])) [
              | true ↦
                  pure-Gives (record { locked = some (record { handle = h }); code = none })
                    (sound, (refl, rw same new))
              | false ↦
                  let (_, (sound', empty)) = deleted h t sound (rw same new) in
                  then-Gives {Mid = λ _ u. Sound u × ((g : ℕ) → u.objects g ≡ objects g)} _
                    (record {
                      apply = λ _ u e.
                          subst
                            (λ (r : Outcome Void × Registry Dev).
                              Sound r.1 × ((g : ℕ) → r.1.objects g ≡ objects g))
                            e (sound', empty);
                    })
                    (λ u (w', empty').
                      pure-Gives (record { locked = none; code = some no_mem })
                        (refused-Right no_mem u w' empty'))
            ])

module _ {Dev : Type 0} ⦃P : Platform Dev⦄ where
  opened :
      (mode : OpenMode) (objects : Objects) (t : Registry Dev) (h : ℕ)
      → SomeOpened objects mode h t
      → IsNew objects mode h t.objects
  opened mode objects t h (_, (new, (object, put, _, read_only, valid))) = record {
    new = new;
    object = object;
    there = ap (λ (f : Objects). f h) put ∙ put_object_here h (some object) objects;
    valid = valid;
    read_only = read_only;
    others =
        λ g other. ap (λ (f : Objects). f g) put ∙ put_object_away h g (some object) objects other;
  }

  failed_same :
      (mode : OpenMode) (objects : Objects) (o : Outcome ℕ) (t : Registry Dev)
      → Result (Calm objects) (SomeOpened objects mode) o t
      → (c : Esp) → o ≡ err c
      → t.objects ≡ objects
  unfolding Result
  failed_same mode objects o t w c e =
      (subst (λ (o : Outcome ℕ). Result (Calm objects) (SomeOpened objects mode) o t) e w).1

  -- From a sound registry, where `open_nvs_handle_from_partition` returns, the registry is sound, and
  -- either there is a handle, `*err` is `ESP_OK`, and the object behind it is new, valid and
  -- read-only as asked, and the other objects are what they were; or there is none, `*err` is an
  -- error, and every object is what it was.
  pub open_nvs_handle_from_partition-Opens :
      (part name : Option (List ℕ)) (mode : OpenMode) (s t : Registry Dev) (x : Opened)
      → Sound s
      → open_nvs_handle_from_partition part name mode s ≡ (ok x, t)
      → Sound t × Opens s.objects mode x t.objects
  unfolding open_nvs_handle_from_partition
  open_nvs_handle_from_partition-Opens none name mode s t x w e =
      (pure-Gives {s = s} {Post = Right s.objects mode}
          (record { locked = none; code = some invalid_arg })
          (refused-Right s.objects mode invalid_arg s w (λ _. refl))).apply
        x t e
  open_nvs_handle_from_partition-Opens (some part) none mode s t x w e =
      (pure-Gives {s = s} {Post = Right s.objects mode}
          (record { locked = none; code = some invalid_arg })
          (refused-Right s.objects mode invalid_arg s w (λ _. refl))).apply
        x t e
  open_nvs_handle_from_partition-Opens (some part) (some name) mode s t x w e =
      let sound = (open_handle-Sound part name mode).apply s w in
      let result = (open_handle-SomeOpened s.objects part name mode).apply s (w, refl) in
      (attempt-Gives {Post = Right s.objects mode} (open_handle part name mode) returned
          (λ h got.
            let new =
              opened mode s.objects (open_handle part name mode s).1 h
                (Yields-ok (open_handle-SomeOpened s.objects part name mode) s (w, refl) h got) in
            with_lock-Right s.objects mode h _ sound new)
          (λ c got.
            let same = failed_same mode s.objects _ _ result c got in
            pure-Gives (record { locked = none; code = some c })
              (refused-Right s.objects mode c _ sound (λ g. ap (λ (f : Objects). f g) same)))).apply
        x t e

  -- From a sound registry, the handle that `open_nvs_handle_from_partition` gives can be destroyed;
  -- the registry is then sound, and every object is what it was before the handle was opened.
  pub open_nvs_handle_from_partition-destroy :
      (part name : Option (List ℕ)) (mode : OpenMode) (s t : Registry Dev) (x : Opened)
      (l : HandleLocked)
      → Sound s
      → open_nvs_handle_from_partition part name mode s ≡ (ok x, t)
      → x.locked ≡ some l
      → ((destroy l t).0 ≡ ok tt)
        × (Sound (destroy l t).1 × ((g : ℕ) → (destroy l t).1.objects g ≡ s.objects g))
  open_nvs_handle_from_partition-destroy part name mode s t x l w e given =
      let (sound, opens) = open_nvs_handle_from_partition-Opens part name mode s t x w e in
      deleted s.objects mode l.handle t sound
        (subst
          (λ (y : Option HandleLocked).
            Opens s.objects mode (record { locked = y; code = x.code }) t.objects)
          given opens).1
