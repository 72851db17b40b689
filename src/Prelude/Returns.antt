-- ===== src/Prelude/Returns.antt =====
-- Calls that return with `ESP_OK`, and what is then known of their parts.
use mathlib.Core.Path.{subst}
use sming_nvs.Prelude.{
  ◌≡◌, refl, ap, arith, Bool, true, false, M, Void, Outcome, ok, err, abort, stuck, Esp, assert,
  raise_if, pure, stuck_call, Option, none, some, Attempt, done, failed, ◌>>=◌, ◌>>◌, if◌then◌else◌,
}

module _ {S A B : Type 0} where
  bind_result :
      (r : Outcome A) (s t : S) (f : A → M S B) {b : B} {u : S}
      → ((λ (_ : S). (r, t)) >>= f) s ≡ (ok b, u)
      → (a : A) × (r ≡ ok a) × (f a t ≡ (ok b, u))
  bind_result (ok a) s t f e = (a, refl, e)
  bind_result (err c) s t f e = absurd (ground (arith, e))
  bind_result abort s t f e = absurd (ground (arith, e))
  bind_result stuck s t f e = absurd (ground (arith, e))

  -- Both calls of a sequence that returns have returned.
  bind_parts :
      (m : M S A) (f : A → M S B) (s : S) {b : B} {u : S}
      → (m >>= f) s ≡ (ok b, u)
      → (a : A) × (t : S) × (m s ≡ (ok a, t)) × (f a t ≡ (ok b, u))
  bind_parts m f s e =
      let (a, h, k) = bind_result (m s).0 s (m s).1 f e in (a, (m s).1, ap (λ r. (r, (m s).1)) h, k)

-- What holds of the result and of the state, where the call returns from the state `s`.
pub record Gives {S A : Type 0} (s : S) (Post : A → S → Type 0) (m : M S A) : Type 0 where
  pub apply : (a : A) (t : S) → m s ≡ (ok a, t) → Post a t

module _ {S A B : Type 0} {s : S} {Post : B → S → Type 0} where
  pub bind-Gives :
      {Mid : A → S → Type 0} (m : M S A) {f : A → M S B}
      → Gives s Mid m
      → ((a : A) (t : S) → Mid a t → Gives t Post (f a))
      → Gives s Post (m >>= f)
  bind-Gives m {f} h k = record {
    apply = λ b u e. let (a, t, g, r) = bind_parts m f s e in (k a t (h.apply a t g)).apply b u r;
  }

module _ {S B : Type 0} {s : S} {Post : B → S → Type 0} where
  pub then-Gives :
      {Mid : Void → S → Type 0} (m : M S Void) {k : M S B}
      → Gives s Mid m
      → ((t : S) → Mid tt t → Gives t Post k)
      → Gives s Post (m >> k)
  then-Gives m {k} h g = bind-Gives m h (λ _ t mid. g t mid)

  pub assert-Gives :
      (b : Bool) {m : M S B} → (b ≡ true → Gives s Post m) → Gives s Post (assert b >> m)
  assert-Gives true h = record { apply = λ a t e. (h refl).apply a t e }
  assert-Gives false h = record { apply = λ a t e. absurd (ground (arith, e)) }

  pub raise_if-Gives :
      (b : Bool) (c : Esp) {m : M S B}
      → (b ≡ false → Gives s Post m)
      → Gives s Post (raise_if b c >> m)
  raise_if-Gives false c h = record { apply = λ a t e. (h refl).apply a t e }
  raise_if-Gives true c h = record { apply = λ a t e. absurd (ground (arith, e)) }

module _ {S A : Type 0} {s : S} {Post : A → S → Type 0} where
  pub pure-Gives : (a : A) → Post a s → Gives s Post (pure a)
  pure-Gives a p = record {
    apply = λ b t e. subst (λ r. elim r.0 [ ok c ↦ Post c r.1 | _ ↦ Void ]) e p;
  }

  pub if-Gives :
      (b : Bool) {m n : M S A}
      → (b ≡ true → Gives s Post m)
      → (b ≡ false → Gives s Post n)
      → Gives s Post (if b then m else n)
  if-Gives true h k = h refl
  if-Gives false h k = k refl

  pub weaken-Gives :
      {Sharp : A → S → Type 0} {m : M S A}
      → Gives s Sharp m
      → ((a : A) (t : S) → Sharp a t → Post a t)
      → Gives s Post m
  weaken-Gives h k = record { apply = λ a t e. k a t (h.apply a t e) }

-- A call of which nothing has to be known, and what follows it.
module _ {S A B : Type 0} {s : S} {Post : B → S → Type 0} where
  pub after-Gives :
      (m : M S A) {f : A → M S B} → ((a : A) (t : S) → Gives t Post (f a)) → Gives s Post (m >>= f)
  after-Gives m k =
      bind-Gives {Mid = λ _ _. Unit {0}} m (record { apply = λ _ _ _. tt }) (λ a t _. k a t)

module _ {S B : Type 0} {s : S} {Post : B → S → Type 0} where
  pub next-Gives : (m : M S Void) {k : M S B} → ((t : S) → Gives t Post k) → Gives s Post (m >> k)
  next-Gives m h = after-Gives m (λ _ t. h t)

-- The same from every state with a property: where the call returns, what is then known.
pub record Leads {S A : Type 0} (Pre : S → Type 0) (Post : A → S → Type 0) (m : M S A)
    : Type 0 where
  pub apply : (s : S) → Pre s → (a : A) (t : S) → m s ≡ (ok a, t) → Post a t

module _ {S A : Type 0} {Pre : S → Type 0} {Post : A → S → Type 0} where
  pub Gives-Leads : {m : M S A} → ((s : S) → Pre s → Gives s Post m) → Leads Pre Post m
  Gives-Leads h = record { apply = λ s p. (h s p).apply }

  pub any-Leads : {m : M S A} → Leads (λ _. Unit {0}) Post m → Leads Pre Post m
  any-Leads h = record { apply = λ s _. h.apply s tt }

  pub pure-Leads : (a : A) → ((s : S) → Pre s → Post a s) → Leads Pre Post (pure a)
  pure-Leads a h = Gives-Leads (λ s p. pure-Gives a (h s p))

  pub stuck-Leads : Leads Pre Post (stuck_call {A = A})
  stuck-Leads = record { apply = λ s p a t e. absurd (ground (arith, e)) }

  pub if-Leads :
      (b : Bool) {m n : M S A}
      → Leads Pre Post m
      → Leads Pre Post n
      → Leads Pre Post (if b then m else n)
  if-Leads true h k = h
  if-Leads false h k = k

  -- The rules for a case split, with the branch that is taken.
  pub split-Leads :
      (b : Bool) {m n : M S A}
      → (b ≡ false → Leads Pre Post m)
      → (b ≡ true → Leads Pre Post n)
      → Leads {A = A} Pre Post (elim b [ false ↦ m | true ↦ n ])
  split-Leads false h k = h refl
  split-Leads true h k = k refl

  pub option-Leads :
      {B : Type 0} (o : Option B) {m : M S A} {f : B → M S A}
      → (o ≡ none → Leads Pre Post m)
      → ((b : B) → Leads Pre Post (f b))
      → Leads {A = A} Pre Post (elim o [ none ↦ m | some b ↦ f b ])
  option-Leads none h k = h refl
  option-Leads (some b) h k = k b

  pub attempt-Leads :
      {B : Type 0} (a : Attempt B) {f : Esp → M S A} {g : B → M S A}
      → ((e : Esp) → Leads Pre Post (f e))
      → ((b : B) → a ≡ done b → Leads Pre Post (g b))
      → Leads {A = A} Pre Post (elim a [ failed e ↦ f e | done b ↦ g b ])
  attempt-Leads (failed e) h k = h e
  attempt-Leads (done b) h k = k b refl

module _ {S A B : Type 0} {Pre : S → Type 0} {Post : B → S → Type 0} where
  pub bind-Leads :
      {Mid : A → S → Type 0} (m : M S A) {f : A → M S B}
      → Leads Pre Mid m
      → ((a : A) → Leads (Mid a) Post (f a))
      → Leads Pre Post (m >>= f)
  bind-Leads m h k = Gives-Leads (λ s p.
      bind-Gives m (record { apply = h.apply s p })
        (λ a t mid. record { apply = (k a).apply t mid }))

  pub after-Leads :
      (m : M S A) {f : A → M S B}
      → ((a : A) → Leads (λ _. Unit {0}) Post (f a))
      → Leads Pre Post (m >>= f)
  after-Leads m k = bind-Leads {Mid = λ _ _. Unit {0}} m (record { apply = λ _ _ _ _ _. tt }) k

module _ {S B : Type 0} {Pre : S → Type 0} {Post : B → S → Type 0} where
  pub then-Leads :
      {Mid : Void → S → Type 0} (m : M S Void) {k : M S B}
      → Leads Pre Mid m
      → Leads (Mid tt) Post k
      → Leads Pre Post (m >> k)
  then-Leads m h k = Gives-Leads (λ s p.
      then-Gives m (record { apply = h.apply s p }) (λ t mid. record { apply = k.apply t mid }))
