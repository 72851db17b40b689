-- ===== src/Prelude/Preserves.antt =====
-- Invariants of the state: the calls that keep one on every outcome, and the rules by which this
-- passes from the parts of a call to the call.
use mathlib.Core.Path.{◌≡◌, refl, ap}
use mathlib.Core.Bool.{Bool, true, false}
use mathlib.Core.Option.{Option, none, some}
use native.Mathlib.Omega.{arith}
use sming_nvs.Prelude.Methods.{
  M, Outcome, Esp, ok, err, abort, stuck, pure, fail, abort_call, raise_if, or_abort, modify, gets,
  Attempt, attempt, done, failed, ◌>>=◌,
}

-- From a state with the property, the call ends in one, whatever it returns.
pub record Preserves {S A : Type 0} (Inv : S → Type 0) (m : M S A) : Type 0 where
  pub apply : (s : S) → Inv s → Inv (m s).1

-- The same between two properties.
pub record Carries {S A : Type 0} (Pre Inv : S → Type 0) (m : M S A) : Type 0 where
  pub apply : (s : S) → Pre s → Inv (m s).1

module _ {S A B : Type 0} where
  pub bind_state :
      (Sound : S → Type 0) (r : Outcome A) (s t : S) (f : A → M S B)
      → Sound t
      → ((a : A) → r ≡ ok a → Sound (f a t).1)
      → Sound (((λ (_ : S). (r, t)) >>= f) s).1
  bind_state Sound (ok a) s t f h k = k a refl
  bind_state Sound (err e) s t f h k = h
  bind_state Sound abort s t f h k = h
  bind_state Sound stuck s t f h k = h

module _ {S A B : Type 0} where
  ok_result :
      (r : Outcome A) (s t : S) (f : A → M S B) (a : A)
      → r ≡ ok a
      → ((λ (_ : S). (r, t)) >>= f) s ≡ f a t
  ok_result (ok b) s t f a e = ground (arith, e)
  ok_result (err c) s t f a e = absurd (ground (arith, e))
  ok_result abort s t f a e = absurd (ground (arith, e))
  ok_result stuck s t f a e = absurd (ground (arith, e))

  -- A call that returns, and what follows it.
  pub bind-ok :
      (m : M S A) (f : A → M S B) (s : S) (a : A) → (m s).0 ≡ ok a → (m >>= f) s ≡ f a (m s).1
  bind-ok m f s a e = ok_result (m s).0 s (m s).1 f a e

  pub bind-err :
      (m : M S A) (f : A → M S B) (s t : S) (e : Esp) → m s ≡ (err e, t) → (m >>= f) s ≡ (err e, t)
  bind-err m f s t e h = ap (λ r. ((λ (_ : S). r) >>= f) s) h

  pub bind-value :
      (m : M S A) (f : A → M S B) (s t : S) (a : A) → m s ≡ (ok a, t) → (m >>= f) s ≡ f a t
  bind-value m f s t a h = ap (λ r. ((λ (_ : S). r) >>= f) s) h

  returned_result :
      (r : Outcome A) (s t : S) (f : A → M S B) (b : B)
      → (((λ (_ : S). (r, t)) >>= f) s).0 ≡ ok b
      → (a : A) × (r ≡ ok a) × (((λ (_ : S). (r, t)) >>= f) s ≡ f a t)
  returned_result (ok a) s t f b e = (a, refl, refl)
  returned_result (err c) s t f b e = absurd (ground (arith, e))
  returned_result abort s t f b e = absurd (ground (arith, e))
  returned_result stuck s t f b e = absurd (ground (arith, e))

  -- Where two calls return, the first of them does.
  pub bind-returned :
      (m : M S A) (f : A → M S B) (s : S) (b : B)
      → ((m >>= f) s).0 ≡ ok b
      → (a : A) × ((m s).0 ≡ ok a) × ((m >>= f) s ≡ f a (m s).1)
  bind-returned m f s b e = returned_result (m s).0 s (m s).1 f b e

module _ {S A B : Type 0} {Inv : S → Type 0} where
  pub bind-Preserves :
      {m : M S A} {f : A → M S B}
      → Preserves Inv m
      → ((a : A) → Preserves Inv (f a))
      → Preserves Inv (m >>= f)
  bind-Preserves {m} {f} h k = record {
    apply = λ s i.
        bind_state Inv (m s).0 s (m s).1 f (h.apply s i) (λ a _. (k a).apply _ (h.apply s i));
  }

  -- The same where the first call has more to keep than the rest.
  pub bind-Carries :
      {Pre : S → Type 0} {m : M S A} {f : A → M S B}
      → Preserves Pre m
      → ((s : S) → Pre s → Inv s)
      → ((a : A) → Carries Pre Inv (f a))
      → Carries Pre Inv (m >>= f)
  bind-Carries {m} {f} h weaken k = record {
    apply = λ s i.
        bind_state Inv (m s).0 s (m s).1 f (weaken _ (h.apply s i))
          (λ a _. (k a).apply _ (h.apply s i));
  }

module _ {S A : Type 0} where
  attempt_state :
      (Sound : S → Type 0) (r : Outcome A) (s t : S)
      → Sound t
      → Sound (attempt (λ (_ : S). (r, t)) s).1
  attempt_state Sound (ok a) s t h = h
  attempt_state Sound (err e) s t h = h
  attempt_state Sound abort s t h = h
  attempt_state Sound stuck s t h = h

module _ {S A : Type 0} {Inv : S → Type 0} where
  pub pure-Preserves : (a : A) → Preserves Inv (pure {S = S} a)
  pure-Preserves a = record { apply = λ s i. i }

  pub gets-Preserves : (f : S → A) → Preserves Inv (gets {S = S} f)
  gets-Preserves f = record { apply = λ s i. i }

  pub fail-Preserves : (e : Esp) → Preserves Inv (fail {S = S} {A = A} e)
  fail-Preserves e = record { apply = λ s i. i }

  pub abort-Preserves : Preserves Inv (abort_call {S = S} {A = A})
  abort-Preserves = record { apply = λ s i. i }

  pub or_abort-Preserves : (o : Option A) → Preserves Inv (or_abort {S = S} o)
  or_abort-Preserves none = record { apply = λ s i. i }
  or_abort-Preserves (some a) = record { apply = λ s i. i }

  pub attempt-Preserves : {m : M S A} → Preserves Inv m → Preserves Inv (attempt m)
  attempt-Preserves {m} h = record {
    apply = λ s i. attempt_state Inv (m s).0 s (m s).1 (h.apply s i);
  }

module _ {S : Type 0} {Inv : S → Type 0} where
  pub raise_if-Preserves : (b : Bool) (e : Esp) → Preserves Inv (raise_if {S = S} b e)
  raise_if-Preserves true e = record { apply = λ s i. i }
  raise_if-Preserves false e = record { apply = λ s i. i }

  pub modify-Preserves : (f : S → S) → ((s : S) → Inv s → Inv (f s)) → Preserves Inv (modify f)
  modify-Preserves f h = record { apply = h }

module _ {S A : Type 0} {Inv : S → Type 0} where
  pub bool-Preserves :
      (b : Bool) {m n : M S A}
      → Preserves Inv m
      → Preserves Inv n
      → Preserves {A = A} Inv (elim b [ true ↦ m | false ↦ n ])
  bool-Preserves true h k = h
  bool-Preserves false h k = k

  pub attempted-Preserves :
      {B : Type 0} (r : Attempt B) {f : B → M S A} {g : Esp → M S A}
      → ((b : B) → Preserves Inv (f b))
      → ((e : Esp) → Preserves Inv (g e))
      → Preserves {A = A} Inv (elim r [ done b ↦ f b | failed e ↦ g e ])
  attempted-Preserves (done b) h k = h b
  attempted-Preserves (failed e) h k = k e

  pub option-Preserves :
      {B : Type 0} (o : Option B) {m : M S A} {f : B → M S A}
      → Preserves Inv m
      → ((b : B) → o ≡ some b → Preserves Inv (f b))
      → Preserves {A = A} Inv (elim o [ none ↦ m | some b ↦ f b ])
  option-Preserves none h k = h
  option-Preserves (some b) h k = k b refl

module _ {S A : Type 0} {Pre Inv : S → Type 0} where
  pub bool-Carries :
      (b : Bool) {m n : M S A}
      → Carries Pre Inv m
      → Carries Pre Inv n
      → Carries {A = A} Pre Inv (elim b [ true ↦ m | false ↦ n ])
  bool-Carries true h k = h
  bool-Carries false h k = k

pub both-Preserves :
    {S A : Type 0} {I J : S → Type 0} {m : M S A}
    → Preserves I m
    → Preserves J m
    → Preserves (λ s. I s × J s) m
both-Preserves h k = record { apply = λ s (i, j). (h.apply s i, k.apply s j) }

-- What holds where a call returns a value, and where it does not.
unfoldable pub Result : {S A : Type 0} → (S → Type 0) → (A → S → Type 0) → Outcome A → S → Type 0
Result Inv Post (ok a) s = Post a s
Result Inv Post (err e) s = Inv s
Result Inv Post abort s = Inv s
Result Inv Post stuck s = Inv s

-- From a state with the property, a call that returns gives what is said of its value.
pub record Yields {S A : Type 0} (Inv : S → Type 0) (Post : A → S → Type 0) (m : M S A)
    : Type 0 where
  pub apply : (s : S) → Inv s → Result Inv Post (m s).0 (m s).1

module _ {S A B : Type 0} (Inv : S → Type 0) where
  yields-Result :
      (Post : B → S → Type 0) (r : Outcome A) (s t : S) (f : A → M S B)
      → Inv t
      → ((a : A) → Result Inv Post (f a t).0 (f a t).1)
      → let out = ((λ (_ : S). (r, t)) >>= f) s in Result Inv Post out.0 out.1
  unfolding Result
  yields-Result Post (ok a) s t f i k = k a
  yields-Result Post (err e) s t f i k = i
  yields-Result Post abort s t f i k = i
  yields-Result Post stuck s t f i k = i

  keeps_result :
      (Post : A → S → Type 0) (r : Outcome A) (s t : S) (f : A → M S B)
      → Result Inv Post r t
      → ((a : A) → Post a t → Inv (f a t).1)
      → Inv (((λ (_ : S). (r, t)) >>= f) s).1
  unfolding Result
  keeps_result Post (ok a) s t f i k = k a i
  keeps_result Post (err e) s t f i k = i
  keeps_result Post abort s t f i k = i
  keeps_result Post stuck s t f i k = i

module _ {S A B : Type 0} {Inv : S → Type 0} where
  pub bind-Yields :
      {Post : B → S → Type 0} {m : M S A} {f : A → M S B}
      → Preserves Inv m
      → ((a : A) → Yields Inv Post (f a))
      → Yields Inv Post (m >>= f)
  bind-Yields {Post} {m} {f} h k = record {
    apply = λ s i.
        yields-Result Inv Post (m s).0 s (m s).1 f (h.apply s i) (λ a. (k a).apply _ (h.apply s i));
  }

  pub Yields-Preserves :
      {Post : A → S → Type 0} {m : M S A} {f : A → M S B}
      → Yields Inv Post m
      → ((a : A) → Carries (Post a) Inv (f a))
      → Preserves Inv (m >>= f)
  Yields-Preserves {Post} {m} {f} h k = record {
    apply = λ s i. keeps_result Inv Post (m s).0 s (m s).1 f (h.apply s i) (λ a p. (k a).apply _ p);
  }

module _ {S A : Type 0} (Inv : S → Type 0) (Post : A → S → Type 0) where
  returns_result : (r : Outcome A) (s : S) → Result Inv Post r s → (a : A) → r ≡ ok a → Post a s
  unfolding Result
  returns_result (ok b) s p a e = ground (arith, p, e)
  returns_result (err c) s p a e = absurd (ground (arith, e))
  returns_result abort s p a e = absurd (ground (arith, e))
  returns_result stuck s p a e = absurd (ground (arith, e))

module _ {S A : Type 0} {Inv : S → Type 0} {Post : A → S → Type 0} where
  pub bool-Yields :
      (b : Bool) {m n : M S A}
      → Yields Inv Post m
      → Yields Inv Post n
      → Yields {A = A} Inv Post (elim b [ true ↦ m | false ↦ n ])
  bool-Yields true h k = h
  bool-Yields false h k = k

  pub abort-Yields : Yields Inv Post (abort_call {S = S} {A = A})
  unfolding Result
  abort-Yields = record { apply = λ s i. i }

  pub Yields-ok :
      {m : M S A} → Yields Inv Post m → (s : S) → Inv s → (a : A) → (m s).0 ≡ ok a → Post a (m s).1
  Yields-ok {m} h s i a e = returns_result Inv Post (m s).0 (m s).1 (h.apply s i) a e
