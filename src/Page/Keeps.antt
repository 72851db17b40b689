-- ===== src/Page/Keeps.antt =====
-- What the operations on the items of a page leave alone, and the rules by which this passes from
-- the parts of a method to the method.
use sming_nvs.Prelude.{
  ◌≡◌, ◌⊎◌, arith, Bool, true, false, Option, none, some, M, Esp, Outcome, ok, err, abort, stuck,
  pure, fail, stuck_call, assert, raise_if, check, try, attempt, or_abort, ◌>>=◌, if◌then◌else◌,
}
use sming_nvs.Page.State.{
  Page, Store, uninitialized, active, invalid, on_dev, gets_page, set_page, or_invalid, request,
}

-- The state is the same, or spoiled by a failure of the flash, or the page was blank and is in use
-- now. Address, sequence number and version are the same.
pub record Kept (p q : Page) : Type 0 where
  pub state :
      (q.state ≡ p.state) ⊎ ((q.state ≡ invalid) ⊎ ((p.state ≡ uninitialized) × (q.state ≡ active)))
  pub base_address : q.base_address ≡ p.base_address
  pub seq_number : q.seq_number ≡ p.seq_number
  pub version : q.version ≡ p.version

pub Kept-refl : (p : Page) → Kept p p
Kept-refl p = ground arith

pub Kept-trans : {p q r : Page} → Kept p q → Kept q r → Kept p r
Kept-trans a b = ground arith

-- However a call ends, the page is kept.
pub record Keeps {Dev A : Type 0} (m : M (Store Dev) A) : Type 0 where
  pub apply : (s : Store Dev) → Kept s.page (m s).1.page

-- The rules for what methods are made of: first for a call whose result is known.
module _ {Dev A B : Type 0} where
  bind_result :
      (p : Page) (r : Outcome A) (s t : Store Dev) (f : A → M (Store Dev) B)
      → Kept p t.page
      → ((a : A) → Keeps (f a))
      → Kept p (((λ (_ : Store Dev). (r, t)) >>= f) s).1.page
  bind_result p (ok a) s t f h k = Kept-trans h ((k a).apply t)
  bind_result p (err e) s t f h k = h
  bind_result p abort s t f h k = h
  bind_result p stuck s t f h k = h

  pub bind-Keeps :
      {m : M (Store Dev) A} {f : A → M (Store Dev) B}
      → Keeps m
      → ((a : A) → Keeps (f a))
      → Keeps (m >>= f)
  bind-Keeps {m} {f} h k = record {
    apply = λ s. bind_result s.page (m s).0 s (m s).1 f (h.apply s) k;
  }

module _ {Dev A : Type 0} where
  or_invalid_result :
      (p : Page) (r : Outcome A) (s t : Store Dev)
      → Kept p t.page
      → Kept p (or_invalid (λ (_ : Store Dev). (r, t)) s).1.page
  or_invalid_result p (ok a) s t h = h
  or_invalid_result p (err e) s t h = ground arith
  or_invalid_result p abort s t h = h
  or_invalid_result p stuck s t h = h

  pub or_invalid-Keeps : {m : M (Store Dev) A} → Keeps m → Keeps (or_invalid m)
  or_invalid-Keeps {m} h = record {
    apply = λ s. or_invalid_result s.page (m s).0 s (m s).1 (h.apply s);
  }

  try_result :
      (p : Page) (r : Outcome A) (s t : Store Dev)
      → Kept p t.page
      → Kept p (try (λ (_ : Store Dev). (r, t)) s).1.page
  try_result p (ok a) s t h = h
  try_result p (err e) s t h = h
  try_result p abort s t h = h
  try_result p stuck s t h = h

  pub try-Keeps : {m : M (Store Dev) A} → Keeps m → Keeps (try m)
  try-Keeps {m} h = record { apply = λ s. try_result s.page (m s).0 s (m s).1 (h.apply s) }

  attempt_result :
      (p : Page) (r : Outcome A) (s t : Store Dev)
      → Kept p t.page
      → Kept p (attempt (λ (_ : Store Dev). (r, t)) s).1.page
  attempt_result p (ok a) s t h = h
  attempt_result p (err e) s t h = h
  attempt_result p abort s t h = h
  attempt_result p stuck s t h = h

  pub attempt-Keeps : {m : M (Store Dev) A} → Keeps m → Keeps (attempt m)
  attempt-Keeps {m} h = record { apply = λ s. attempt_result s.page (m s).0 s (m s).1 (h.apply s) }

  pub if-Keeps : (b : Bool) {m n : M (Store Dev) A} → Keeps m → Keeps n → Keeps (if b then m else n)
  if-Keeps true h k = h
  if-Keeps false h k = k

  pub pure-Keeps : (a : A) → Keeps {Dev = Dev} (pure a)
  pure-Keeps a = record { apply = λ s. Kept-refl s.page }

  pub gets-Keeps : (f : Page → A) → Keeps {Dev = Dev} (gets_page f)
  gets-Keeps f = record { apply = λ s. Kept-refl s.page }

  pub fail-Keeps : (e : Esp) → Keeps {Dev = Dev} {A = A} (fail e)
  fail-Keeps e = record { apply = λ s. Kept-refl s.page }

  pub stuck-Keeps : Keeps {Dev = Dev} {A = A} stuck_call
  stuck-Keeps = record { apply = λ s. Kept-refl s.page }

  pub on_dev-Keeps : (m : M Dev A) → Keeps (on_dev m)
  on_dev-Keeps m = record { apply = λ s. Kept-refl s.page }

  pub or_abort-Keeps : (o : Option A) → Keeps {Dev = Dev} (or_abort o)
  or_abort-Keeps none = record { apply = λ s. Kept-refl s.page }
  or_abort-Keeps (some a) = record { apply = λ s. Kept-refl s.page }

module _ {Dev : Type 0} where
  pub assert-Keeps : (b : Bool) → Keeps {Dev = Dev} (assert b)
  assert-Keeps true = record { apply = λ s. Kept-refl s.page }
  assert-Keeps false = record { apply = λ s. Kept-refl s.page }

  pub raise_if-Keeps : (b : Bool) (e : Esp) → Keeps {Dev = Dev} (raise_if b e)
  raise_if-Keeps true e = record { apply = λ s. Kept-refl s.page }
  raise_if-Keeps false e = record { apply = λ s. Kept-refl s.page }

  pub check-Keeps : (rc : Option Esp) → Keeps {Dev = Dev} (check rc)
  check-Keeps none = record { apply = λ s. Kept-refl s.page }
  check-Keeps (some e) = record { apply = λ s. Kept-refl s.page }

  pub request-Keeps : Keeps {Dev = Dev} request
  request-Keeps = record { apply = λ s. ground arith }

  pub set_page-Keeps :
      (f : Page → Page) → ((p : Page) → Kept p (f p)) → Keeps {Dev = Dev} (set_page f)
  set_page-Keeps f h = record { apply = λ s. h s.page }

pub ruleset keeping = (
  bind-Keeps, or_invalid-Keeps, try-Keeps, attempt-Keeps, if-Keeps, pure-Keeps, gets-Keeps,
  fail-Keeps, stuck-Keeps, on_dev-Keeps, or_abort-Keeps, assert-Keeps, raise_if-Keeps, check-Keeps,
  request-Keeps, set_page-Keeps,
)
