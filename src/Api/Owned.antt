-- ===== src/Api/Owned.antt =====
-- src/nvs_api.cpp: the handles behind the numbers, each of them valid and owned by one number.
use sming_nvs.Prelude.{
  ℕ, ◌≡◌, refl, sym, inl, inr, arith, Bool, true, false, Option, none, some, List, [], ◌∷◌, ◌++◌,
  ◌==◌, if◌then◌else◌, Bool-cases,
}
use sming_nvs.PartitionManager.{HandleSimple, Objects, put_object}
use sming_nvs.Api.{Entry, find_entry, erase_entry}

abbrev pub is_valid_at : Objects → ℕ → Bool
is_valid_at objects h = elim (objects h) [ none ↦ false | some o ↦ o.valid ]

abbrev pub owns : ℕ → List Entry → Bool
owns h [] = false
owns h (e ∷ es) = if h == e.handle then true else owns h es

-- Every number stands for a valid handle, and no two for the same.
abbrev pub Owned : Objects → List Entry → Type 0
Owned objects [] = Unit
Owned objects (e ∷ es) =
    (is_valid_at objects e.handle ≡ true) × (owns e.handle es ≡ false) × Owned objects es

valid-put :
    (g h : ℕ) (o : Option HandleSimple) (objects : Objects)
    → (g == h) ≡ false
    → is_valid_at (put_object h o objects) g ≡ is_valid_at objects g
valid-put g h o objects away = rw (is_valid_at, away) refl

owns-head :
    (h : ℕ) (e : Entry) (es : List Entry) → owns h (e ∷ es) ≡ false → (e.handle == h) ≡ false
owns-head h e es away = ground (arith, away)

pub Owned-put :
    (h : ℕ) (o : Option HandleSimple) (objects : Objects) (es : List Entry)
    → owns h es ≡ false
    → Owned objects es
    → Owned (put_object h o objects) es
Owned-put h o objects [] away w = tt
Owned-put h o objects (e ∷ es) away (valid, once, rest) = (
  rw (valid-put e.handle h o objects (owns-head h e es away)) valid,
  once,
  Owned-put h o objects es (ground (arith, away)) rest,
)

owns-erase : (h c : ℕ) (es : List Entry) → owns h es ≡ false → owns h (erase_entry c es) ≡ false
unfolding erase_entry
owns-erase h c [] away = refl
owns-erase h c (e ∷ es) away = ground (arith, away, owns-erase h c es)

found-owns :
    (c : ℕ) (e : Entry) (es : List Entry) → find_entry c es ≡ some e → owns e.handle es ≡ true
unfolding find_entry
found-owns c e [] found = absurd (ground (arith, found))
found-owns c e (d ∷ es) found = ground (arith, found, found-owns c e es)

pub Owned-erase :
    (c : ℕ) (e : Entry) (objects : Objects) (es : List Entry)
    → find_entry c es ≡ some e
    → Owned objects es
    → Owned (put_object e.handle none objects) (erase_entry c es)
unfolding find_entry erase_entry
Owned-erase c e objects [] found w = tt
Owned-erase c e objects (d ∷ es) found (valid, once, rest) = elim (Bool-cases (d.c_handle == c)) [
  | inl here ↦
      let same : d ≡ e = ground (arith, found, here) in
      rw (here, sym same) (Owned-put d.handle none objects es once rest)
  | inr later ↦
      let found' : find_entry c es ≡ some e = ground (arith, found, later) in
      let apart : (d.handle == e.handle) ≡ false = ground (arith, once, found-owns c e es found') in
      rw later (
        rw (valid-put d.handle e.handle none objects apart) valid,
        owns-erase d.handle c es once,
        Owned-erase c e objects es found' rest,
      )
]

owns-append :
    (h : ℕ) (e : Entry) (es : List Entry)
    → owns h es ≡ false
    → (h == e.handle) ≡ false
    → owns h (es ++ e ∷ []) ≡ false
owns-append h e [] apart other = ground (arith, other)
owns-append h e (d ∷ es) apart other = ground (arith, apart, owns-append h e es, other)

pub Owned-append :
    (e : Entry) (objects : Objects) (es : List Entry)
    → is_valid_at objects e.handle ≡ true
    → owns e.handle es ≡ false
    → Owned objects es
    → Owned objects (es ++ e ∷ [])
Owned-append e objects [] valid once w = (valid, refl, tt)
Owned-append e objects (d ∷ es) valid once (old, apart, rest) = (
  old,
  owns-append d.handle e es apart (ground (arith, once)),
  Owned-append e objects es valid (ground (arith, once)) rest,
)

pub fresh-owns :
    (h : ℕ) (objects : Objects) (es : List Entry)
    → objects h ≡ none
    → Owned objects es
    → owns h es ≡ false
fresh-owns h objects [] fresh w = refl
fresh-owns h objects (e ∷ es) fresh (valid, once, rest) =
    ground (arith, fresh, valid, fresh-owns h objects es fresh rest)

pub found-valid :
    (c : ℕ) (e : Entry) (objects : Objects) (es : List Entry)
    → find_entry c es ≡ some e
    → Owned objects es
    → is_valid_at objects e.handle ≡ true
unfolding find_entry
found-valid c e objects [] found w = absurd (ground (arith, found))
found-valid c e objects (d ∷ es) found (valid, once, rest) =
    ground (arith, found, valid, found-valid c e objects es)
