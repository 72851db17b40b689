-- ===== src/IntrusiveList/Pushes.antt =====
-- src/intrusive_list.h: nodes that are put at an end, and the walk of an iterator over all nodes.
use sming_nvs.Prelude.{
  ℕ, zero, suc, ◌+◌, ◌<◌, ◌≤◌, ◌≡◌, ◌≢◌, ◌⊎◌, refl, sym, ap, ◌∙◌, inl, inr, arith, none, some, List,
  [], ◌∷◌, ◌++◌, length, length-append, get_elem?,
}
use sming_nvs.IntrusiveList.{Links, link, push_back, push_front}
use sming_nvs.IntrusiveList.Refines.{IsList, before, before-once, link-same, link-other, nat-cases}

get-append : (xs : List ℕ) (n i : ℕ) → i < length xs → get_elem? (xs ++ n ∷ []) i ≡ get_elem? xs i
get-append [] n i lt = absurd (omega (arith, lt))
get-append (x ∷ xs) n zero lt = refl
get-append (x ∷ xs) n (suc i) lt = get-append xs n i (omega (arith, lt))

get-last : (xs : List ℕ) (n : ℕ) → get_elem? (xs ++ n ∷ []) (length xs) ≡ some n
get-last [] n = refl
get-last (x ∷ xs) n = get-last xs n

pub get-beyond : (xs : List ℕ) (i : ℕ) → length xs ≤ i → get_elem? xs i ≡ none
get-beyond [] i le = refl
get-beyond (x ∷ xs) zero le = absurd (omega (arith, le))
get-beyond (x ∷ xs) (suc i) le = get-beyond xs i (omega (arith, le))

before-append : (xs : List ℕ) (n i : ℕ) → i ≤ length xs → before (xs ++ n ∷ []) i ≡ before xs i
before-append xs n zero le = refl
before-append xs n (suc i) le = get-append xs n i (omega (arith, le))

-- The node is new to the list.
abbrev pub IsNew : ℕ → List ℕ → Type 0
IsNew n xs = (i : ℕ) → get_elem? xs i ≢ some n

last-there : (xs : List ℕ) (y : ℕ) → (z : ℕ) × (get_elem? (y ∷ xs) (length xs) ≡ some z)
last-there [] y = (y, refl)
last-there (x ∷ xs) y = last-there xs x

module _ (l : Links) (xs : List ℕ) (n : ℕ) (w : IsList l xs) (new : IsNew n xs) where
  front-next :
      (i x : ℕ)
      → get_elem? (n ∷ xs) i ≡ some x
      → (push_front n l).next x ≡ get_elem? (n ∷ xs) (suc i)
  unfolding push_front
  front-next zero x e =
      let same : x ≡ n = ground (arith, e) in rw same (link-same n l.first l.next) ∙ w.head
  front-next (suc i) x e =
      link-other (some n) l.first l.next x (λ f. new i (e ∙ sym f)) ∙ w.next i x e

  front-prev :
      (i x : ℕ) → get_elem? (n ∷ xs) i ≡ some x → (push_front n l).prev x ≡ before (n ∷ xs) i
  unfolding push_front
  front-prev zero x e =
      let same : x ≡ n = ground (arith, e) in
      rw same (
        link-other l.first (some n) (link (some n) none l.prev) n (λ f. new 0 (sym w.head ∙ f))
        ∙ link-same n none l.prev)
  front-prev (suc zero) x e =
      let first : l.first ≡ some x = w.head ∙ e in
      rw first (link-same x (some n) (link (some n) none l.prev))
  front-prev (suc (suc i)) x e =
      link-other l.first (some n) (link (some n) none l.prev) x
        (λ f. absurd (omega (arith, w.once 0 (suc i) x (sym w.head ∙ f) e)))
      ∙ link-other (some n) none l.prev x (λ f. new (suc i) (e ∙ sym f))
      ∙ w.prev (suc i) x e

  front-once : (i j x : ℕ) → get_elem? (n ∷ xs) i ≡ some x → get_elem? (n ∷ xs) j ≡ some x → i ≡ j
  front-once zero zero x e f = refl
  front-once zero (suc j) x e f = absurd (new j (f ∙ sym e))
  front-once (suc i) zero x e f = absurd (new i (e ∙ sym f))
  front-once (suc i) (suc j) x e f = ap suc (w.once i j x e f)

front-tail :
    (l : Links) (xs : List ℕ) (n : ℕ)
    → IsList l xs
    → (push_front n l).last ≡ get_elem? (n ∷ xs) (length xs)
unfolding push_front
front-tail l [] n w = rw w.tail refl
front-tail l (y ∷ xs) n w =
    let (z, there) = last-there xs y in
    let last : l.last ≡ some z = w.tail ∙ there in rw last (sym there)

-- `push_front` puts a node that is not of the list yet before the others, as long as the number of the
-- nodes fits 32 bits.
pub push_front-IsList :
    (l : Links) (xs : List ℕ) (n : ℕ)
    → IsList l xs
    → IsNew n xs
    → length xs + 1 < 0x1_0000_0000
    → IsList (push_front n l) (n ∷ xs)
unfolding push_front
push_front-IsList l xs n w new small = record {
  head = refl;
  tail = front-tail l xs n w;
  next = front-next l xs n w new;
  prev = front-prev l xs n w new;
  once = front-once l xs n w new;
  count = omega (arith, w.count, small);
}

module _ (l : Links) (xs : List ℕ) (n : ℕ) (w : IsList l xs) (new : IsNew n xs) where
  -- Where an element of the longer list stands.
  placed :
      (i x : ℕ)
      → get_elem? (xs ++ n ∷ []) i ≡ some x
      → ((i < length xs) × (get_elem? xs i ≡ some x)) ⊎ ((i ≡ length xs) × (x ≡ n))
  placed i x e = elim (nat-cases i (length xs)) [
    | inl low ↦ inl (low, sym (get-append xs n i low) ∙ e)
    | inr high ↦ elim (nat-cases (length xs) i) [
      | inl over ↦ absurd (
          ground (
            arith,
            e,
            get-beyond (xs ++ n ∷ []) i (omega (arith, over, length-append xs (n ∷ []))),
          ))
      | inr equal ↦
          let same : i ≡ length xs = omega (arith, high, equal) in
          inr (same, ground (arith, sym e ∙ ap (get_elem? (xs ++ n ∷ [])) same ∙ get-last xs n))
    ]
  ]

  back-next :
      (i x : ℕ)
      → get_elem? (xs ++ n ∷ []) i ≡ some x
      → (push_back n l).next x ≡ get_elem? (xs ++ n ∷ []) (suc i)
  unfolding push_back
  back-next i x e = elim (placed i x e) [
    | inr (at, same) ↦
        rw (same, at)
          (link-same n none (link l.last (some n) l.next)
            ∙ sym (
                get-beyond (xs ++ n ∷ []) (suc (length xs))
                  (omega (arith, length-append xs (n ∷ [])))))
    | inl (low, there) ↦
        link-other (some n) none (link l.last (some n) l.next) x (λ f. new i (there ∙ sym f))
        ∙ (elim (nat-cases (suc i) (length xs)) [
          | inl lower ↦
              link-other l.last (some n) l.next x (λ f.
                before-once l xs (length xs) i x w there (λ g. absurd (omega (arith, g, lower)))
                  (sym w.tail ∙ f))
              ∙ w.next i x there
              ∙ sym (get-append xs n (suc i) lower)
          | inr end ↦
              let at : suc i ≡ length xs = omega (arith, low, end) in
              let last : l.last ≡ some x = w.tail ∙ ap (before xs) (sym at) ∙ there in
              rw last (link-same x (some n) l.next)
              ∙ sym (get-last xs n)
              ∙ ap (get_elem? (xs ++ n ∷ [])) (sym at)
        ])
  ]

  back-prev :
      (i x : ℕ)
      → get_elem? (xs ++ n ∷ []) i ≡ some x
      → (push_back n l).prev x ≡ before (xs ++ n ∷ []) i
  unfolding push_back
  back-prev i x e = elim (placed i x e) [
    | inr (at, same) ↦
        rw (same, at)
          (link-same n l.last l.prev ∙ w.tail ∙ sym (before-append xs n (length xs) (omega arith)))
    | inl (low, there) ↦
        link-other (some n) l.last l.prev x (λ f. new i (there ∙ sym f))
        ∙ w.prev i x there
        ∙ sym (before-append xs n i (omega (arith, low)))
  ]

  back-once :
      (i j x : ℕ)
      → get_elem? (xs ++ n ∷ []) i ≡ some x
      → get_elem? (xs ++ n ∷ []) j ≡ some x
      → i ≡ j
  back-once i j x e f = elim (placed i x e) [
    | inl (low, there) ↦ elim (placed j x f) [
      | inl (low', there') ↦ w.once i j x there there'
      | inr (at, same) ↦ absurd (new i (there ∙ ap some same))
    ]
    | inr (at, same) ↦ elim (placed j x f) [
      | inl (low', there') ↦ absurd (new j (there' ∙ ap some same))
      | inr (at', same') ↦ at ∙ sym at'
    ]
  ]

back-head :
    (l : Links) (xs : List ℕ) (n : ℕ)
    → IsList l xs
    → (push_back n l).first ≡ get_elem? (xs ++ n ∷ []) 0
unfolding push_back
back-head l [] n w = rw w.head refl
back-head l (y ∷ xs) n w = rw w.head refl

-- `push_back` puts a node that is not of the list yet behind the others, as long as the number of the
-- nodes fits 32 bits.
pub push_back-IsList :
    (l : Links) (xs : List ℕ) (n : ℕ)
    → IsList l xs
    → IsNew n xs
    → length xs + 1 < 0x1_0000_0000
    → IsList (push_back n l) (xs ++ n ∷ [])
unfolding push_back
push_back-IsList l xs n w new small =
    let size : length (xs ++ n ∷ []) ≡ suc (length xs) = omega (arith, length-append xs (n ∷ [])) in
    record {
      head = back-head l xs n w;
      tail = sym (get-last xs n) ∙ ap (before (xs ++ n ∷ [])) (sym size);
      next = back-next l xs n w new;
      prev = back-prev l xs n w new;
      once = back-once l xs n w new;
      count = omega (arith, w.count, size, small);
    }
