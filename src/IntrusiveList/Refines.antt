-- ===== src/IntrusiveList/Refines.antt =====
-- src/intrusive_list.h: the nodes and their pointers stand for a list.
use sming_nvs.Prelude.{
  ℕ, zero, suc, ◌<◌, ◌≤◌, ◌≡◌, ◌≢◌, ◌⊎◌, refl, sym, ap, ◌∙◌, inl, inr, arith, true, Option, none,
  some, List, [], ◌∷◌, ◌==◌, length, get_elem?, Bool-cases, Option-cases,
}
use sming_nvs.IntrusiveList.{Links, link, erase}

-- The element before a position.
abbrev pub before : List ℕ → ℕ → Option ℕ
before xs zero = none
before xs (suc i) = get_elem? xs i

-- The nodes of the list are `xs`, from the first to the last, each of them once.
pub record IsList (l : Links) (xs : List ℕ) : Type 0 where
  pub head : l.first ≡ get_elem? xs 0
  pub tail : l.last ≡ before xs (length xs)
  pub next : (i x : ℕ) → get_elem? xs i ≡ some x → l.next x ≡ get_elem? xs (suc i)
  pub prev : (i x : ℕ) → get_elem? xs i ≡ some x → l.prev x ≡ before xs i
  pub once : (i j x : ℕ) → get_elem? xs i ≡ some x → get_elem? xs j ≡ some x → i ≡ j
  pub count : l.size ≡ length xs

abbrev pub remove : ℕ → List ℕ → List ℕ
remove i [] = []
remove zero (x ∷ xs) = xs
remove (suc i) (x ∷ xs) = x ∷ remove i xs

pub nat-cases : (i k : ℕ) → (i < k) ⊎ (k ≤ i)
nat-cases i k = ground arith

remove_below : (k i : ℕ) (xs : List ℕ) → i < k → get_elem? (remove k xs) i ≡ get_elem? xs i
remove_below k i [] lt = refl
remove_below zero i (x ∷ xs) lt = absurd (omega (arith, lt))
remove_below (suc k) zero (x ∷ xs) lt = refl
remove_below (suc k) (suc i) (x ∷ xs) lt = remove_below k i xs (omega (arith, lt))

remove_from : (k i : ℕ) (xs : List ℕ) → k ≤ i → get_elem? (remove k xs) i ≡ get_elem? xs (suc i)
remove_from k i [] le = refl
remove_from zero i (x ∷ xs) le = refl
remove_from (suc k) zero (x ∷ xs) le = absurd (omega (arith, le))
remove_from (suc k) (suc i) (x ∷ xs) le = remove_from k i xs (omega (arith, le))

length-remove :
    (k x : ℕ) (xs : List ℕ) → get_elem? xs k ≡ some x → suc (length (remove k xs)) ≡ length xs
length-remove k x [] e = absurd (ground (arith, e))
length-remove zero x (y ∷ xs) e = refl
length-remove (suc k) x (y ∷ xs) e = ap suc (length-remove k x xs e)

before-remove : (k i : ℕ) (xs : List ℕ) → i ≤ k → before (remove k xs) i ≡ before xs i
before-remove k zero xs le = refl
before-remove k (suc i) xs le = remove_below k i xs (omega (arith, le))

before-remove_above : (k i : ℕ) (xs : List ℕ) → k < i → before (remove k xs) i ≡ before xs (suc i)
before-remove_above k zero xs lt = absurd (omega (arith, lt))
before-remove_above k (suc i) xs lt = remove_from k i xs (omega (arith, lt))

some-below : (xs : List ℕ) (i x : ℕ) → get_elem? xs i ≡ some x → i < length xs
some-below [] i x e = absurd (ground (arith, e))
some-below (y ∷ xs) zero x e = omega arith
some-below (y ∷ xs) (suc i) x e = omega (arith, some-below xs i x e)

pub none-above : (xs : List ℕ) (i : ℕ) → get_elem? xs i ≡ none → length xs ≤ i
none-above [] i e = omega arith
none-above (y ∷ xs) zero e = absurd (ground (arith, e))
none-above (y ∷ xs) (suc i) e = omega (arith, none-above xs i e)

previous :
    (xs : List ℕ) (i x : ℕ) → get_elem? xs (suc i) ≡ some x → (y : ℕ) × (get_elem? xs i ≡ some y)
previous [] i x e = absurd (ground (arith, e))
previous (y ∷ xs) zero x e = (y, refl)
previous (y ∷ xs) (suc i) x e = previous xs i x e

pub link-same :
    (t : ℕ) (target : Option ℕ) (links : ℕ → Option ℕ) → link (some t) target links t ≡ target
link-same t target links = let same : (t == t) ≡ true = ground arith in rw same refl

pub link-other :
    (node target : Option ℕ) (links : ℕ → Option ℕ) (x : ℕ)
    → node ≢ some x
    → link node target links x ≡ links x
link-other none target links x other = refl
link-other (some t) target links x other = elim (Bool-cases (x == t)) [
  | inl same ↦ absurd (other (ap some (ground (arith, same))))
  | inr apart ↦ rw apart refl
]

pub before-once :
    (l : Links) (xs : List ℕ) (k j y : ℕ)
    → IsList l xs
    → get_elem? xs j ≡ some y
    → suc j ≢ k
    → before xs k ≢ some y
before-once l xs zero j y w here apart e = ground (arith, e)
before-once l xs (suc i) j y w here apart e = apart (ap suc (w.once j i y here e))

module _ (l : Links) (xs : List ℕ) (w : IsList l xs) (k x : ℕ) (at : get_elem? xs k ≡ some x) where
  next-kept :
      (j y : ℕ)
      → get_elem? xs j ≡ some y
      → suc j ≢ k
      → link (l.prev x) (l.next x) l.next y ≡ get_elem? xs (suc j)
  next-kept j y here apart =
      link-other (l.prev x) (l.next x) l.next y
        (λ e. before-once l xs k j y w here apart (sym (w.prev k x at) ∙ e))
      ∙ w.next j y here

  next-past :
      (j y : ℕ)
      → get_elem? xs j ≡ some y
      → suc j ≡ k
      → link (l.prev x) (l.next x) l.next y ≡ get_elem? xs (suc k)
  next-past j y here same =
      let p : l.prev x ≡ some y = w.prev k x at ∙ sym (ap (before xs) same) ∙ here in
      rw p (link-same y (l.next x) l.next) ∙ w.next k x at

  prev-kept :
      (j y : ℕ)
      → get_elem? xs j ≡ some y
      → j ≢ suc k
      → link (l.next x) (l.prev x) l.prev y ≡ before xs j
  prev-kept j y here apart =
      link-other (l.next x) (l.prev x) l.prev y
        (λ e. apart (w.once j (suc k) y here (sym (w.next k x at) ∙ e)))
      ∙ w.prev j y here

  prev-past :
      (j y : ℕ)
      → get_elem? xs j ≡ some y
      → j ≡ suc k
      → link (l.next x) (l.prev x) l.prev y ≡ before xs k
  prev-past j y here same =
      let n : l.next x ≡ some y = w.next k x at ∙ sym (ap (get_elem? xs) same) ∙ here in
      rw n (link-same y (l.prev x) l.prev) ∙ w.prev k x at

  erase-next :
      (i y : ℕ)
      → get_elem? (remove k xs) i ≡ some y
      → (erase x l).next y ≡ get_elem? (remove k xs) (suc i)
  unfolding erase
  erase-next i y e = elim (nat-cases i k) [
    | inl below ↦ elim (nat-cases (suc i) k) [
      | inl lower ↦
          next-kept i y (sym (remove_below k i xs below) ∙ e) (omega (arith, lower))
          ∙ sym (remove_below k (suc i) xs lower)
      | inr high ↦
          let same : suc i ≡ k = omega (arith, below, high) in
          next-past i y (sym (remove_below k i xs below) ∙ e) same
          ∙ sym (remove_from k k xs (omega arith))
          ∙ ap (get_elem? (remove k xs)) (sym same)
    ]
    | inr above ↦
        next-kept (suc i) y (sym (remove_from k i xs above) ∙ e) (omega (arith, above))
        ∙ sym (remove_from k (suc i) xs (omega (arith, above)))
  ]

  erase-prev :
      (i y : ℕ) → get_elem? (remove k xs) i ≡ some y → (erase x l).prev y ≡ before (remove k xs) i
  unfolding erase
  erase-prev i y e = elim (nat-cases i k) [
    | inl below ↦
        prev-kept i y (sym (remove_below k i xs below) ∙ e) (omega (arith, below))
        ∙ sym (before-remove k i xs (omega (arith, below)))
    | inr above ↦ elim (nat-cases k i) [
      | inl higher ↦
          prev-kept (suc i) y (sym (remove_from k i xs above) ∙ e) (omega (arith, higher))
          ∙ sym (before-remove_above k i xs higher)
      | inr low ↦
          let same : i ≡ k = omega (arith, above, low) in
          prev-past (suc i) y (sym (remove_from k i xs above) ∙ e) (ap suc same)
          ∙ sym (before-remove k k xs (omega arith))
          ∙ ap (before (remove k xs)) (sym same)
    ]
  ]

  erase-once :
      (i j y : ℕ) → get_elem? (remove k xs) i ≡ some y → get_elem? (remove k xs) j ≡ some y → i ≡ j
  erase-once i j y e f = elim (nat-cases i k) [
    | inl low ↦ elim (nat-cases j k) [
      | inl low' ↦
          w.once i j y (sym (remove_below k i xs low) ∙ e) (sym (remove_below k j xs low') ∙ f)
      | inr high' ↦ omega (
        arith,
        low,
        high',
        w.once i (suc j) y (sym (remove_below k i xs low) ∙ e) (sym (remove_from k j xs high') ∙ f),
      )
    ]
    | inr high ↦ elim (nat-cases j k) [
      | inl low' ↦ omega (
        arith,
        high,
        low',
        w.once (suc i) j y (sym (remove_from k i xs high) ∙ e) (sym (remove_below k j xs low') ∙ f),
      )
      | inr high' ↦ omega (
        arith,
        w.once (suc i) (suc j) y (sym (remove_from k i xs high) ∙ e)
            (sym (remove_from k j xs high') ∙ f),
      )
    ]
  ]

  erase-tail : (erase x l).last ≡ before (remove k xs) (length (remove k xs))
  unfolding erase
  erase-tail = elim (Option-cases (get_elem? xs (suc k))) [
    | inl end ↦
        let n : l.next x ≡ none = w.next k x at ∙ end in
        let len : length (remove k xs) ≡ k =
          omega (arith, length-remove k x xs at, some-below xs k x at, none-above xs (suc k) end) in
        rw (n, len) (w.prev k x at ∙ sym (before-remove k k xs (omega arith)))
    | inr (y, more) ↦
        let n : l.next x ≡ some y = w.next k x at ∙ more in
        let len = length-remove k x xs at in
        rw n (
          w.tail
          ∙ ap (before xs) (sym len)
          ∙ sym (
              before-remove_above k (length (remove k xs)) xs
                (omega (arith, len, some-below xs (suc k) y more))))
  ]

erase-head :
    (l : Links) (xs : List ℕ) (k x : ℕ)
    → IsList l xs
    → get_elem? xs k ≡ some x
    → (erase x l).first ≡ get_elem? (remove k xs) 0
unfolding erase
erase-head l xs zero x w at =
    let p : l.prev x ≡ none = w.prev 0 x at in
    rw p (w.next 0 x at ∙ sym (remove_from 0 0 xs (omega arith)))
erase-head l xs (suc k) x w at =
    let (y, there) = previous xs k x at in
    let p : l.prev x ≡ some y = w.prev (suc k) x at ∙ there in
    rw p (w.head ∙ sym (remove_below (suc k) 0 xs (omega arith)))

erase-size :
    (l : Links) (xs : List ℕ) (k x : ℕ)
    → IsList l xs
    → get_elem? xs k ≡ some x
    → length xs < 0x1_0000_0000
    → (erase x l).size ≡ length (remove k xs)
unfolding erase
erase-size l xs k x w at small = omega (arith, w.count, length-remove k x xs at, small)

-- `erase` of a node of the list, at whatever position, takes exactly that node out: the others stay in
-- their order, with the pointers and the size of a list, of less than 2 ^ 32 nodes.
pub erase-IsList :
    (l : Links) (xs : List ℕ) (k x : ℕ)
    → IsList l xs
    → get_elem? xs k ≡ some x
    → length xs < 0x1_0000_0000
    → IsList (erase x l) (remove k xs)
erase-IsList l xs k x w at small = record {
  head = erase-head l xs k x w at;
  tail = erase-tail l xs w k x at;
  next = erase-next l xs w k x at;
  prev = erase-prev l xs w k x at;
  once = erase-once l xs w k x at;
  count = erase-size l xs k x w at small;
}
