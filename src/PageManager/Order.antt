-- ===== src/PageManager/Order.antt =====
-- src/nvs_pagemanager.cpp: the order of the pages in use.
use sming_nvs.Prelude.{
  ℕ, ◌≤◌, ◌≡◌, ◌≢◌, refl, ap, arith, none, some, List, [], ◌∷◌, ◌++◌, ltb, get_elem?, Bool-cases,
  inl, inr,
}
use sming_nvs.Page.State.{Page, uninitialized, invalid, corrupt}
use sming_nvs.PageManager.{is_later, insert_page}

-- The sequence number of a page in use.
abbrev seq_of : List Page → ℕ → ℕ
seq_of pages i = elim (get_elem? pages i) [ none ↦ 0 | some p ↦ p.seq_number ]

-- A page that has a sequence number.
abbrev HasSeq : List Page → ℕ → Type 0
HasSeq pages i = elim (get_elem? pages i) [
  | none ↦ ⊥
  | some p ↦ (p.state ≢ uninitialized) × (p.state ≢ invalid) × (p.state ≢ corrupt)
]

-- The numbers do not fall along the list, which holds pages with a number only.
abbrev pub Ordered : List Page → List ℕ → Type 0
Ordered pages [] = Unit {0}
Ordered pages (i ∷ []) = HasSeq pages i
Ordered pages (i ∷ j ∷ js) =
    HasSeq pages i × (seq_of pages i ≤ seq_of pages j) × Ordered pages (j ∷ js)

is_later-HasSeq :
    (pages : List Page) (seq j : ℕ)
    → HasSeq pages j
    → is_later seq (get_elem? pages j) ≡ ltb seq (seq_of pages j)
unfolding is_later
is_later-HasSeq pages seq j h = ground arith

Ordered-head : (pages : List Page) (i : ℕ) (is : List ℕ) → Ordered pages (i ∷ is) → HasSeq pages i
Ordered-head pages i [] o = o
Ordered-head pages i (j ∷ js) o = o.0

insert_page-sorted :
    (pages : List Page) (i : ℕ) (js : List ℕ)
    → HasSeq pages i
    → Ordered pages js
    → Ordered pages (insert_page pages (seq_of pages i) i js)
unfolding insert_page
insert_page-sorted pages i [] h o = h
insert_page-sorted pages i (j ∷ []) h o = ground (arith, is_later-HasSeq pages (seq_of pages i) j o)
insert_page-sorted pages i (j ∷ k ∷ ks) h o = ground (
  arith,
  is_later-HasSeq pages (seq_of pages i) j o.0,
  is_later-HasSeq pages (seq_of pages i) k (Ordered-head pages k ks o.2),
  insert_page-sorted pages i (k ∷ ks) h o.2,
)

-- The page stands between the pages before it and those behind it, which are what they were.
abbrev pub Inserted : ℕ → List ℕ → List ℕ → Type 0
Inserted i js ks = (xs : List ℕ) × (ys : List ℕ) × (js ≡ xs ++ ys) × (ks ≡ xs ++ i ∷ ys)

insert_page-Inserted :
    (pages : List Page) (seq i : ℕ) (js : List ℕ) → Inserted i js (insert_page pages seq i js)
unfolding insert_page
insert_page-Inserted pages seq i [] = ([], [], refl, refl)
insert_page-Inserted pages seq i (j ∷ js) = elim (Bool-cases (is_later seq (get_elem? pages j))) [
  | inl later ↦ ([], j ∷ js, refl, rw (insert_page, later) refl)
  | inr earlier ↦
      let (xs, ys, old, new) = insert_page-Inserted pages seq i js in
      (j ∷ xs, ys, ap (λ zs. j ∷ zs) old, rw (insert_page, earlier) (ap (λ zs. j ∷ zs) new))
]

-- A page with a sequence number is put into the list, between pages that stay as they are, and the
-- numbers stay in order.
pub insert_page-Ordered :
    (pages : List Page) (i : ℕ) (js : List ℕ)
    → HasSeq pages i
    → Ordered pages js
    → Inserted i js (insert_page pages (seq_of pages i) i js)
      × Ordered pages (insert_page pages (seq_of pages i) i js)
insert_page-Ordered pages i js h o =
    (insert_page-Inserted pages (seq_of pages i) i js, insert_page-sorted pages i js h o)
