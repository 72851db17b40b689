-- ===== src/PageManager/Unused.antt =====
-- src/nvs_pagemanager.cpp: the search of `requestNewPage` for the page that it gives up.
use sming_nvs.Prelude.{
  ℕ, ◌+◌, ◌-◌, ◌≡◌, ◌≤◌, ◌<◌, refl, arith, false, Bool-cases, Option, Option-cases, none, some,
  List, [], ◌∷◌, get_elem?, u32, zero, suc, ◌⊎◌, inl, inr, ltb, ◌==◌,
}
use sming_nvs.Page.State.{Page, entry_count}
use sming_nvs.PageManager.{max_unused}

-- The unused entries of a page, `ENTRY_COUNT - getUsedEntryCount()`.
abbrev unused_of : Page → ℕ
unused_of p = u32 (entry_count + 0x1_0000_0000 - p.used_entry_count)

-- The unused entries of the page at a position.
abbrev pub unused_at : List Page → ℕ → ℕ
unused_at pages i = elim (get_elem? pages i) [ none ↦ 0 | some p ↦ unused_of p ]

-- A number that is reached by the page beside it, unless it is 0.
abbrev pub Reached : List Page → Option ℕ → ℕ → Type 0
Reached pages best most = (most ≡ 0) ⊎ (elim best [ none ↦ ⊥ | some i ↦ unused_at pages i ≡ most ])

behind :
    (j : ℕ) (js : List ℕ) (best : Option ℕ) (i : ℕ)
    → (best ≡ some i) ⊎ ((k : ℕ) × (get_elem? js k ≡ some i))
    → (best ≡ some i) ⊎ ((k : ℕ) × (get_elem? (j ∷ js) k ≡ some i))
behind j js best i (inl e) = inl e
behind j js best i (inr (k, e)) = inr (suc k, e)

module _ (pages : List Page) where
  max_unused-start :
      (is : List ℕ) (best : Option ℕ) (most : ℕ) → most ≤ (max_unused pages is (best, most)).1
  unfolding max_unused
  max_unused-start [] best most = ground arith
  max_unused-start (j ∷ js) best most =
      ground
        (arith, max_unused-start js best most, max_unused-start js (some j) (unused_at pages j))

  max_unused-bound :
      (is : List ℕ) (best : Option ℕ) (most k i : ℕ)
      → get_elem? is k ≡ some i
      → unused_at pages i ≤ (max_unused pages is (best, most)).1
  unfolding max_unused
  max_unused-bound [] best most k i e = absurd (ground (arith, e))
  max_unused-bound (j ∷ js) best most zero i e =
      ground
        (arith, e, max_unused-start js best most, max_unused-start js (some j) (unused_at pages j))
  max_unused-bound (j ∷ js) best most (suc k) i e = ground (
    arith,
    max_unused-bound js best most k i e,
    max_unused-bound js (some j) (unused_at pages j) k i e,
  )

  max_unused-Reached :
      (is : List ℕ) (best : Option ℕ) (most : ℕ)
      → Reached pages best most
      → let found = max_unused pages is (best, most) in Reached pages found.0 found.1
  unfolding max_unused
  max_unused-Reached [] best most r = r
  max_unused-Reached (j ∷ js) best most r = ground (
    arith,
    r,
    max_unused-Reached js best most,
    max_unused-Reached js (some j) (unused_at pages j),
  )

  -- The page is one of the list, unless it was there before.
  max_unused-listed :
      (is : List ℕ) (best : Option ℕ) (most i : ℕ)
      → (max_unused pages is (best, most)).0 ≡ some i
      → (best ≡ some i) ⊎ ((k : ℕ) × (get_elem? is k ≡ some i))
  unfolding max_unused
  max_unused-listed [] best most i e = inl e
  max_unused-listed (j ∷ js) best most i e = elim (Option-cases (get_elem? pages j)) [
    | inl none_there ↦
        behind j js best i (max_unused-listed js best most i (ground (arith, e, none_there)))
    | inr (p, there) ↦ elim (Bool-cases (ltb most (unused_of p))) [
      | inl more ↦
          elim (max_unused-listed js (some j) (unused_of p) i (ground (arith, e, there, more))) [
            | inl this ↦ inr (0, this)
            | inr (k, at) ↦ inr (suc k, at)
          ]
      | inr less ↦
          behind j js best i (max_unused-listed js best most i (ground (arith, e, there, less)))
    ]
  ]

-- What the code looks for: a page in use with unused entries, and none in use has more of them.
pub record HasMost (pages : List Page) (in_use : List ℕ) (i : ℕ) : Type 0 where
  pub place : ℕ
  pub listed : get_elem? in_use place ≡ some i
  pub some_unused : 0 < unused_at pages i
  pub most : (k j : ℕ) → get_elem? in_use k ≡ some j → unused_at pages j ≤ unused_at pages i

pub max_unused-HasMost :
    (pages : List Page) (in_use : List ℕ) (i : ℕ)
    → let found = max_unused pages in_use (none, 0) in
      (found.1 == 0) ≡ false → found.0 ≡ some i → HasMost pages in_use i
max_unused-HasMost pages in_use i positive picked =
    let reached = max_unused-Reached pages in_use none 0 (inl refl) in
    let same : unused_at pages i ≡ (max_unused pages in_use (none, 0)).1 =
      ground (arith, reached, positive, picked) in
    let (k, at) : (k : ℕ) × (get_elem? in_use k ≡ some i) =
      elim (max_unused-listed pages in_use none 0 i picked) [
        | inl nothing ↦ absurd (ground (arith, nothing))
        | inr listed ↦ listed
      ] in
    record {
      place = k;
      listed = at;
      some_unused = ground (arith, same, positive);
      most = λ n j e. ground (arith, same, max_unused-bound pages in_use none 0 n j e);
    }
