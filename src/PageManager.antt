-- ===== src/PageManager.antt =====
-- src/nvs_pagemanager.hpp and src/nvs_pagemanager.cpp: the pages of a partition, those in use in the
-- order of their sequence numbers and those that are free. The intrusive lists of pages are lists of
-- positions in the array `mPages`. Assertions are those of a build without `NDEBUG`.
pub mod Load
pub mod Totals
pub mod Order
pub mod Unused
pub mod Freed
pub mod Sums
use sming_nvs.Prelude.{
  ℕ, zero, suc, ◌+◌, ◌-◌, ◌%◌, Bool, true, false, ◌&&◌, not, Option, none, some, List, [], ◌∷◌,
  ◌++◌, M, Void, Esp, no_mem, invalid_arg, nvs_invalid_state, nvs_not_found, nvs_not_enough_space,
  nvs_no_free_pages, ok, err, abort, stuck, pure, fail, abort_call, stuck_call, assert, raise_if,
  modify, attempt, Attempt, done, failed, try, check, or_abort, gets, ◌>>=◌, ◌>>◌, ltb, leb, ◌==◌,
  if◌then◌else◌, get_elem?, set, length, replicate, u32,
}
use sming_nvs.Item.ItemType
use sming_nvs.Item.{Item, c_string}
use sming_nvs.Platform.{Platform}
use sming_nvs.Page.State.{
  Page, Store, new_page, uninitialized, active, freeing, corrupt, invalid, entry_count, ns_any,
}
use sming_nvs.Page.Header.{set_seq_number, mark_freeing, erase_page, calc_entries}
use sming_nvs.Page.Find.{Query, Found, query, no_item, find_item, erase_item}
use sming_nvs.Page.Copy.{copy_items}

-- `PageManager`, with what the pages share: the memory and the device.
pub record Manager (Dev : Type 0) : Type 0 where
  pub pages : List Page
  pub page_list : List ℕ
  pub free_page_list : List ℕ
  pub base_sector : ℕ
  pub page_count : ℕ
  pub seq_number : ℕ
  pub heap : List Bool
  pub dev : Dev

-- `mPageList.erase(it)`
abbrev pub erase_node : ℕ → List ℕ → List ℕ
erase_node i [] = []
erase_node i (j ∷ js) = if i == j then js else j ∷ erase_node i js

abbrev pub last_of : List ℕ → Option ℕ
last_of [] = none
last_of (i ∷ []) = some i
last_of (i ∷ j ∷ js) = last_of (j ∷ js)

-- `back()` of an empty list is a null reference.
module _ {Dev : Type 0} where
  abbrev pub gets_manager : {A : Type 0} → (Manager Dev → A) → M (Manager Dev) A
  gets_manager f m = (ok (f m), m)

  abbrev pub page_at : ℕ → M (Manager Dev) Page
  page_at i m = or_abort (get_elem? m.pages i) m

  -- A method of the page at a position.
  abbrev pub on_page : {A : Type 0} → ℕ → M (Store Dev) A → M (Manager Dev) A
  on_page i method m = elim (get_elem? m.pages i) [
    | none ↦ (abort, m)
    | some p ↦
        let (r, s) = method (record { page = p; heap = m.heap; dev = m.dev }) in
        (r, record m { pages = set m.pages i s.page; heap = s.heap; dev = s.dev })
  ]

  abbrev pub back : M (Manager Dev) ℕ
  back m = or_abort (last_of m.page_list) m

  -- `new (nothrow) Page[sectorCount]`
  abbrev new_pages : ℕ → M (Manager Dev) Void
  new_pages n m = elim m.heap [
    | [] ↦ (ok tt, record m { pages = replicate n new_page })
    | true ∷ rest ↦ (ok tt, record m { pages = replicate n new_page; heap = rest })
    | false ∷ rest ↦ (err no_mem, record m { heap = rest })
  ]

-- `page.getSeqNumber(otherSeqNumber) == ESP_OK && otherSeqNumber > seqNumber`
is_later : ℕ → Option Page → Bool
is_later seq none = false
is_later seq (some p) =
    not (p.state == uninitialized)
    && not (p.state == invalid)
    && not (p.state == corrupt)
    && ltb seq p.seq_number

-- A page is put before the first page with a higher sequence number.
pub insert_page : List Page → ℕ → ℕ → List ℕ → List ℕ
insert_page pages seq i [] = i ∷ []
insert_page pages seq i (j ∷ js) =
    if is_later seq (get_elem? pages j) then i ∷ j ∷ js else j ∷ insert_page pages seq i js

-- The page with the most unused entries, the first of several, and their number.
unfoldable pub max_unused : List Page → List ℕ → Option ℕ × ℕ → Option ℕ × ℕ
max_unused pages [] best = best
max_unused pages (i ∷ is) (best, most) = elim (get_elem? pages i) [
  | none ↦ max_unused pages is (best, most)
  | some p ↦
      let unused = u32 (entry_count + 0x1_0000_0000 - p.used_entry_count) in
      max_unused pages is (if ltb most unused then (some i, unused) else (best, most))
]

module _ {Dev : Type 0} ⦃P : Platform Dev⦄ where
  abbrev pub activate_page : M (Manager Dev) Void
  activate_page = do
    m ← gets_manager (λ m. m)
    elim m.free_page_list [
      | [] ↦ fail nvs_not_enough_space
      | p ∷ rest ↦ do
        page ← page_at p
        if page.state == corrupt then on_page p erase_page else pure tt
        modify (λ m. record m { free_page_list = rest; page_list = m.page_list ++ p ∷ [] })
        rc ← try (on_page p (set_seq_number m.seq_number))
        modify (λ m. record m { seq_number = u32 (m.seq_number + 1) })
    ]

  -- `err != ESP_OK && err != ESP_ERR_NVS_NOT_FOUND`
  abbrev pub unless_not_found : Option Esp → M (Manager Dev) Void
  unless_not_found none = pure tt
  unless_not_found (some nvs_not_found) = pure tt
  unless_not_found (some e) = fail e

  -- The page leaves the list in use and goes to the end of the free list.
  abbrev pub release_page : ℕ → M (Manager Dev) Void
  release_page p = modify (λ m. record m {
    page_list = erase_node p m.page_list;
    free_page_list = m.free_page_list ++ p ∷ [];
  })

  -- What is left on the page is copied to the new one, at the end of the list, and the page erased.
  abbrev pub exchange : ℕ → M (Manager Dev) Void
  exchange erased = do
    new ← back
    before ← page_at erased
    on_page erased mark_freeing
    from ← page_at erased
    unless_not_found (← try (on_page new (copy_items from)))
    on_page erased erase_page
    after ← page_at new
    assert (before.used_entry_count == after.used_entry_count)
    release_page erased

  -- With one free page left, a page in use is freed for it.
  abbrev pub free_a_page : Manager Dev → M (Manager Dev) Void
  free_a_page m = do
    let (most, unused) = max_unused m.pages m.page_list (none, 0)
    raise_if (unused == 0) nvs_not_enough_space
    erased ← or_abort most
    activate_page
    exchange erased

  abbrev pub request_new_page : M (Manager Dev) Void
  request_new_page = do
    m ← gets_manager (λ m. m)
    raise_if (length m.free_page_list == 0) nvs_invalid_state
    if leb 2 (length m.free_page_list) then activate_page else free_a_page m
