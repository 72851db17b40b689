-- ===== src/PageManager/Load.antt =====
-- src/nvs_pagemanager.cpp: `load`, which finds the pages of a partition and finishes what a power
-- failure interrupted.
use sming_nvs.Prelude.{
  ℕ, zero, suc, ◌+◌, Bool, true, false, ◌&&◌, not, Option, none, some, List, [], ◌∷◌, ◌++◌, M, Void,
  invalid_arg, nvs_no_free_pages, pure, fail, abort_call, stuck_call, raise_if, modify, attempt,
  done, failed, try, ◌>>=◌, ◌>>◌, ◌==◌, if◌then◌else◌, u32,
}
use sming_nvs.Item.ItemType
use sming_nvs.Item.{Item, c_string}
use sming_nvs.Platform.{Platform}
use sming_nvs.Page.State.{active, freeing, ns_any}
use sming_nvs.Page.Header.{get_seq_number, erase_page}
use sming_nvs.Page.Find.{Query, query, no_item, find_item, erase_item}
use sming_nvs.Page.Copy.{copy_items}
use sming_nvs.Page.Load
use sming_nvs.PageManager.{
  Manager, gets_manager, page_at, on_page, back, new_pages, insert_page, activate_page,
  unless_not_found, release_page,
}

module _ {Dev : Type 0} ⦃P : Platform Dev⦄ where
  -- The loop over the sectors, the `n` from position `i` on.
  abbrev load_pages : ℕ → ℕ → M (Manager Dev) Void
  load_pages zero i = pure tt
  load_pages (suc n) i = do
    m ← gets_manager (λ m. m)
    on_page i (Load.load true (m.base_sector + i))
    seq ← attempt (on_page i get_seq_number)
    elim seq [
      | failed _ ↦ modify (λ m. record m { free_page_list = m.free_page_list ++ i ∷ [] })
      | done number ↦
          modify (λ m. record m { page_list = insert_page m.pages number i m.page_list })
    ]
    load_pages n (i + 1)

  -- The search for the last item of a page: `item`, and whether one was found. It runs out of
  -- fuel where an item has a span of 0.
  abbrev last_item : ℕ → ℕ → ℕ → Item × Bool → M (Manager Dev) (Item × Bool)
  last_item page zero index last = stuck_call
  last_item page (suc fuel) index (item, found) = do
    r ← on_page page (find_item (query ns_any ItemType.any none) index item)
    elim r.code [
      | some _ ↦ pure (r.item, found)
      | none ↦ last_item page fuel (r.index + r.item.span) (r.item, true)
    ]

  -- `it->eraseItem(...)` on the pages before `last` that are not being freed, up to the first
  -- success; whether there was one.
  abbrev erase_before : ℕ → Query → List ℕ → M (Manager Dev) Bool
  erase_before last q [] = pure false
  erase_before last q (i ∷ is) = elim (i == last) [
    | true ↦ pure false
    | false ↦ do
      p ← page_at i
      rc ←
          (if p.state == freeing
            then pure (some nvs_no_free_pages)
            else try (on_page i (erase_item q)))
      elim rc [ none ↦ pure true | some _ ↦ erase_before last q is ]
  ]

  -- "if power went out after a new item for the given key was written, but before the old one was
  -- erased, we end up with a duplicate item"
  abbrev erase_duplicate : M (Manager Dev) Void
  erase_duplicate = do
    last_page ← back
    (item, found) ← last_item last_page 127 0 (no_item, false)
    elim found [
      | false ↦ pure tt
      | true ↦ do
        m ← gets_manager (λ m. m)
        let q : Query = record {
          ns_index = item.ns_index;
          datatype = item.datatype;
          key = some (c_string item.key);
          chunk_idx = item.chunk_index;
          chunk_start = 0xff;
        }
        erased ← erase_before last_page q m.page_list
        if not erased && item.datatype == ItemType.blob_idx
            then (do
              again ← erase_before last_page (record q { datatype = ItemType.blob }) m.page_list
              pure tt)
            else pure tt
    ]

  -- The first page of the list that is being freed.
  abbrev find_freeing : List ℕ → M (Manager Dev) (Option ℕ)
  find_freeing [] = pure none
  find_freeing (i ∷ is) = do
    p ← page_at i
    if p.state == freeing then pure (some i) else find_freeing is

  -- "check if power went out while page was being freed"
  abbrev finish_freeing : M (Manager Dev) Void
  finish_freeing = do
    m ← gets_manager (λ m. m)
    it ← find_freeing m.page_list
    elim it [
      | none ↦ pure tt
      | some it ↦ do
        last ← back
        p ← page_at last
        if p.state == active then (on_page last erase_page >> release_page last) else pure tt
        activate_page
        new ← back
        from ← page_at it
        unless_not_found (← try (on_page new (copy_items from)))
        on_page it erase_page
        release_page it
    ]

  -- The sequence number behind the last page's.
  abbrev continue_numbers : M (Manager Dev) Void
  continue_numbers = do
    last ← back
    seq ← attempt (on_page last get_seq_number)
    elim seq [
      | failed _ ↦ abort_call
      | done number ↦ modify (λ m. record m { seq_number = u32 (number + 1) })
    ]

  abbrev pub load : Bool → ℕ → ℕ → M (Manager Dev) Void
  load has_partition base_sector sector_count = do
    raise_if (not has_partition) invalid_arg
    modify (λ m. record m {
      base_sector = base_sector;
      page_count = sector_count;
      page_list = [];
      free_page_list = [];
    })
    new_pages sector_count
    load_pages sector_count 0
    m ← gets_manager (λ m. m)
    elim m.page_list [
      | [] ↦ do modify (λ m. record m { seq_number = 0 }); activate_page
      | _ ∷ _ ↦ do
        continue_numbers
        erase_duplicate
        finish_freeing
        m ← gets_manager (λ m. m)
        elim m.free_page_list [ [] ↦ fail nvs_no_free_pages | _ ∷ _ ↦ pure tt ]
    ]
