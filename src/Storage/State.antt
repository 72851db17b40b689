-- ===== src/Storage/State.antt =====
-- src/nvs_storage.hpp: the members of `Storage`, and the way down to its pages.
use sming_nvs.Prelude.{
  ℕ, Bool, true, Option, none, some, List, [], ◌∷◌, M, Esp, nvs_not_found, ok, pure, ◌>>=◌,
}
use sming_nvs.EnumTable.{Shape}
use sming_nvs.Item.{Item}
use sming_nvs.Platform.{Platform}
use sming_nvs.Page.State.{Page, Store}
use sming_nvs.Page.Find.{Query, Found}
use sming_nvs.Page.Find
use sming_nvs.PageManager.{Manager, on_page, page_at, back}

-- `NamespaceEntry`
pub record NamespaceEntry : Type 0 where
  pub name : List ℕ
  pub index : ℕ

-- `BlobIndexNode`
pub record BlobIndexNode : Type 0 where
  pub key : List ℕ
  pub ns_index : ℕ
  pub chunk_count : ℕ
  pub chunk_start : ℕ

-- `StorageState`
pub data StorageState : Type 0 where
  storage_invalid storage_active : StorageState

-- `CompressedEnumTable<bool, 1, 256>`
abbrev pub usage_shape : Shape
usage_shape = record { nbits = 1; nitems = 256 }

pub record Storage (Dev : Type 0) : Type 0 where
  pub manager : Manager Dev
  pub namespaces : List NamespaceEntry
  pub namespace_usage : List ℕ
  pub state : StorageState

module _ {Dev : Type 0} where
  abbrev pub on_manager : {A : Type 0} → M (Manager Dev) A → M (Storage Dev) A
  on_manager f s = let (r, m) = f s.manager in (r, record s { manager = m })

  abbrev pub gets_storage : {A : Type 0} → (Storage Dev → A) → M (Storage Dev) A
  gets_storage f s = (ok (f s), s)

  -- A method of the page at a position, and a look at that page.
  abbrev pub at_page : {A : Type 0} → ℕ → M (Store Dev) A → M (Storage Dev) A
  at_page i method = on_manager (on_page i method)

  abbrev pub look_at : ℕ → M (Storage Dev) Page
  look_at i = on_manager (page_at i)

  -- `getCurrentPage()`
  abbrev pub current_page : M (Storage Dev) ℕ
  current_page = on_manager back

  abbrev pub page_list : M (Storage Dev) (List ℕ)
  page_list = gets_storage (λ s. s.manager.page_list)

  -- `new (std::nothrow)`
  abbrev pub request_memory : M (Storage Dev) Bool
  request_memory s = elim s.manager.heap [
    | [] ↦ (ok true, s)
    | granted ∷ rest ↦ (ok granted, record s { manager = record s.manager { heap = rest } })
  ]

-- What `findItem` gives: its code, and the page and the item that it sets. The page stays null
-- where the item is not found.
pub record Located : Type 0 where
  pub code : Option Esp
  pub page : Option ℕ
  pub item : Item

module _ {Dev : Type 0} ⦃P : Platform Dev⦄ where
  -- The loop of `findItem` over the pages.
  abbrev find_in : Query → Item → List ℕ → M (Storage Dev) Located
  find_in q item [] = pure (record { code = some nvs_not_found; page = none; item = item })
  find_in q item (i ∷ is) = do
    r ← at_page i (Find.find_item q 0 item)
    elim r.code [
      | none ↦ pure (record { code = none; page = some i; item = r.item })
      | some _ ↦ find_in q r.item is
    ]

  unfoldable pub find_item : Query → Item → M (Storage Dev) Located
  find_item q item = do find_in q item (← page_list)
