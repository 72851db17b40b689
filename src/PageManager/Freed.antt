-- ===== src/PageManager/Freed.antt =====
-- src/nvs_pagemanager.cpp: which page `requestNewPage` frees, and what becomes of the two lists.
use sming_nvs.Prelude.{ℕ, ◌≡◌, List, [], ◌∷◌, ◌++◌, ◌>>=◌}
use sming_nvs.Prelude.Preserves.{Preserves}
use sming_nvs.Platform.{Platform}
use sming_nvs.Page.State.{Page}
use sming_nvs.PageManager.{Manager, erase_node}
use sming_nvs.PageManager.Unused.{HasMost}

-- What `requestNewPage` does to the two lists of `m`: the last free page goes to the end of those in
-- use, and a page with most unused entries of those that were in use is the only free one.
pub record Frees {Dev : Type 0} (m : Manager Dev) (spare : ℕ) (t : Manager Dev) : Type 0 where
  pub freed : ℕ
  pub has_most : HasMost m.pages m.page_list freed
  pub in_use : t.page_list ≡ erase_node freed (m.page_list ++ spare ∷ [])
  pub free : t.free_page_list ≡ freed ∷ []

module _ {Dev : Type 0} where
  -- The two lists of pages.
  abbrev Lists : List ℕ → List ℕ → Manager Dev → Type 0
  Lists in_use free t = (t.page_list ≡ in_use) × (t.free_page_list ≡ free)
