-- ===== src/PageManager/Totals.antt =====
-- src/nvs_pagemanager.cpp: `fillStats`.
use sming_nvs.Prelude.{
  ℕ, ◌+◌, ◌*◌, List, [], ◌∷◌, M, Void, pure, modify, or_abort, ◌>>=◌, ◌>>◌, length, get_elem?,
}
use sming_nvs.Page.State.{Page, entry_count}
use sming_nvs.Page.Header.{Stats, calc_entries}
use sming_nvs.PageManager.{Manager}

-- The loop over the pages in use.
unfoldable pub count_pages : List Page → List ℕ → M Stats Void
count_pages pages [] = pure tt
count_pages pages (i ∷ is) = do
  p ← or_abort (get_elem? pages i)
  calc_entries p
  count_pages pages is

unfoldable pub fill_stats : {Dev : Type 0} → Manager Dev → M Stats Void
fill_stats m = do
  modify (λ s. record s { used_entries = 0; free_entries = 0; total_entries = 0 })
  count_pages m.pages m.page_list
  modify (λ s. record s {
    total_entries = s.total_entries + length m.free_page_list * entry_count;
    free_entries = s.free_entries + length m.free_page_list * entry_count;
  })
