-- ===== src/Storage/Entries.antt =====
-- src/nvs_storage.cpp: `fillStats`, and the iterator over the entries: `fillEntryInfo`, `findEntry`,
-- `nextEntry`. The iterator is the one of src/nvs_storage.hpp but for its storage, which is the state.
pub mod Presents
use sming_nvs.Prelude.{
  ℕ, zero, suc, ◌+◌, Bool, true, false, ◌&&◌, ◌||◌, not, Option, none, some, List, [], ◌∷◌, M,
  Outcome, ok, err, Void, Esp, nvs_not_found, pure, stuck_call, abort_call, attempt, failed, done,
  ◌>>=◌, ◌==◌, if◌then◌else◌, length, take,
}
use sming_nvs.Item.ItemType
use sming_nvs.Item.{Item, c_string, ver_0_offset, ver_1_offset}
use sming_nvs.Platform.{Platform}
use sming_nvs.Page.State.{ns_any}
use sming_nvs.Page.Header.{Stats}
use sming_nvs.Page.Find.{query, no_item}
use sming_nvs.Page.Find
use sming_nvs.PageManager.Totals
use sming_nvs.Storage.State.{Storage, NamespaceEntry, gets_storage, at_page, page_list}
use sming_nvs.Storage.Namespaces.{create_or_open_namespace}

-- `err == ESP_ERR_NVS_NOT_FOUND`
abbrev is_not_found : Esp → Bool
is_not_found nvs_not_found = true
is_not_found _ = false

-- `nvs_entry_info_t`, with its strings.
pub record EntryInfo : Type 0 where
  pub namespace_name : List ℕ
  pub key : List ℕ
  pub datatype : ℕ

-- `nvs_opaque_iterator_t`. `page` is the position of a page in use, or the end of the list.
pub record Iterator : Type 0 where
  pub datatype : ℕ
  pub ns_index : ℕ
  pub entry_index : ℕ
  pub page : Option ℕ
  pub entry_info : EntryInfo

-- The loop of `fillEntryInfo`. Without such a namespace the old name stays.
abbrev namespace_of : List NamespaceEntry → ℕ → List ℕ → List ℕ
namespace_of [] ns_index old = old
namespace_of (e ∷ es) ns_index old =
    if ns_index == e.index then e.name else namespace_of es ns_index old

abbrev fill_entry_info : List NamespaceEntry → Item → EntryInfo → EntryInfo
fill_entry_info namespaces item info = record {
  namespace_name = namespace_of namespaces item.ns_index info.namespace_name;
  key = c_string (take 16 item.key);
  datatype = item.datatype;
}

-- What `nextEntry` leaves in the iterator where it has found an entry.
abbrev show_item : List NamespaceEntry → ℕ → Item → Iterator → Iterator
show_item namespaces page item it = record it {
  page = some page;
  entry_info = fill_entry_info namespaces item it.entry_info;
}

abbrev is_iterable_item : Item → Bool
is_iterable_item item =
    not (item.ns_index == 0)
    && not (item.datatype == ItemType.blob)
    && not (item.datatype == ItemType.blob_idx)

abbrev is_multipage_blob : Item → Bool
is_multipage_blob item =
    item.datatype == ItemType.blob_data
    && not (item.chunk_index == ver_0_offset || item.chunk_index == ver_1_offset)

-- The pages from a position on. A page that is no longer in the list leads to none.
abbrev pages_from : Option ℕ → List ℕ → List ℕ
pages_from none is = []
pages_from (some i) [] = []
pages_from (some i) (j ∷ js) = if i == j then j ∷ js else pages_from (some i) js

abbrev first_page : List ℕ → Option ℕ
first_page [] = none
first_page (i ∷ is) = some i

module _ {Dev : Type 0} where
  -- The result is the code; the totals are changed either way.
  pub fill_stats : Storage Dev → M Stats Void
  fill_stats s stats =
      Totals.fill_stats s.manager (record stats { namespace_count = length s.namespaces })

module _ {Dev : Type 0} ⦃P : Platform Dev⦄ where
  -- The `do` loop of `nextEntry` on a page. It runs out of fuel where an item has a span of 0 and
  -- where a search fails again and again.
  unfoldable pub next_on : ℕ → ℕ → Item → Iterator → M (Storage Dev) (Bool × Item × Iterator)
  next_on page zero item it = stuck_call
  next_on page (suc fuel) item it = do
    r ← at_page page (Find.find_item (query it.ns_index it.datatype none) it.entry_index item)
    let further : Iterator = record it { entry_index = r.index + r.item.span }
    namespaces ← gets_storage (λ s. s.namespaces)
    elim r.code [
      | none ↦ elim (is_iterable_item r.item && not (is_multipage_blob r.item)) [
        | false ↦ next_on page fuel r.item further
        | true ↦ pure (true, r.item, show_item namespaces page r.item further)
      ]
      | some e ↦ elim (is_not_found e) [
        | true ↦ pure (false, r.item, further)
        | false ↦ next_on page fuel r.item further
      ]
    ]

  -- The loop of `nextEntry` over the pages.
  unfoldable pub next_in : List ℕ → Item → Iterator → M (Storage Dev) (Bool × Iterator)
  next_in [] item it = pure (false, it)
  next_in (i ∷ is) item it = do
    r ← next_on i 127 item it
    elim r.0 [ true ↦ pure (true, r.2) | false ↦ next_in is r.1 (record r.2 { entry_index = 0 }) ]

  unfoldable pub next_entry : Iterator → M (Storage Dev) (Bool × Iterator)
  next_entry it = do pages ← page_list; next_in (pages_from it.page pages) no_item it

  pub find_entry : Option (List ℕ) → Iterator → M (Storage Dev) (Bool × Iterator)
  find_entry namespace_name it = do
    pages ← page_list
    let started : Iterator = record it {
      entry_index = 0;
      ns_index = ns_any;
      page = first_page pages;
    }
    elim namespace_name [
      | none ↦ next_entry started
      | some name ↦ do
        index ← attempt (create_or_open_namespace name false)
        elim index [
          | failed e ↦ pure (false, started)
          | done ns ↦ next_entry (record started { ns_index = ns })
        ]
    ]
