-- ===== src/Storage/Entries/Presents.antt =====
-- src/nvs_storage.cpp: what an entry that `nextEntry` or `findEntry` gives stands for.
use sming_nvs.Prelude.{ℕ, ◌≡◌, Bool, true, false, none, some, get_elem?, ◌+◌, take}
use sming_nvs.Item.{Item, calculate_crc32, c_string}
use sming_nvs.Platform.{Platform}
use sming_nvs.Page.State.{Page, Store}
use sming_nvs.Page.Find.{query}
use sming_nvs.Page.Answers.{Answers, StandsAt}
use sming_nvs.Storage.State.{Storage}
use sming_nvs.Storage.Entries.{Iterator, is_iterable_item, is_multipage_blob}

module _ {Dev : Type 0} where
  -- A page of the storage, with what its methods work on.
  abbrev store_of : Storage Dev → Page → Store Dev
  store_of t p = record { page = p; heap = t.manager.heap; dev = t.manager.dev }

  -- What holds of the page at a position.
  abbrev AtPage : ℕ → (Store Dev → Type 0) → Storage Dev → Type 0
  AtPage i Post t = (p : Page) × (get_elem? t.manager.pages i ≡ some p) × Post (store_of t p)

-- What `fillEntryInfo` and the search say of the entry that an iterator shows: it is an intact item in
-- an entry of the iterator's page, which answers for the namespace and the type asked for, and is not
-- a namespace's own entry, an index, or a later chunk of a blob; the iterator goes on behind it.
pub record Presents {Dev : Type 0} ⦃P : Platform Dev⦄ (ns_index wanted : ℕ) (it : Iterator)
    (t : Storage Dev) : Type 0 where
  pub item : Item
  pub page : ℕ
  pub index : ℕ
  pub on_page : it.page ≡ some page
  pub behind : it.entry_index ≡ index + item.span
  pub stands : AtPage page (StandsAt index item) t
  pub answers : Answers (query ns_index wanted none) item
  pub intact : calculate_crc32 P.crc32_le item ≡ item.crc32
  pub iterable : is_iterable_item item ≡ true
  pub whole : is_multipage_blob item ≡ false
  pub key : it.entry_info.key ≡ c_string (take 16 item.key)
  pub datatype : it.entry_info.datatype ≡ item.datatype

module _ {Dev : Type 0} ⦃P : Platform Dev⦄ (ns t : ℕ) where
  -- What holds of the iterator whether an entry is found or not.
  abbrev Shows : Bool → Iterator → Storage Dev → Type 0
  Shows found it s = (found ≡ true → Presents ns t it s) × (it.ns_index ≡ ns) × (it.datatype ≡ t)
