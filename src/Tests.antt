-- ===== src/Tests.antt =====
-- The theorems on concrete inputs: a flash of a few hundred bytes with one item on it.
mod Handles
mod Parts
mod RoundTrips
use sming_nvs.Prelude.{
  ℕ, zero, suc, ◌+◌, ◌*◌, ◌%◌, ◌≡◌, ◌≤◌, ◌<◌, ◌≢◌, ◌⊎◌, refl, arith, true, none, some, List, [],
  ◌∷◌, ◌++◌, nvs_page_full, flash_op_fail, err, ok, take, drop, replicate, length, get_elem?, leb,
  ◌==◌, ◌&&◌, if◌then◌else◌, ◌>>◌, word_at,
}
use sming_nvs.EnumTable.{get, put}
use sming_nvs.EnumTable.Table.{IsShape, IsTable, put-Writes}
use sming_nvs.HashList.{new_node, asks, HashList, find, insert, erase}
use sming_nvs.HashList.Entries.{
  entries, first_match, without, holds, Distinct, find-first_match, Fits, insert-Fits,
}
use sming_nvs.HashList.Erase.{erase-without}
use sming_nvs.HashList.Lookup.{find-insert}
use sming_nvs.Item.ItemType
use sming_nvs.Item.{
  Item, new_item, of_raw, to_raw, calculate_crc32, calculate_crc32_without_value, chunk_any,
}
use sming_nvs.Platform.{Platform}
use sming_nvs.Page.State.{Page, Store, entry_shape, uninitialized, active, new_page, entry_count}
use sming_nvs.Page.Header.{Stats, count_used, calc_entries, get_var_data_tailroom}
use sming_nvs.Page.Find.{
  Found, query, no_item, find_start, find_loop, verdict, find_item, erase_item,
}
use sming_nvs.Page.Table.{
  put_entry_state, write_entry, alter_entry_state, hash_insert, entry_state, read_entry,
}
use sming_nvs.Page.Items.{
  write_item, write_primitive, sealed_item, entries_needed, write_variable, read_item, cmp_item,
}
use sming_nvs.Page.Tailroom.{variable_item, tailroom_exact, write_item-tailroom}
use sming_nvs.Page.States.{Command, do_mark_full, do_write, run, run-falls}
use sming_nvs.Page.Answers.{Answers, StandsAt, find_item-Answers}
use sming_nvs.PageManager.{Manager, insert_page, request_new_page}
use sming_nvs.PageManager.Order.{Inserted, Ordered, insert_page-Ordered}
use sming_nvs.PageManager.Sums.{Counts, fill_stats-total}
use sming_nvs.PageManager.Totals.{count_pages, fill_stats}
use sming_nvs.Storage.State.{Storage, storage_active}
use sming_nvs.Storage.State
use sming_nvs.Storage.Items
use sming_nvs.Storage.Namespaces.{free_index, next_free, create_or_open_namespace}
use sming_nvs.Storage.Indices.{IsLowest, create_or_open_namespace-IsLowest}

-- A flash whose writes clear nothing that is behind its end, and whose checksum adds the bytes up.
abbrev Flash : Type 0
Flash = List ℕ

put_bytes : ℕ → List ℕ → Flash → Flash
put_bytes zero [] fs = fs
put_bytes zero (b ∷ bs) [] = []
put_bytes zero (b ∷ bs) (f ∷ fs) = b ∷ put_bytes zero bs fs
put_bytes (suc n) bs [] = []
put_bytes (suc n) bs (f ∷ fs) = f ∷ put_bytes n bs fs

sum : ℕ → List ℕ → ℕ
sum n [] = n % 4294967296
sum n (b ∷ bs) = sum (n + b) bs

instance platform : Platform (List ℕ)
platform = record {
  read_raw = λ a n d. (ok (take n (drop a d)), d);
  read = λ a n d. (ok (take n (drop a d)), d);
  write_raw = λ a bs d. (ok tt, put_bytes a bs d);
  write = λ a bs d. (ok tt, put_bytes a bs d);
  erase_range = λ a n d. (ok tt, put_bytes a (replicate n 0xff) d);
  crc32_le = sum;
}

abbrev key : List ℕ
key = 97 ∷ 98 ∷ []

-- The value 7 under the key, sealed.
abbrev stored : Item
stored =
    sealed_item sum
      (record (new_item 1 ItemType.u8 1 (some key) chunk_any) { payload = 7 ∷ replicate 7 0xff })

abbrev hash_of : ℕ
hash_of = calculate_crc32_without_value sum stored % 16777216

abbrev page : Page
page = record {
  base_address = 0;
  state = active;
  seq_number = 3;
  version = 0xfe;
  entry_table = 0xffff_fffe ∷ replicate 7 0xffff_ffff;
  next_free_entry = 1;
  first_used_entry = 0;
  used_entry_count = 1;
  erased_entry_count = 0;
  hash_list = (new_node hash_of 0 ∷ []) ∷ [];
}

abbrev store : Store (List ℕ)
store = record { page = page; heap = []; dev = replicate 64 0xff ++ to_raw stored }

abbrev found : Found
found = record { code = none; index = 0; item = of_raw (to_raw stored) }

-- The store behind the search.
abbrev searched : Store (List ℕ)
searched = (find_item (query 1 ItemType.u8 (some key)) 0 no_item store).1

finds : find_item (query 1 ItemType.u8 (some key)) 0 no_item store ≡ (ok found, searched)
unfolding find_item find_start find_loop find entry_state get read_entry verdict calculate_crc32
    calculate_crc32_without_value new_item platform sum word_at
finds = refl

find_item-Answers_example :
    Answers (query 1 ItemType.u8 (some key)) found.item
    × (calculate_crc32 platform.crc32_le found.item ≡ found.item.crc32)
    × (found.index < entry_count)
    × StandsAt found.index found.item searched
find_item-Answers_example =
    find_item-Answers (query 1 ItemType.u8 (some key)) 0 no_item store searched found finds refl

abbrev commands : List Command
commands = do_mark_full ∷ do_write 1 ItemType.u8 key (9 ∷ []) chunk_any ∷ []

run-falls_example :
    ((run commands store).page.state ≤ active) × ((run commands store).page.base_address ≡ 0)
run-falls_example = run-falls commands store

-- A text with two data entries.
abbrev text : List ℕ
text = replicate 40 65

tailroom_exact_example :
    (40 ≤ get_var_data_tailroom page → 1 + entries_needed ItemType.sz 40 ≤ entry_count)
    × (1 + entries_needed ItemType.sz 40 ≤ entry_count → 40 ≤ get_var_data_tailroom page)
tailroom_exact_example = tailroom_exact page ItemType.sz 40 refl (omega arith) refl

write_item-tailroom_example :
    (length text ≤ get_var_data_tailroom page
      → write_item 1 ItemType.sz key text chunk_any store
        ≡ (hash_insert (variable_item 1 ItemType.sz key text chunk_any) 1
              >> write_variable (variable_item 1 ItemType.sz key text chunk_any) text)
            store)
    × (get_var_data_tailroom page < length text
        → write_item 1 ItemType.sz key text chunk_any store ≡ (err nvs_page_full, store))
write_item-tailroom_example =
    write_item-tailroom store 1 ItemType.sz key text chunk_any refl (omega arith) refl (omega arith)
      (omega arith)

-- A table of states with no entry written.
abbrev blank : List ℕ
blank = replicate 8 0xffff_ffff

entry_shape-IsShape : IsShape entry_shape
entry_shape-IsShape = record { fills = refl; wide = omega arith; several = omega arith }

blank-IsTable : IsTable entry_shape blank
blank-IsTable = record { size = refl; words_32 = ground arith }

put-Writes_example :
    (ws : List ℕ) × (put entry_shape 5 2 blank ≡ some ws)
    × IsTable entry_shape ws
    × (get entry_shape 5 ws ≡ some 2)
    × ((j : ℕ) → j < 126 → 5 ≢ j → get entry_shape j ws ≡ get entry_shape j blank)
put-Writes_example =
    put-Writes entry_shape entry_shape-IsShape 5 2 blank blank-IsTable (omega arith) (omega arith)

-- A cache of two items with one hash.
abbrev cache : HashList
cache = (new_node 9 3 ∷ new_node 9 4 ∷ []) ∷ []

abbrev more : HashList
more = (new_node 9 3 ∷ new_node 9 4 ∷ new_node 8 6 ∷ []) ∷ []

inserted : insert 8 6 true cache ≡ some more
unfolding insert
inserted = refl

find-first_match_example : find 4 9 cache ≡ first_match 4 9 (entries cache)
find-first_match_example = find-first_match 4 9 cache

insert-Fits_example :
    (entries more ≡ entries cache ++ new_node 8 6 ∷ [])
    × Fits more
    × ((length more ≡ length cache) ⊎ (length more ≡ length cache + 1))
insert-Fits_example = insert-Fits 8 6 true cache more (omega arith) (omega arith, tt) inserted

find-insert_example : find 4 8 more ≡ (elim (find 4 8 cache) [
  | some i ↦ some i
  | none ↦ if leb 4 6 && (new_node 8 6).hash == 8 then some 6 else none
])
find-insert_example = find-insert 4 8 8 6 true cache more (omega arith) inserted

cache-Distinct : Distinct (entries cache)
cache-Distinct = ground arith

erase-without_example :
    (entries (erase 3 cache).0 ≡ without 3 (entries cache))
    × ((erase 3 cache).1 ≡ holds 3 (entries cache))
erase-without_example = erase-without 3 cache (omega arith) cache-Distinct

-- Two pages in use and one that is free.
abbrev pages : List Page
pages = page ∷ record page { seq_number = 5; used_entry_count = 40 } ∷ new_page ∷ []

insert_page-Ordered_example :
    Inserted 0 (1 ∷ []) (insert_page pages 3 0 (1 ∷ []))
    × Ordered pages (insert_page pages 3 0 (1 ∷ []))
insert_page-Ordered_example = insert_page-Ordered pages 0 (1 ∷ []) (ground arith) (ground arith)

abbrev manager : Manager (List ℕ)
manager = record {
  pages = pages;
  page_list = 0 ∷ 1 ∷ [];
  free_page_list = 2 ∷ [];
  base_sector = 0;
  page_count = 3;
  seq_number = 6;
  heap = [];
  dev = [];
}

abbrev no_stats : Stats
no_stats = record { used_entries = 0; free_entries = 0; total_entries = 0; namespace_count = 0 }

counted : Counts pages (0 ∷ 1 ∷ [])
counted zero i p hk hi = ground (arith, hk, hi)
counted (suc zero) i p hk hi = ground (arith, hk, hi)
counted (suc (suc k)) i p hk hi = absurd (ground (arith, hk))

returned : (fill_stats manager no_stats).0 ≡ ok tt
unfolding fill_stats count_pages calc_entries count_used
returned = refl

fill_stats-total_example :
    ((fill_stats manager no_stats).1.total_entries ≡ 3 * entry_count)
    × ((fill_stats manager no_stats).1.used_entries + (fill_stats manager no_stats).1.free_entries
        ≡ (fill_stats manager no_stats).1.total_entries)
fill_stats-total_example = fill_stats-total manager no_stats counted (omega arith) returned

-- A flash that always reads as the one item.
one_item : Platform (List ℕ)
one_item = record {
  read_raw = λ a n d. (ok d, d);
  read = λ a n d. (ok d, d);
  write_raw = λ a bs d. (ok tt, d);
  write = λ a bs d. (ok tt, d);
  erase_range = λ a n d. (ok tt, d);
  crc32_le = sum;
}

-- The first page has the item in its last entry; the free page has nothing on it.
abbrev exchanging : Manager (List ℕ)
exchanging = record manager {
  pages =
      record page {
        first_used_entry = 125;
        next_free_entry = 126;
        entry_table = replicate 7 0xffff_ffff ++ 0xfbff_ffff ∷ [];
        hash_list = (new_node hash_of 125 ∷ []) ∷ [];
      }
      ∷ record page { base_address = 4096; seq_number = 5; used_entry_count = 40 }
      ∷ record page {
        base_address = 8192;
        state = uninitialized;
        entry_table = blank;
        next_free_entry = 0;
        first_used_entry = 255;
        used_entry_count = 0;
        hash_list = [];
      }
      ∷ [];
  dev = to_raw stored;
}

abbrev exchanged : Manager (List ℕ)
exchanged = (request_new_page ⦃P = one_item⦄ exchanging).1

-- Index 1 is in use, and the page in use has a free entry.
abbrev usage : List ℕ
usage = 2 ∷ replicate 7 0

abbrev one_namespace : Storage (List ℕ)
one_namespace = record {
  manager = record manager { page_list = 0 ∷ []; dev = store.dev ++ replicate 32 0xff };
  namespaces = [];
  namespace_usage = usage;
  state = storage_active;
}

abbrev two_namespaces : Storage (List ℕ)
two_namespaces = (create_or_open_namespace key true one_namespace).1

created : create_or_open_namespace key true one_namespace ≡ (ok 2, two_namespaces)
unfolding free_index next_free get put find asks insert find_item find_start find_loop write_item
    hash_insert write_entry alter_entry_state calculate_crc32 calculate_crc32_without_value new_item
    platform sum word_at Items.write_item State.find_item write_primitive put_entry_state put_bytes
    entry_state read_entry verdict
created = refl

create_or_open_namespace-IsLowest_example : IsLowest usage 2
create_or_open_namespace-IsLowest_example =
    create_or_open_namespace-IsLowest key true one_namespace two_namespaces 2 refl created
