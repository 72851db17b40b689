-- ===== src/Page/Ready.antt =====
-- src/nvs_page.cpp: an item that `writeItem` has put on a page, and the search for it.
use mathlib.Core.Path.{subst}
use sming_nvs.Prelude.{
  ℕ, ◌+◌, ◌-◌, ◌/◌, ◌%◌, ◌<◌, ◌≤◌, ◌≡◌, refl, ◌∙◌, arith, some, none, List, ok, length, ◌==◌,
  if◌then◌else◌,
}
use sming_nvs.EnumTable.Table.{IsTable}
use sming_nvs.HashList
use sming_nvs.HashList.{HashList}
use sming_nvs.Item.{Item, new_item, to_raw, calculate_crc32, calculate_crc32_without_value}
use sming_nvs.Item.ItemType
use sming_nvs.Item.Codec.{IsItem}
use sming_nvs.Item.Keys.{HasBytes, new_item_key, length-new_key, new_key-IsBytes}
use sming_nvs.Platform.{Platform}
use sming_nvs.Platform.Flash.{Flash, IsBytes}
use sming_nvs.Page.State.{Page, Store, entry_size, active, entry_shape, invalid_entry, ns_any}
use sming_nvs.Page.Table.{entry_address}
use sming_nvs.Page.Items.{total_size, sealed_item}
use sming_nvs.Page.Tailroom.{variable_item}
use sming_nvs.Page.Find.{Query, find_or_fail, verdict, hit}
use sming_nvs.Page.Written.{Appended}
use sming_nvs.Page.Stored.{Cached, item_hash}
use sming_nvs.Page.Recall.{Placed, after_read, length-to_raw, find_or_fail-Placed}
use sming_nvs.Page.Sought.{exactly, ChunkFits, verdict-exactly, find_start-exactly}

-- The first used entry once there is one.
abbrev pub first_entry : Page → ℕ
first_entry p =
    if p.first_used_entry == invalid_entry then p.next_free_entry else p.first_used_entry

module _ {Dev : Type 0} ⦃P : Platform Dev⦄ (F : Flash P) where
  -- The item stands at `i`; the page's first entry and its cache are as given.
  pub record Ready (item : Item) (i start : ℕ) (cache : HashList) (t : Store Dev) : Type 0 where
    pub placed : Placed F item i t
    pub first : t.page.first_used_entry ≡ start
    pub cached : t.page.hash_list ≡ cache
    pub table : IsTable entry_shape t.page.entry_table

  pub entry_there :
      (n i : ℕ) (bytes raw : List ℕ) (t u : Store Dev)
      → i < t.page.next_free_entry
      → length raw ≡ 32
      → Appended F n bytes t u
      → F.Holds t.dev (entry_address i t.page) raw
      → F.Holds u.dev (entry_address i u.page) raw
  entry_there n i bytes raw t u below size more h =
      rw more.base (more.keeps (entry_address i t.page) raw (omega arith) (omega (arith, size)) h)

  -- More entries leave the item where it is.
  pub Ready-more :
      (item : Item) (i start : ℕ) (cache : HashList) (n : ℕ) (bytes : List ℕ) (t u : Store Dev)
      → IsItem item
      → start < 126
      → Ready item i start cache t
      → Appended F n bytes t u
      → Ready item i start cache u
  Ready-more item i start cache n bytes t u w lt r more = record {
    placed = record {
      in_use = more.state ∙ r.placed.in_use;
      below = omega (arith, more.next, r.placed.below);
      room = omega (arith, more.next, more.room);
      marked = more.others i r.placed.below ∙ r.placed.marked;
      holds =
          entry_there n i bytes (to_raw item) t u r.placed.below (length-to_raw item w) more
            r.placed.holds;
    };
    first = ground (arith, more.first, r.first, lt);
    cached = more.cache ∙ r.cached;
    table = more.table;
  }

  -- The item's own entry, behind its entry in the cache.
  pub Ready-first :
      (item header : Item) (s m t : Store Dev)
      → s.page.state ≡ active
      → Cached item s.page.next_free_entry s m
      → Appended F 1 (to_raw header) m t
      → Ready header s.page.next_free_entry (first_entry s.page) m.page.hash_list t
  Ready-first item header s m t in_use cached more =
      let next : m.page.next_free_entry ≡ s.page.next_free_entry = ground (arith, cached.frame) in
      record {
        placed = record {
          in_use = more.state ∙ ground (arith, cached.frame, in_use);
          below = omega (arith, more.next, next);
          room = omega (arith, more.next, more.room);
          marked = more.marks s.page.next_free_entry (omega (arith, next)) (omega (arith, next));
          holds = rw (more.base, ← next) more.holds;
        };
        first = more.first ∙ ground (arith, cached.frame);
        cached = more.cache;
        table = more.table;
      }

-- The arguments of `writeItem`.
pub record Args : Type 0 where
  pub ns_index : ℕ
  pub datatype : ℕ
  pub key : List ℕ
  pub bytes : List ℕ
  pub chunk : ℕ

-- They are values of their C++ types; the namespace is one of a partition, and the type one of an
-- item.
pub record Valid (a : Args) : Type 0 where
  pub ns_named : a.ns_index < ns_any
  pub type_named : a.datatype < ItemType.any
  pub chunk_8 : a.chunk < 256
  pub chunk_fits : ChunkFits a.datatype a.chunk
  pub key_bytes : IsBytes a.key
  pub data_bytes : IsBytes a.bytes

abbrev pub the_item : Args → Item
the_item a = variable_item a.ns_index a.datatype a.key a.bytes a.chunk

-- The entry that is written, with its value.
abbrev pub header : (ℕ → List ℕ → ℕ) → Args → List ℕ → Item
header crc32_le a payload = sealed_item crc32_le (record (the_item a) { payload = payload })

-- The query for it.
abbrev pub asked_for : Args → Query
asked_for a = exactly a.ns_index a.datatype a.key a.chunk

-- The page is in use, and its cache knows no item of the given hash.
pub record Fresh (hash : ℕ) (p : Page) : Type 0 where
  pub in_use : p.state ≡ active
  pub table : IsTable entry_shape p.entry_table
  pub first : first_entry p ≤ p.next_free_entry
  pub new : HashList.find (first_entry p) hash p.hash_list ≡ none

module _ {Dev : Type 0} ⦃P : Platform Dev⦄ where
  -- The cache is no part of the table.
  pub IsTable-kept :
      (a : Args) (s m : Store Dev)
      → Fresh (item_hash P.crc32_le (the_item a)) s.page
      → Cached (the_item a) s.page.next_free_entry s m
      → IsTable entry_shape m.page.entry_table
  IsTable-kept a s m fresh cached =
      subst (λ (x : Store Dev). IsTable entry_shape x.page.entry_table) cached.frame fresh.table

module _ {Dev : Type 0} ⦃P : Platform Dev⦄ (F : Flash P) (a : Args) (valid : Valid a)
    (crc_32 : (r : ℕ) (xs : List ℕ) → P.crc32_le r xs < 4294967296) where
  abbrev the_span : ℕ
  the_span = (total_size a.datatype (length a.bytes) + entry_size - 1) / entry_size % 256

  crc32_small : (i : Item) → calculate_crc32 P.crc32_le i < 4294967296
  unfolding calculate_crc32
  crc32_small i = crc_32 _ i.payload

  pub header-IsItem : (payload : List ℕ) → length payload ≡ 8 → IsItem (header P.crc32_le a payload)
  unfolding new_item
  header-IsItem payload size = record {
    crc32_32 = crc32_small (record (the_item a) { payload = payload });
    key_16 = length-new_key a.ns_index a.datatype the_span a.key a.chunk;
    payload_8 = size;
  }

  pub header-HasBytes :
      (payload : List ℕ) → IsBytes payload → HasBytes (header P.crc32_le a payload)
  unfolding new_item
  header-HasBytes payload small = record {
    ns_index = omega (arith, valid.ns_named);
    datatype = omega (arith, valid.type_named);
    span = omega arith;
    chunk_index = valid.chunk_8;
    key = new_key-IsBytes a.ns_index a.datatype the_span a.key a.chunk valid.key_bytes;
    payload = small;
  }

  intact :
      (payload : List ℕ)
      → calculate_crc32 P.crc32_le (header P.crc32_le a payload)
        ≡ (header P.crc32_le a payload).crc32
  unfolding calculate_crc32
  intact payload = refl

  header_hash :
      item_hash P.crc32_le (new_item a.ns_index a.datatype 0 (some a.key) a.chunk)
      ≡ item_hash P.crc32_le (the_item a)
  unfolding calculate_crc32_without_value new_item
  header_hash = refl

  header-hit : (payload : List ℕ) → verdict (asked_for a) (header P.crc32_le a payload) ≡ hit
  unfolding new_item
  header-hit payload =
      verdict-exactly a.ns_index a.datatype a.key a.chunk (header P.crc32_le a payload) refl refl
        refl (new_item_key a.ns_index a.datatype the_span a.key a.chunk) valid.chunk_fits

  -- The search for the item finds the entry that the cache gives.
  pub find_or_fail-header :
      (payload : List ℕ) (i : ℕ) (t : Store Dev)
      → length payload ≡ 8
      → Placed F (header P.crc32_le a payload) i t
      → HashList.find t.page.first_used_entry (item_hash P.crc32_le (the_item a)) t.page.hash_list
        ≡ some i
      → find_or_fail (asked_for a) t ≡ (
        ok (record { code = none; index = i; item = header P.crc32_le a payload }),
        after_read i t,
      )
  find_or_fail-header payload i t size placed found =
      find_or_fail-Placed F (asked_for a) (header P.crc32_le a payload) i t placed
        (header-IsItem payload size) (intact payload) (header-hit payload)
        (find_start-exactly P.crc32_le a.ns_index a.datatype a.key a.chunk i t.page
          (λ e. omega (arith, e, valid.ns_named)) (λ e. omega (arith, e, valid.type_named))
          (rw header_hash found) (omega (arith, placed.below, placed.room)))
