-- ===== src/Storage/Check.antt =====
-- src/nvs_storage.cpp: `debugCheck`, the erasure of a namespace, and the count of its entries.
use sming_nvs.Prelude.{
  ℕ, zero, suc, ◌+◌, Bool, true, false, ◌&&◌, ◌||◌, not, none, some, List, [], ◌∷◌, M, Void,
  nvs_not_found, pure, fail, stuck_call, assert, try, ◌>>=◌, ◌>>◌, leb, ◌==◌,
}
use sming_nvs.Item.ItemType
use sming_nvs.Item.{Item, c_string, strncmp_eq}
use sming_nvs.Platform.{Platform}
use sming_nvs.Page.State.{entry_count, ns_any}
use sming_nvs.Page.Find.{query, no_item}
use sming_nvs.Page.Find
use sming_nvs.Storage.State.{Storage, at_page, look_at, page_list}
use sming_nvs.Storage.Blobs.{need_active}

-- The key of `keys`: namespace, type, name and chunk.
abbrev same_key : Item → Item → Bool
same_key a b =
    a.ns_index == b.ns_index
    && a.datatype == b.datatype
    && strncmp_eq 16 (c_string a.key) (c_string b.key)
    && a.chunk_index == b.chunk_index

abbrev seen : Item → List Item → Bool
seen i [] = false
seen i (j ∷ js) = same_key i j || seen i js

module _ {Dev : Type 0} ⦃P : Platform Dev⦄ where
  -- The items of a page, from `index` on. It gives `keys` and `usedCount`, and runs out of fuel
  -- where an item has a span of 0.
  abbrev check_page : ℕ → ℕ → ℕ → Item → List Item × ℕ → M (Storage Dev) (List Item × ℕ)
  check_page page zero index item seen_so_far = stuck_call
  check_page page (suc fuel) index item (keys, used) = do
    r ← at_page page (Find.find_item (query ns_any ItemType.any none) index item)
    elim r.code [
      | some _ ↦ pure (keys, used)
      | none ↦ do
        assert (not (seen r.item keys))
        check_page page fuel (r.index + r.item.span) r.item (r.item ∷ keys, used + r.item.span)
    ]

  abbrev check_pages : List Item → List ℕ → M (Storage Dev) Void
  check_pages keys [] = pure tt
  check_pages keys (i ∷ is) = do
    (keys', used) ← check_page i 127 0 no_item (keys, 0)
    p ← look_at i
    assert (used == p.used_entry_count)
    check_pages keys' is

  abbrev pub debug_check : M (Storage Dev) Void
  debug_check = do check_pages [] (← page_list)

  -- The inner loop of `eraseNamespace`: each round erases an item.
  abbrev erase_all_in : ℕ → ℕ → ℕ → M (Storage Dev) Void
  erase_all_in ns_index page zero = stuck_call
  erase_all_in ns_index page (suc fuel) = do
    rc ← try (at_page page (Find.erase_item (query ns_index ItemType.any none)))
    elim rc [
      | some nvs_not_found ↦ pure tt
      | some e ↦ fail e
      | none ↦ erase_all_in ns_index page fuel
    ]

  abbrev erase_namespace_in : ℕ → List ℕ → M (Storage Dev) Void
  erase_namespace_in ns_index [] = pure tt
  erase_namespace_in ns_index (i ∷ is) = do
    erase_all_in ns_index i 127
    erase_namespace_in ns_index is

  abbrev pub erase_namespace : ℕ → M (Storage Dev) Void
  erase_namespace ns_index = do need_active; erase_namespace_in ns_index (← page_list)

  -- The loops of `calcEntriesInNamespace`.
  abbrev count_in_page : ℕ → ℕ → ℕ → ℕ → Item → ℕ → M (Storage Dev) ℕ
  count_in_page ns_index page zero index item used = stuck_call
  count_in_page ns_index page (suc fuel) index item used = do
    r ← at_page page (Find.find_item (query ns_index ItemType.any none) index item)
    elim r.code [
      | some nvs_not_found ↦ pure used
      | some e ↦ fail e
      | none ↦ elim (leb entry_count (r.index + r.item.span)) [
        | true ↦ pure (used + r.item.span)
        | false ↦
            count_in_page ns_index page fuel (r.index + r.item.span) r.item (used + r.item.span)
      ]
    ]

  abbrev count_in_pages : ℕ → List ℕ → ℕ → M (Storage Dev) ℕ
  count_in_pages ns_index [] used = pure used
  count_in_pages ns_index (i ∷ is) used = do
    total ← count_in_page ns_index i 127 0 no_item used
    count_in_pages ns_index is total

  abbrev pub calc_entries_in_namespace : ℕ → M (Storage Dev) ℕ
  calc_entries_in_namespace ns_index = do need_active; count_in_pages ns_index (← page_list) 0
