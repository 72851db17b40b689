-- ===== src/Page/Repair.antt =====
-- src/nvs_page.cpp: the loops of `mLoadEntryTable`, which rebuild the page object from flash after a
-- restart and repair what a power failure left half done.
use sming_nvs.Prelude.{
  ℕ, zero, suc, ◌+◌, ◌-◌, ◌%◌, Bool, true, false, ◌&&◌, none, some, List, [], ◌∷◌, M, Void, pure,
  stuck_call, assert, attempt, ◌>>=◌, ◌>>◌, ltb, ◌==◌, if◌then◌else◌, inc16, dec16,
}
use sming_nvs.HashList
use sming_nvs.Item.{
  Item, calculate_crc32, calculate_crc32_without_value, is_variable_length_type, c_string,
}
use sming_nvs.Platform.{Platform}
use sming_nvs.Page.State.{
  Page, Store, written, empty, erased, entry_count, invalid_entry, on_dev, gets_page, set_page,
  or_invalid,
}
use sming_nvs.Page.Table.{
  entry_address, entry_state, hash_insert, alter_entry_state, read_entry, erase_entry_and_span,
}
use sming_nvs.Page.Find.{query, no_item, find_item}

-- Whether all bytes of a block are 0xff.
abbrev pub all_ones : List ℕ → Bool
all_ones [] = true
all_ones (b ∷ bs) = b == 0xff && all_ones bs

-- `mHashList.find(0, item)`, with 0xffffffff for `SIZE_MAX`.
abbrev cached_index : (ℕ → List ℕ → ℕ) → Item → Page → ℕ
cached_index crc32_le item p =
    elim (HashList.find 0 (calculate_crc32_without_value crc32_le item % 16777216) p.hash_list) [
      | none ↦ 0xffff_ffff
      | some i ↦ i
    ]

module _ {Dev : Type 0} where
  -- The count of the entries by their states, over the `n` entries from `i` on.
  abbrev pub count_entries : ℕ → ℕ → M (Store Dev) Void
  count_entries zero i = pure tt
  count_entries (suc n) i = do
    s ← entry_state i
    set_page (λ p.
        if s == written
        then record p {
          first_used_entry = if p.first_used_entry == invalid_entry then i else p.first_used_entry;
          used_entry_count = inc16 p.used_entry_count;
        }
        else (if s == erased
            then record p { erased_entry_count = inc16 p.erased_entry_count }
            else p))
    count_entries n (i + 1)

  -- The first entry that is not used, among the `n` from `i` on.
  abbrev pub first_empty : ℕ → ℕ → M (Store Dev) Void
  first_empty zero i = pure tt
  first_empty (suc n) i = do
    s ← entry_state i
    if s == empty then set_page (λ p. record p { next_free_entry = i }) else first_empty n (i + 1)

  -- `for (j = i; j < i + span; ++j)`: whether one of the `n` entries from `j` on is not written.
  abbrev any_unwritten : ℕ → ℕ → M (Store Dev) Bool
  any_unwritten zero j = pure false
  any_unwritten (suc n) j = do
    s ← entry_state j
    if s == written then any_unwritten n (j + 1) else pure true

module _ {Dev : Type 0} ⦃P : Platform Dev⦄ where
  -- Entries behind the last used one that hold data already: the power failed before their state
  -- was written. They are marked as erased. One step for each entry, and one to see the end.
  abbrev pub skip_half_written : ℕ → M (Store Dev) Void
  skip_half_written zero = stuck_call
  skip_half_written (suc fuel) = do
    p ← gets_page (λ p. p)
    elim (ltb p.next_free_entry entry_count) [
      | false ↦ pure tt
      | true ↦ do
        header ← or_invalid (on_dev (P.read_raw (entry_address p.next_free_entry p) 4))
        elim (all_ones header) [
          | true ↦ pure tt
          | false ↦ do
            old ← entry_state p.next_free_entry
            or_invalid (alter_entry_state p.next_free_entry erased)
            set_page (λ q. record q {
              next_free_entry = q.next_free_entry + 1;
              used_entry_count =
                  if old == written then dec16 q.used_entry_count else q.used_entry_count;
              erased_entry_count = inc16 q.erased_entry_count;
            })
            skip_half_written fuel
        ]
    ]

  -- A result that the code does not look at.
  abbrev pub ignore_error : M (Store Dev) Void → M (Store Dev) Void
  ignore_error m = do r ← attempt m; pure tt

  -- The loop over the items of an active page, from entry `i` on. It carries `item` and
  -- `lastItemIndex`, and runs out of fuel where an item has a span of 0.
  abbrev pub check_items : ℕ → ℕ → ℕ → Item × ℕ → M (Store Dev) (Item × ℕ)
  check_items end zero i last = if ltb i end then stuck_call else pure last
  check_items end (suc fuel) i (item, last) = elim (ltb i end) [
    | false ↦ pure (item, last)
    | true ↦ do
      s ← entry_state i
      elim (s == erased) [
        | true ↦ check_items end fuel (i + 1) (item, invalid_entry)
        | false ↦ do
          next ← or_invalid (read_entry i)
          elim (next.crc32 == calculate_crc32 P.crc32_le next) [
            | false ↦ do or_invalid (erase_entry_and_span i); check_items end fuel (i + 1) (next, i)
            | true ↦ do
              or_invalid (hash_insert next i)
              duplicate ← gets_page (cached_index P.crc32_le next)
              let var = is_variable_length_type next.datatype
              let span = if var then next.span else 1
              need_erase ← (if var then any_unwritten span i else pure false)
              elim need_erase [
                | true ↦ do
                  ignore_error (erase_entry_and_span i)
                  check_items end fuel (i + span) (next, invalid_entry)
                | false ↦ do
                  if ltb duplicate i then ignore_error (erase_entry_and_span duplicate) else pure tt
                  check_items end fuel (i + span) (next, i)
              ]
          ]
      ]
  ]

  -- "check that last item is not duplicate"
  abbrev pub check_last : Item × ℕ → M (Store Dev) Void
  check_last (item, last) = elim (last == invalid_entry) [
    | true ↦ pure tt
    | false ↦ do
      f ← find_item (query item.ns_index item.datatype (some (c_string item.key))) 0 no_item
      elim f.code [
        | some _ ↦ pure tt
        | none ↦ if ltb f.index last then or_invalid (erase_entry_and_span f.index) else pure tt
      ]
  ]

  -- The loop over the items of a full page, or of one that is being freed. It runs out of fuel
  -- nowhere: every step passes an entry.
  abbrev pub cache_items : ℕ → ℕ → M (Store Dev) Void
  cache_items zero i = if ltb i entry_count then stuck_call else pure tt
  cache_items (suc fuel) i = elim (ltb i entry_count) [
    | false ↦ pure tt
    | true ↦ do
      s ← entry_state i
      elim (s == written) [
        | false ↦ cache_items fuel (i + 1)
        | true ↦ do
          item ← or_invalid (read_entry i)
          elim (item.crc32 == calculate_crc32 P.crc32_le item) [
            | false ↦ do or_invalid (erase_entry_and_span i); cache_items fuel (i + 1)
            | true ↦ do
              assert (ltb 0 item.span)
              or_invalid (hash_insert item i)
              need_erase ←
                  (if is_variable_length_type item.datatype
                    then any_unwritten (item.span - 1) (i + 1)
                    else pure false)
              if need_erase then ignore_error (erase_entry_and_span i) else pure tt
              cache_items fuel (i + item.span)
          ]
      ]
  ]
