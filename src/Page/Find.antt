-- ===== src/Page/Find.antt =====
-- src/nvs_page.cpp: `findItem` and the operations that start with it.
use sming_nvs.Prelude.{
  ℕ, zero, suc, ◌+◌, ◌%◌, true, false, ◌&&◌, ◌||◌, not, Option, none, some, List, M, Void, Esp,
  nvs_not_found, nvs_type_mismatch, pure, stuck_call, check, try, attempt, done, failed, ◌>>=◌,
  ◌>>◌, ltb, leb, ◌==◌, if◌then◌else◌,
}
use sming_nvs.HashList
use sming_nvs.Item.ItemType
use sming_nvs.Item.{
  Item, new_item, calculate_crc32, calculate_crc32_without_value, is_variable_length_type,
  strncmp_eq, max_key_length, chunk_any, ver_any, blob_chunk_start,
}
use sming_nvs.Platform.{Platform}
use sming_nvs.Page.State.{
  Page, Store, uninitialized, corrupt, invalid, written, entry_count, ns_any, gets_page, or_invalid,
}
use sming_nvs.Page.Table.{entry_state, read_entry, erase_entry_and_span}

-- The arguments of a search.
pub record Query : Type 0 where
  pub ns_index : ℕ
  pub datatype : ℕ
  pub key : Option (List ℕ)
  pub chunk_idx : ℕ
  pub chunk_start : ℕ

-- `findItem(nsIndex, datatype, key, ...)` with the default arguments.
abbrev pub query : ℕ → ℕ → Option (List ℕ) → Query
query ns_index datatype key = record {
  ns_index = ns_index;
  datatype = datatype;
  key = key;
  chunk_idx = chunk_any;
  chunk_start = ver_any;
}

-- What a search returns: its code, `none` for `ESP_OK`, and the values of the two parameters that
-- it sets, `itemIndex` and `item`.
pub record Found : Type 0 where
  pub code : Option Esp
  pub index : ℕ
  pub item : Item

pub data Verdict : Type 0 where
  skip mismatch hit : Verdict

-- The tests of the loop on an intact item.
unfoldable pub verdict : Query → Item → Verdict
verdict q i =
    if not (q.ns_index == ns_any) && not (i.ns_index == q.ns_index)
      || (elim q.key [ none ↦ false | some k ↦ not (strncmp_eq max_key_length k i.key) ])
      || not (q.chunk_idx == chunk_any)
        && q.datatype == ItemType.blob_data
        && not (i.chunk_index == q.chunk_idx)
      || q.datatype == ItemType.blob_idx && not (i.chunk_index == chunk_any)
      || q.datatype == ItemType.blob_idx
        && not (q.chunk_start == ver_any)
        && not (blob_chunk_start i == q.chunk_start)
    then skip
    else if not (q.datatype == ItemType.any) && not (i.datatype == q.datatype)
    then (if (elim q.key [ none ↦ true | some _ ↦ false ])
          && q.ns_index == ns_any
          && q.chunk_idx == chunk_any
        then skip
        else mismatch)
    else hit

abbrev pub missing : ℕ → Item → Found
missing index item = record { code = some nvs_not_found; index = index; item = item }

-- Where the loop starts, by the cache if the query names an item, and `none` where the cache has
-- no such item.
unfoldable pub find_start : (ℕ → List ℕ → ℕ) → Query → ℕ → Page → Option ℕ
find_start crc32_le q item_index p =
    let start =
      if ltb p.first_used_entry item_index && ltb item_index entry_count
      then item_index
      else p.first_used_entry in
    elim q.key [
      | none ↦ some start
      | some k ↦
          if not (q.ns_index == ns_any) && not (q.datatype == ItemType.any)
          then elim (HashList.find start
              (calculate_crc32_without_value crc32_le
                  (new_item q.ns_index q.datatype 0 (some k) q.chunk_idx)
                % 16777216)
              p.hash_list) [
                | none ↦ none
                | some cached ↦ if ltb cached entry_count then some cached else none
              ]
          else some start
    ]

-- One step for each entry, and one to see the end.
abbrev pub find_fuel : ℕ
find_fuel = 127

-- An `Item` on the stack that is not initialized.
abbrev pub no_item : Item
no_item = new_item 0 0 0 none 0

module _ {Dev : Type 0} ⦃P : Platform Dev⦄ where
  -- The loop, from entry `i` up to `end`. It runs out of fuel where an item has a span of 0.
  unfoldable pub find_loop : Query → ℕ → ℕ → ℕ → Found → M (Store Dev) Found
  find_loop q end zero i r = if ltb i end then stuck_call else pure r
  find_loop q end (suc fuel) i r = elim (ltb i end) [
    | false ↦ pure r
    | true ↦ do
      state ← entry_state i
      elim (state == written) [
        | false ↦ find_loop q end fuel (i + 1) r
        | true ↦ do
          read ← attempt (or_invalid (read_entry i))
          elim read [
            | failed e ↦ pure (record r { code = some e })
            | done item ↦ elim (calculate_crc32 P.crc32_le item == item.crc32) [
              | false ↦ do
                rc ← try (or_invalid (erase_entry_and_span i))
                elim rc [
                  | some e ↦ pure (record r { code = some e; item = item })
                  | none ↦ find_loop q end fuel (i + 1) (record r { item = item })
                ]
              | true ↦ elim (verdict q item) [
                | skip ↦
                    find_loop q end fuel
                      (if is_variable_length_type item.datatype then i + item.span else i + 1)
                      (record r { item = item })
                | mismatch ↦ pure (record { code = some nvs_type_mismatch; index = i; item = item })
                | hit ↦ pure (record { code = none; index = i; item = item })
              ]
            ]
          ]
      ]
  ]

  -- `findItem` with all its parameters.
  unfoldable pub find_item : Query → ℕ → Item → M (Store Dev) Found
  find_item q item_index item = do
    p ← gets_page (λ p. p)
    if p.state == corrupt || p.state == invalid || p.state == uninitialized
        then pure (missing item_index item)
        else if leb entry_count item_index
        then pure (missing item_index item)
        else (elim (find_start P.crc32_le q item_index p) [
          | none ↦ pure (missing item_index item)
          | some start ↦
              find_loop q
                (if ltb entry_count p.next_free_entry then entry_count else p.next_free_entry)
                find_fuel start (missing item_index item)
        ])

  -- `rc = findItem(..., index, item, ...); if (rc != ESP_OK) return rc;`
  unfoldable pub find_or_fail : Query → M (Store Dev) Found
  find_or_fail q = do r ← find_item q 0 no_item; check r.code; pure r

  -- `eraseItem`
  unfoldable pub erase_item : Query → M (Store Dev) Void
  erase_item q = do r ← find_or_fail q; erase_entry_and_span r.index
