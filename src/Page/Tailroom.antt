-- ===== src/Page/Tailroom.antt =====
-- What `getVarDataTailroom` promises to `writeItem`, and what the guards of `writeItem` do.
use sming_nvs.Prelude.{
  ℕ, ◌+◌, ◌-◌, ◌/◌, ◌%◌, ◌≤◌, ◌<◌, ◌≡◌, arith, Bool, true, false, ◌||◌, some, List, length, ltb,
  ◌==◌, if◌then◌else◌, nvs_page_full, err, ◌>>◌,
}
use sming_nvs.Item.{Item, new_item, is_variable_length_type}
use sming_nvs.Platform.{Platform}
use sming_nvs.Page.State.{
  Page, Store, active, invalid, uninitialized, full, entry_count, entry_size, invalid_entry,
  chunk_max_size,
}
use sming_nvs.Page.Table.{hash_insert}
use sming_nvs.Page.Header.{get_var_data_tailroom}
use sming_nvs.Page.Items.{entries_needed, total_size, write_item, write_variable}

-- On an active page with a free entry, the tailroom is exactly the largest size of a value with
-- data entries that fits behind the item's own entry.
pub tailroom_exact :
    (p : Page) (datatype n : ℕ)
    → p.state ≡ active
    → p.next_free_entry < entry_count
    → is_variable_length_type datatype ≡ true
    → (n ≤ get_var_data_tailroom p → p.next_free_entry + entries_needed datatype n ≤ entry_count)
      × (p.next_free_entry + entries_needed datatype n ≤ entry_count → n ≤ get_var_data_tailroom p)
unfolding get_var_data_tailroom
tailroom_exact p datatype n e lt var = rw (var, e) (ground arith)

-- The first entry that `writeItem` makes for a value.
abbrev pub variable_item : ℕ → ℕ → List ℕ → List ℕ → ℕ → Item
variable_item ns_index datatype key bytes chunk =
    new_item ns_index datatype
      ((total_size datatype (length bytes) + entry_size - 1) / entry_size % 256) (some key) chunk

module _ {Dev : Type 0} ⦃P : Platform Dev⦄ where
  -- The guards of `writeItem` as one decision, on a page that is in use.
  write_item_guards :
      (s : Store Dev) (ns_index datatype : ℕ) (key bytes : List ℕ) (chunk : ℕ) (is_full : Bool)
      → (s.page.state == invalid) ≡ false
      → (s.page.state == uninitialized) ≡ false
      → (s.page.state == full) ≡ false
      → ltb 15 (length key) ≡ false
      → ltb chunk_max_size (length bytes) ≡ false
      → is_variable_length_type datatype ≡ true
      → (s.page.next_free_entry == invalid_entry
          || ltb entry_count (s.page.next_free_entry + entries_needed datatype (length bytes)))
        ≡ is_full
      → write_item ns_index datatype key bytes chunk s ≡ (
          if is_full
          then (err nvs_page_full, s)
          else (hash_insert (variable_item ns_index datatype key bytes chunk) s.page.next_free_entry
                >> write_variable (variable_item ns_index datatype key bytes chunk) bytes)
              s)
  unfolding write_item
  write_item_guards s ns_index datatype key bytes chunk true a b c d f var g = rw (a, b, c, d, f, g)
  write_item_guards s ns_index datatype key bytes chunk false a b c d f var g =
      rw (a, b, c, d, f, g, var)

  -- On an active page with a free entry, `writeItem` of a value with data entries, under a key and
  -- of a size within the limits, goes on to write exactly where the value fits the tailroom; a
  -- larger value is refused as `PAGE_FULL`, and nothing is changed.
  pub write_item-tailroom :
      (s : Store Dev) (ns_index datatype : ℕ) (key bytes : List ℕ) (chunk : ℕ)
      → s.page.state ≡ active
      → s.page.next_free_entry < entry_count
      → is_variable_length_type datatype ≡ true
      → length key ≤ 15
      → length bytes ≤ chunk_max_size
      → let n = length bytes in
        let item = variable_item ns_index datatype key bytes chunk in
        (n ≤ get_var_data_tailroom s.page
          → write_item ns_index datatype key bytes chunk s
            ≡ (hash_insert item s.page.next_free_entry >> write_variable item bytes) s)
        × (get_var_data_tailroom s.page < n
            → write_item ns_index datatype key bytes chunk s ≡ (err nvs_page_full, s))
  write_item-tailroom s ns_index datatype key bytes chunk e lt var hk hn =
      let exact = tailroom_exact s.page datatype (length bytes) e lt var in
      let guards = λ (is_full : Bool).
        write_item_guards s ns_index datatype key bytes chunk is_full (ground arith) (ground arith)
          (ground arith) (ground arith) (ground arith) var in
      (λ h. guards false (ground (arith, exact.0 h)), λ h. guards true (ground (arith, exact.1)))
