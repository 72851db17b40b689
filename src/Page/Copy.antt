-- ===== src/Page/Copy.antt =====
-- src/nvs_page.cpp: `copyItems`, on the page that is written. The page that is copied from is only
-- read, and is an argument.
use sming_nvs.Prelude.{
  ℕ, zero, suc, ◌+◌, ◌-◌, true, false, not, M, Void, nvs_not_found, pure, stuck_call, assert,
  attempt, done, failed, or_abort, raise_if, ◌>>=◌, ◌>>◌, ltb, leb, ◌==◌, if◌then◌else◌,
}
use sming_nvs.EnumTable
use sming_nvs.Item.{Item, of_raw}
use sming_nvs.Platform.{Platform}
use sming_nvs.Page.State.{
  Page, Store, uninitialized, written, entry_size, entry_count, invalid_entry, entry_shape, on_dev,
  gets_page,
}
use sming_nvs.Page.Table.{entry_address, hash_insert, write_entry}
use sming_nvs.Page.Header.{initialize}

module _ {Dev : Type 0} ⦃P : Platform Dev⦄ where
  -- `readEntry` on the page that is copied.
  unfoldable pub read_from : Page → ℕ → M (Store Dev) Item
  read_from from index = do
    assert (ltb index entry_count)
    bytes ← on_dev (P.read (entry_address index from) entry_size)
    pure (of_raw bytes)

  -- The inner loop, over the `n` entries from `i` on. A failed read is not noticed: the entry that
  -- was read last is written again.
  unfoldable pub copy_data : Page → ℕ → ℕ → Item → M (Store Dev) Void
  copy_data from zero i entry = pure tt
  copy_data from (suc n) i entry = do
    r ← attempt (read_from from i)
    let next : Item = elim r [ done e ↦ e | failed _ ↦ entry ]
    write_entry next
    copy_data from n (i + 1) next

  -- The outer loop, from entry `i` on. It runs out of fuel where an item has a span of 0.
  unfoldable pub copy_loop : Page → ℕ → ℕ → M (Store Dev) Void
  copy_loop from zero i = if ltb i entry_count then stuck_call else pure tt
  copy_loop from (suc fuel) i = elim (ltb i entry_count) [
    | false ↦ pure tt
    | true ↦ do
      state ← or_abort (EnumTable.get entry_shape i from.entry_table)
      elim (state == written) [
        | false ↦ do assert (not (i == from.first_used_entry)); copy_loop from fuel (i + 1)
        | true ↦ do
          entry ← read_from from i
          p ← gets_page (λ p. p)
          hash_insert entry p.next_free_entry
          write_entry entry
          let end = i + entry.span
          assert (leb end entry_count)
          copy_data from (end - (i + 1)) (i + 1) entry
          copy_loop from fuel end
      ]
  ]

  unfoldable pub copy_items : Page → M (Store Dev) Void
  copy_items from = do
    raise_if (from.first_used_entry == invalid_entry) nvs_not_found
    other ← gets_page (λ p. p)
    if other.state == uninitialized then initialize else pure tt
    copy_loop from 127 from.first_used_entry
