-- ===== src/Page/Table.antt =====
-- src/nvs_page.cpp: the entry states in memory and on flash, single entries, and the erasure of an
-- item with all its entries.
use sming_nvs.Prelude.{
  ℕ, zero, suc, ◌+◌, ◌-◌, ◌*◌, ◌/◌, ◌%◌, Bool, true, false, ◌||◌, not, none, some, List, M, Void,
  no_mem, ok, abort, pure, fail, assert, check, try, or_abort, ◌>>=◌, ◌>>◌, ltb, leb, ◌==◌,
  if◌then◌else◌, get_or, inc16, dec16, bytes32, length,
}
use sming_nvs.EnumTable
use sming_nvs.HashList
use sming_nvs.Item.{Item, of_raw, to_raw, calculate_crc32, calculate_crc32_without_value}
use sming_nvs.Platform.{Platform}
use sming_nvs.Page.State.{
  Page, Store, written, empty, erased, entry_size, entry_count, invalid_entry, entry_table_offset,
  entry_data_offset, entry_shape, on_dev, gets_page, set_page, or_invalid, request,
}

-- The address and the bytes of a word of the table.
abbrev table_word_address : ℕ → Page → ℕ
table_word_address word p = p.base_address + entry_table_offset + word * 4

abbrev pub table_word : ℕ → Page → List ℕ
table_word word p = bytes32 (get_or p.entry_table word 0)

abbrev pub entry_address : ℕ → Page → ℕ
entry_address entry p = p.base_address + entry_data_offset + entry * entry_size

module _ {Dev : Type 0} where
  -- `mEntryTable.get(index)` and `mEntryTable.set(index, state)`
  unfoldable pub entry_state : ℕ → M (Store Dev) ℕ
  entry_state index s = or_abort (EnumTable.get entry_shape index s.page.entry_table) s

  unfoldable pub put_entry_state : ℕ → ℕ → M (Store Dev) Void
  put_entry_state index state s = elim (EnumTable.put entry_shape index state s.page.entry_table) [
    | none ↦ (abort, s)
    | some table ↦ (ok tt, record s { page = record s.page { entry_table = table } })
  ]

  -- `mHashList.erase(index, itemShouldExist)`
  unfoldable pub hash_erase : ℕ → Bool → M (Store Dev) Void
  hash_erase index should_exist s =
      let (h, found) = HashList.erase index s.page.hash_list in
      assert (found || not should_exist) (record s { page = record s.page { hash_list = h } })

  -- The loop of `updateFirstUsedEntry`, over the `n` entries from `i` on.
  unfoldable pub first_written : ℕ → ℕ → M (Store Dev) Void
  first_written zero i = pure tt
  first_written (suc n) i = do
    state ← entry_state i
    if state == written
        then set_page (λ p. record p { first_used_entry = i })
        else first_written n (i + 1)

  unfoldable pub update_first_used_entry : ℕ → ℕ → M (Store Dev) Void
  update_first_used_entry index span = do
    assert (index == (← gets_page (λ p. p.first_used_entry)))
    set_page (λ p. record p { first_used_entry = invalid_entry })
    next ← gets_page (λ p. p.next_free_entry)
    let end = if ltb entry_count next then entry_count else next
    first_written (end - (index + span)) (index + span)

  -- The loop of `eraseEntryAndSpan` that counts, over the `n` entries from `index` on, last first.
  unfoldable pub count_erased : ℕ → ℕ → M (Store Dev) Void
  count_erased index zero = pure tt
  count_erased index (suc n) = do
    state ← entry_state (index + n)
    set_page (λ p. record p {
      used_entry_count = if state == written then dec16 p.used_entry_count else p.used_entry_count;
      erased_entry_count = inc16 p.erased_entry_count;
    })
    count_erased index n

module _ {Dev : Type 0} ⦃P : Platform Dev⦄ where
  -- `mHashList.insert(item, index)`
  unfoldable pub hash_insert : Item → ℕ → M (Store Dev) Void
  hash_insert item index = do
    h ← gets_page (λ p. p.hash_list)
    granted ← (if HashList.asks h then request else pure true)
    let hash = calculate_crc32_without_value P.crc32_le item % 16777216
    elim (HashList.insert hash index granted h) [
      | none ↦ fail no_mem
      | some h' ↦ set_page (λ p. record p { hash_list = h' })
    ]

  unfoldable pub alter_entry_state : ℕ → ℕ → M (Store Dev) Void
  alter_entry_state index state = do
    assert (ltb index entry_count)
    put_entry_state index state
    p ← gets_page (λ p. p)
    let word = EnumTable.get_word_index entry_shape index
    or_invalid (on_dev (P.write_raw (table_word_address word p) (table_word word p)))

  -- The loop of `alterEntryRangeState`, over the `n` entries from `begin` on, last first. `SIZE_MAX`
  -- stands for the word before the first.
  unfoldable pub alter_range : ℕ → ℕ → ℕ → ℕ → M (Store Dev) Void
  alter_range begin state word_index zero = pure tt
  alter_range begin state word_index (suc n) = do
    put_entry_state (begin + n) state
    let next_word_index =
        if n == 0 then 0xffff_ffff else EnumTable.get_word_index entry_shape (begin + n - 1)
    p ← gets_page (λ p. p)
    if next_word_index == word_index
        then pure tt
        else on_dev (P.write_raw (table_word_address word_index p) (table_word word_index p))
    alter_range begin state next_word_index n

  unfoldable pub alter_entry_range_state : ℕ → ℕ → ℕ → M (Store Dev) Void
  alter_entry_range_state begin end state = do
    assert (leb end entry_count)
    assert (ltb begin end)
    alter_range begin state (EnumTable.get_word_index entry_shape (end - 1)) (end - begin)

  unfoldable pub read_entry : ℕ → M (Store Dev) Item
  read_entry index = do
    assert (ltb index entry_count)
    p ← gets_page (λ p. p)
    bytes ← on_dev (P.read (entry_address index p) entry_size)
    pure (of_raw bytes)

  unfoldable pub write_entry : Item → M (Store Dev) Void
  write_entry item = do
    p ← gets_page (λ p. p)
    assert (ltb p.next_free_entry entry_count)
    or_invalid (on_dev (P.write (entry_address p.next_free_entry p) (to_raw item)))
    alter_entry_state p.next_free_entry written
    set_page (λ q. record q {
      first_used_entry =
          if q.first_used_entry == invalid_entry then q.next_free_entry else q.first_used_entry;
      used_entry_count = inc16 q.used_entry_count;
      next_free_entry = q.next_free_entry + 1;
    })

  unfoldable pub write_entry_data : List ℕ → M (Store Dev) Void
  write_entry_data bytes = do
    p ← gets_page (λ p. p)
    assert (length bytes % entry_size == 0)
    assert (not (p.next_free_entry == invalid_entry))
    assert (not (p.first_used_entry == invalid_entry))
    let count = length bytes / entry_size % 65536
    assert (ltb p.next_free_entry entry_count)
    or_invalid (on_dev (P.write (entry_address p.next_free_entry p) bytes))
    alter_entry_range_state p.next_free_entry (p.next_free_entry + count) written
    set_page (λ q. record q {
      used_entry_count = (q.used_entry_count + count) % 65536;
      next_free_entry = q.next_free_entry + count;
    })

  -- The three branches of `eraseEntryAndSpan`, which give the span.
  unfoldable pub erase_broken : ℕ → M (Store Dev) ℕ
  erase_broken index = do
    hash_erase index false
    rc ← try (alter_entry_state index erased)
    set_page (λ p. record p {
      used_entry_count = dec16 p.used_entry_count;
      erased_entry_count = inc16 p.erased_entry_count;
    })
    check rc
    pure 1

  unfoldable pub erase_item_span : ℕ → ℕ → M (Store Dev) ℕ
  erase_item_span index span = do
    hash_erase index true
    count_erased index span
    if span == 1
        then alter_entry_state index erased
        else alter_entry_range_state index (index + span) erased
    pure span

  unfoldable pub erase_written : ℕ → M (Store Dev) ℕ
  erase_written index = do
    item ← read_entry index
    if calculate_crc32 P.crc32_le item == item.crc32
        then erase_item_span index item.span
        else erase_broken index

  unfoldable pub erase_entry_and_span : ℕ → M (Store Dev) Void
  erase_entry_and_span index = do
    state ← entry_state index
    assert (state == written || state == empty)
    span ←
        (if state == written
          then erase_written index
          else (alter_entry_state index erased >> pure 1))
    p ← gets_page (λ p. p)
    if index == p.first_used_entry then update_first_used_entry index span else pure tt
    set_page (λ q. record q {
      next_free_entry =
          if ltb q.next_free_entry (index + span) then index + span else q.next_free_entry;
    })
