-- ===== src/Page/Load.antt =====
-- src/nvs_page.cpp: `load` and `mLoadEntryTable`, which rebuild the page object from flash after a
-- restart and repair what a power failure left half done.
use sming_nvs.Prelude.{
  ℕ, zero, suc, ◌+◌, ◌*◌, Bool, ◌||◌, not, List, [], ◌∷◌, M, Void, no_mem, invalid_arg,
  nvs_new_version_found, pure, raise_if, ◌>>=◌, ◌>>◌, ltb, ◌==◌, if◌then◌else◌, get_or, take, drop,
  word_at,
}
use sming_nvs.Platform.{Platform}
use sming_nvs.Page.State.{
  Store, uninitialized, active, full, freeing, corrupt, sec_size, entry_count, invalid_entry,
  nvs_version, entry_table_offset, on_dev, gets_page, set_page, set_state, or_invalid, request,
}
use sming_nvs.Page.Find.{no_item}
use sming_nvs.Page.Repair.{
  all_ones, count_entries, first_empty, skip_half_written, ignore_error, check_items, check_last,
  cache_items,
}

-- The table of eight words that 32 bytes hold.
abbrev words_of : ℕ → List ℕ → List ℕ
words_of zero b = []
words_of (suc n) b = word_at (take 4 b) ∷ words_of n (drop 4 b)

module _ {Dev : Type 0} ⦃P : Platform Dev⦄ where
  abbrev load_active : M (Store Dev) Void
  load_active = do
    first_empty entry_count 0
    skip_half_written 127
    p ← gets_page (λ p. p)
    last ←
        check_items (if ltb entry_count p.next_free_entry then entry_count else p.next_free_entry)
          127 0 (no_item, invalid_entry)
    check_last last

  abbrev load_entry_table : M (Store Dev) Void
  load_entry_table = do
    p ← gets_page (λ p. p)
    if p.state == active || p.state == full || p.state == freeing
        then (do
          bytes ← or_invalid (on_dev (P.read_raw (p.base_address + entry_table_offset) 32))
          set_page (λ q. record q { entry_table = words_of 8 bytes }))
        else pure tt
    set_page (λ q. record q { erased_entry_count = 0; used_entry_count = 0 })
    count_entries entry_count 0
    q ← gets_page (λ q. q)
    if q.state == active
        then load_active
        else (if q.state == full || q.state == freeing
            then cache_items 127 q.first_used_entry
            else pure tt)

  -- "check if the whole page is really empty": the `n` blocks of 512 bytes from `address` on.
  abbrev check_blank : ℕ → ℕ → M (Store Dev) Void
  check_blank zero address = pure tt
  check_blank (suc n) address = do
    block ← or_invalid (on_dev (P.read_raw address 512))
    if all_ones block then check_blank n (address + 512) else set_state corrupt

  -- What `load` does with the 32 bytes of the header.
  abbrev load_header : List ℕ → M (Store Dev) Void
  load_header header = do
    let header_state = word_at (take 4 header)
    p ← gets_page (λ p. p)
    if header_state == uninitialized
        then (do
          set_state uninitialized
          granted ← request
          raise_if (not granted) no_mem
          check_blank 8 p.base_address)
        else (if word_at (drop 28 header) == P.crc32_le 0xffff_ffff (take 24 (drop 4 header))
            then (do
              set_page (λ q. record q {
                state = header_state;
                seq_number = word_at (take 4 (drop 4 header));
              })
              raise_if (ltb (get_or header 8 0) nvs_version) nvs_new_version_found
              set_page (λ q. record q { version = get_or header 8 0 }))
            else pure tt)

  -- `load`; the Boolean says that the pointer to the partition is not null.
  abbrev pub load : Bool → ℕ → M (Store Dev) Void
  load has_partition sector_number = do
    raise_if (not has_partition) invalid_arg
    set_page (λ p. record p {
      base_address = sector_number * sec_size;
      used_entry_count = 0;
      erased_entry_count = 0;
    })
    p ← gets_page (λ p. p)
    header ← or_invalid (on_dev (P.read_raw p.base_address 32))
    load_header header
    q ← gets_page (λ q. q)
    if q.state == uninitialized
        then pure tt
        else (if q.state == full || q.state == active || q.state == freeing
            then ignore_error load_entry_table
            else set_state corrupt)
