-- ===== src/Page/Header.antt =====
-- src/nvs_page.cpp: the header of a page, its state, and the operations on the whole page.
use sming_nvs.Prelude.{
  ℕ, ◌+◌, ◌-◌, ◌*◌, ◌&&◌, ◌||◌, not, List, ◌∷◌, ◌++◌, M, Void, invalid_state, nvs_not_initialized,
  nvs_invalid_state, pure, fail, assert, abort_call, raise_if, modify, ◌>>=◌, ◌>>◌, ltb, ◌==◌,
  if◌then◌else◌, bytes32, replicate, u32,
}
use sming_nvs.HashList
use sming_nvs.Platform.{Platform}
use sming_nvs.Page.State.{
  Page, Store, uninitialized, active, full, freeing, corrupt, invalid, sec_size, entry_size,
  entry_count, invalid_entry, chunk_max_size, on_dev, gets_page, set_page, set_state, or_invalid,
}

-- The bytes of `Header` behind the state: sequence number, version and reserved bytes; `mCrc32` is
-- their checksum.
abbrev pub header_fields : ℕ → ℕ → List ℕ
header_fields seq_number version = bytes32 seq_number ++ version ∷ replicate 19 0xff

module _ {Dev : Type 0} where
  abbrev pub get_seq_number : M (Store Dev) ℕ
  get_seq_number = do
    p ← gets_page (λ p. p)
    if not (p.state == uninitialized) && not (p.state == invalid) && not (p.state == corrupt)
        then pure p.seq_number
        else fail nvs_not_initialized

  unfoldable pub set_seq_number : ℕ → M (Store Dev) Void
  set_seq_number seq_number = do
    p ← gets_page (λ p. p)
    raise_if (not (p.state == uninitialized)) nvs_invalid_state
    set_page (λ p. record p { seq_number = seq_number })

  unfoldable pub set_version : ℕ → M (Store Dev) Void
  set_version ver = do
    p ← gets_page (λ p. p)
    raise_if (not (p.state == uninitialized)) nvs_invalid_state
    set_page (λ p. record p { version = ver })

module _ {Dev : Type 0} ⦃P : Platform Dev⦄ where
  unfoldable pub initialize : M (Store Dev) Void
  initialize = do
    p ← gets_page (λ p. p)
    assert (p.state == uninitialized)
    set_state active
    let fields = header_fields p.seq_number p.version
    or_invalid (
        on_dev (
          P.write_raw p.base_address
            (bytes32 active ++ (fields ++ bytes32 (P.crc32_le 0xffff_ffff fields)))))
    set_page (λ p. record p { next_free_entry = 0; entry_table = replicate 8 0xffff_ffff })

  unfoldable pub alter_page_state : ℕ → M (Store Dev) Void
  alter_page_state state = do
    p ← gets_page (λ p. p)
    or_invalid (on_dev (P.write_raw p.base_address (bytes32 state)))
    set_state state

  unfoldable pub mark_freeing : M (Store Dev) Void
  mark_freeing = do
    p ← gets_page (λ p. p)
    raise_if (not (p.state == full) && not (p.state == active)) nvs_invalid_state
    alter_page_state freeing

  unfoldable pub mark_full : M (Store Dev) Void
  mark_full = do
    p ← gets_page (λ p. p)
    raise_if (not (p.state == active)) nvs_invalid_state
    alter_page_state full

  -- `Page::erase`
  abbrev pub erase_page : M (Store Dev) Void
  erase_page = do
    p ← gets_page (λ p. p)
    or_invalid (on_dev (P.erase_range p.base_address sec_size))
    set_page (λ p. record p {
      used_entry_count = 0;
      erased_entry_count = 0;
      first_used_entry = invalid_entry;
      next_free_entry = invalid_entry;
      state = uninitialized;
      hash_list = HashList.clear p.hash_list;
    })

-- `getVarDataTailroom`
unfoldable pub get_var_data_tailroom : Page → ℕ
get_var_data_tailroom p =
    if p.state == uninitialized
    then chunk_max_size
    else if p.state == full
    then 0
    else if ltb p.next_free_entry (entry_count - 1)
    then (entry_count - p.next_free_entry - 1) * entry_size
    else 0

-- `nvs_stats_t`
pub record Stats : Type 0 where
  pub used_entries : ℕ
  pub free_entries : ℕ
  pub total_entries : ℕ
  pub namespace_count : ℕ

-- `calcEntries`, on the page and the totals so far. The total is raised on every path that
-- returns. A used count above the number of entries wraps around in the subtraction.
unfoldable pub count_used : Page → Stats → Stats
count_used p s = record s {
  used_entries = s.used_entries + p.used_entry_count;
  free_entries = u32 (s.free_entries + (entry_count + 0x1_0000_0000 - p.used_entry_count));
}

unfoldable pub calc_entries : Page → M Stats Void
calc_entries p = do
  assert (not (p.state == freeing))
  modify (λ s. record s { total_entries = s.total_entries + entry_count })
  if p.state == uninitialized || p.state == corrupt
      then modify (λ s. record s { free_entries = s.free_entries + entry_count })
      else if p.state == full || p.state == active
      then modify (count_used p)
      else (if p.state == invalid then fail invalid_state else abort_call)
