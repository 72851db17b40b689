-- ===== src/Page/Items.antt =====
-- src/nvs_page.cpp: `writeItem`, `readItem`, `cmpItem` and `copyItems`.
use Prim.Native.Nat.{min}
use sming_nvs.Prelude.{
  ℕ, zero, suc, ◌+◌, ◌-◌, ◌*◌, ◌/◌, ◌%◌, Bool, true, false, ◌&&◌, ◌||◌, not, some, List, [], ◌∷◌,
  ◌++◌, M, Void, nvs_invalid_state, nvs_page_full, nvs_key_too_long, nvs_value_too_long,
  nvs_type_mismatch, nvs_invalid_length, nvs_not_found, nvs_content_differs, pure, fail, raise_if,
  ◌>>=◌, ◌>>◌, ltb, ◌==◌, if◌then◌else◌, length, take, drop, replicate, bytes16, bytes32,
}
use sming_nvs.Item.{
  Item, new_item, of_raw, to_raw, calculate_crc32, data_crc32, is_variable_length_type,
  max_key_length, var_data_size, var_data_crc32,
}
use sming_nvs.Platform.{Platform}
use sming_nvs.Page.State.{
  Store, uninitialized, full, invalid, entry_size, entry_count, invalid_entry, chunk_max_size,
  gets_page,
}
use sming_nvs.Page.Table.{
  hash_insert, read_entry, write_entry, write_entry_data, erase_entry_and_span,
}
use sming_nvs.Page.Header.{initialize}
use sming_nvs.Page.Find.{Query, Found, find_or_fail}

-- `(dataSize + ENTRY_SIZE - 1) & ~(ENTRY_SIZE - 1)`
abbrev rounded_size : ℕ → ℕ
rounded_size n = (n + entry_size - 1) / entry_size * entry_size

-- `totalSize` and `entriesCount` of an item.
abbrev pub total_size : ℕ → ℕ → ℕ
total_size datatype data_size =
    if is_variable_length_type datatype then entry_size + rounded_size data_size else entry_size

abbrev pub entries_needed : ℕ → ℕ → ℕ
entries_needed datatype data_size =
    if is_variable_length_type datatype then 1 + rounded_size data_size / entry_size else 1

-- `memcpy(item.data, data, n)`, and the same onto an entry of bytes 0xff.
abbrev memcpy : List ℕ → List ℕ → List ℕ
memcpy buf bytes = bytes ++ drop (length bytes) buf

-- Whether the two buffers agree on the first `n` bytes; `memcmp(a, b, n) == 0`.
abbrev memcmp_eq : List ℕ → List ℕ → Bool
memcmp_eq [] [] = true
memcmp_eq (a ∷ as') (b ∷ bs) = a == b && memcmp_eq as' bs
memcmp_eq _ _ = false

-- `getAlignmentForType`
abbrev alignment_for_type : ℕ → ℕ
alignment_for_type t = t % 16

-- The item with its checksum.
abbrev pub sealed_item : (ℕ → List ℕ → ℕ) → Item → Item
sealed_item crc32_le i = record i { crc32 = calculate_crc32 crc32_le i }

module _ {Dev : Type 0} ⦃P : Platform Dev⦄ where
  -- The part of `writeItem` behind the insertion into the cache, for a value in one entry.
  unfoldable pub write_primitive : Item → List ℕ → M (Store Dev) Void
  write_primitive item bytes =
      write_entry (sealed_item P.crc32_le (record item { payload = memcpy item.payload bytes }))

  -- The same for a value with entries of its own: whole entries at once, then the tail.
  unfoldable pub write_variable : Item → List ℕ → M (Store Dev) Void
  write_variable item bytes = do
    let size = length bytes
    write_entry (
        sealed_item P.crc32_le (record item {
          payload = bytes16 size ++ (0xff ∷ 0xff ∷ bytes32 (data_crc32 P.crc32_le bytes));
        }))
    let left = size / entry_size * entry_size
    if ltb 0 left then write_entry_data (take left bytes) else pure tt
    if ltb 0 (size - left)
        then write_entry (of_raw (memcpy (replicate 32 0xff) (drop left bytes)))
        else pure tt

  unfoldable pub write_item : ℕ → ℕ → List ℕ → List ℕ → ℕ → M (Store Dev) Void
  write_item ns_index datatype key bytes chunk_idx = do
    before ← gets_page (λ p. p)
    raise_if (before.state == invalid) nvs_invalid_state
    if before.state == uninitialized then initialize else pure tt
    p ← gets_page (λ p. p)
    raise_if (p.state == full) nvs_page_full
    raise_if (ltb max_key_length (length key)) nvs_key_too_long
    raise_if (ltb chunk_max_size (length bytes)) nvs_value_too_long
    let needed = entries_needed datatype (length bytes)
    raise_if (p.next_free_entry == invalid_entry || ltb entry_count (p.next_free_entry + needed))
        nvs_page_full
    let span = (total_size datatype (length bytes) + entry_size - 1) / entry_size
    let item = new_item ns_index datatype (span % 256) (some key) chunk_idx
    hash_insert item p.next_free_entry
    if is_variable_length_type datatype
        then write_variable item bytes
        else write_primitive item bytes

  -- The loop of `readItem` over the `n` entries from `i` on: `left` bytes remain to be copied
  -- behind those in `out`.
  unfoldable pub read_chunks : ℕ → ℕ → ℕ → List ℕ → M (Store Dev) (List ℕ)
  read_chunks zero i left out = pure out
  read_chunks (suc n) i left out = do
    ditem ← read_entry i
    let will_copy = min left entry_size
    read_chunks n (i + 1) (left - will_copy) (out ++ take will_copy (to_raw ditem))

  -- `readItem` of the item that was found: a value in one entry, and a value with entries of its own.
  unfoldable pub read_primitive : List ℕ → Query → Found → M (Store Dev) (List ℕ)
  read_primitive buffer q r = do
    raise_if (not (length buffer == alignment_for_type q.datatype)) nvs_type_mismatch
    pure (take (length buffer) r.item.payload)

  unfoldable pub read_variable : List ℕ → Found → M (Store Dev) (List ℕ)
  read_variable buffer r = do
    let size = var_data_size r.item
    raise_if (ltb (length buffer) size) nvs_invalid_length
    out ← read_chunks (r.item.span - 1) (r.index + 1) size []
    let held = memcpy buffer out
    if data_crc32 P.crc32_le (take size held) == var_data_crc32 r.item
        then pure held
        else (erase_entry_and_span r.index >> fail nvs_not_found)

  -- `readItem` into a buffer; it gives what the buffer holds then.
  unfoldable pub read_item : Query → List ℕ → M (Store Dev) (List ℕ)
  read_item q buffer = do
    state ← gets_page (λ p. p.state)
    raise_if (state == invalid) nvs_invalid_state
    r ← find_or_fail q
    if is_variable_length_type q.datatype then read_variable buffer r else read_primitive buffer q r

  -- The loop of `cmpItem`.
  unfoldable pub cmp_chunks : ℕ → ℕ → ℕ → List ℕ → M (Store Dev) Void
  cmp_chunks zero i left rest = pure tt
  cmp_chunks (suc n) i left rest = do
    ditem ← read_entry i
    let will_copy = min left entry_size
    raise_if (not (memcmp_eq (take will_copy rest) (take will_copy (to_raw ditem))))
        nvs_content_differs
    cmp_chunks n (i + 1) (left - will_copy) (drop will_copy rest)

  -- `cmpItem` on the item that was found.
  unfoldable pub cmp_primitive : List ℕ → Query → Found → M (Store Dev) Void
  cmp_primitive bytes q r = do
    raise_if (not (length bytes == alignment_for_type q.datatype)) nvs_type_mismatch
    raise_if (not (memcmp_eq bytes (take (length bytes) r.item.payload))) nvs_content_differs

  unfoldable pub cmp_variable : List ℕ → Found → M (Store Dev) Void
  cmp_variable bytes r = do
    let size = var_data_size r.item
    raise_if (ltb (length bytes) size) nvs_invalid_length
    cmp_chunks (r.item.span - 1) (r.index + 1) size bytes
    raise_if (not (data_crc32 P.crc32_le (take size bytes) == var_data_crc32 r.item)) nvs_not_found

  unfoldable pub cmp_item : Query → List ℕ → M (Store Dev) Void
  cmp_item q bytes = do
    state ← gets_page (λ p. p.state)
    raise_if (state == invalid) nvs_invalid_state
    r ← find_or_fail q
    if is_variable_length_type q.datatype then cmp_variable bytes r else cmp_primitive bytes q r
