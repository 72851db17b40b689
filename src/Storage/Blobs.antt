-- ===== src/Storage/Blobs.antt =====
-- src/nvs_storage.cpp: blobs that are stored as an index and chunks on several pages.
use Prim.Native.Nat.{min}
use sming_nvs.Prelude.{
  ℕ, zero, suc, ◌+◌, ◌-◌, ◌*◌, ◌/◌, Bool, true, false, ◌&&◌, ◌||◌, not, Option, none, some, List,
  [], ◌∷◌, ◌++◌, M, Void, Esp, no_mem, nvs_page_full, nvs_not_found, nvs_not_initialized,
  nvs_value_too_long, nvs_not_enough_space, nvs_content_differs, pure, fail, stuck_call, assert,
  raise_if, try, check, or_abort, ◌>>=◌, ◌>>◌, ltb, ◌==◌, if◌then◌else◌, length, take, drop,
  replicate, bytes32, u8, u32,
}
use sming_nvs.Item.ItemType
use sming_nvs.Item.{
  Item, chunk_any, ver_any, var_data_size, blob_data_size, blob_chunk_count, blob_chunk_start,
}
use sming_nvs.Platform.{Platform}
use sming_nvs.Page.State.{full, chunk_max_size, entry_size}
use sming_nvs.Page.Header.{mark_full, get_var_data_tailroom}
use sming_nvs.Page.Find.{Query, no_item, erase_item}
use sming_nvs.Page.Items.{write_item, read_item, cmp_item}
use sming_nvs.PageManager.{request_new_page}
use sming_nvs.Storage.State.{
  Storage, StorageState, storage_active, storage_invalid, gets_storage, on_manager, at_page,
  look_at, current_page, request_memory, find_item,
}

-- The search for a chunk of a blob, and for its index.
abbrev chunk_query : ℕ → List ℕ → ℕ → Query
chunk_query ns_index key chunk = record {
  ns_index = ns_index;
  datatype = ItemType.blob_data;
  key = some key;
  chunk_idx = chunk;
  chunk_start = ver_any;
}

abbrev index_query : ℕ → List ℕ → ℕ → Query
index_query ns_index key chunk_start = record {
  ns_index = ns_index;
  datatype = ItemType.blob_idx;
  key = some key;
  chunk_idx = chunk_any;
  chunk_start = chunk_start;
}

-- `assert(err != ESP_ERR_NVS_PAGE_FULL)`
abbrev not_page_full : Option Esp → Bool
not_page_full (some nvs_page_full) = false
not_page_full _ = true

-- `mState != StorageState::ACTIVE`
abbrev pub is_active : StorageState → Bool
is_active storage_active = true
is_active storage_invalid = false

-- The payload of an index.
abbrev index_payload : ℕ → ℕ → ℕ → List ℕ
index_payload size count start = bytes32 size ++ (count ∷ start ∷ 0xff ∷ 0xff ∷ [])

-- `usedPages`, first to last, `chunkCount`, and the data from `offset` on.
pub record Progress : Type 0 where
  pub used_pages : List ℕ
  pub chunk_count : ℕ
  pub rest : List ℕ

-- `max_pages` of the partition.
abbrev max_blob_pages : ℕ → ℕ
max_blob_pages page_count =
    let others = u32 (page_count + 0xffff_ffff) in
    if ltb ((chunk_any - 1) / 2) others then (chunk_any - 1) / 2 else others

module _ {Dev : Type 0} ⦃P : Platform Dev⦄ where
  abbrev pub need_active : M (Storage Dev) Void
  need_active = do raise_if (not (is_active (← gets_storage (λ s. s.state)))) nvs_not_initialized

  -- `if (page.state() != FULL) page.markFull()`, and a new page.
  abbrev pub close_page : ℕ → M (Storage Dev) Void
  close_page i = do
    p ← look_at i
    if p.state == full then pure tt else at_page i mark_full
    on_manager request_new_page

  -- The index behind the last chunk.
  abbrev write_index : ℕ → List ℕ → ℕ → ℕ → ℕ → M (Storage Dev) (Option Esp)
  write_index ns_index key size count start = do
    page ← current_page
    rc ← try (
        at_page page
          (write_item ns_index ItemType.blob_idx key (index_payload size count start) chunk_any))
    assert (not_page_full rc)
    pure rc

  -- A chunk of at most `tailroom` bytes on the page, the end of that page if it is used up, and the
  -- code with which the loop is left, if it is. `start` is `chunkStart`.
  abbrev write_chunk : ℕ → List ℕ → ℕ → ℕ → ℕ → Progress → M (Storage Dev) (Option Esp × Progress)
  write_chunk ns_index key start page tailroom g = do
    let size = min (length g.rest) tailroom
    let g' = record g { chunk_count = u8 (g.chunk_count + 1); rest = drop size g.rest }
    rc ← try (
        at_page page (
          write_item ns_index ItemType.blob_data key (take size g.rest)
            (u8 (start + g.chunk_count))))
    assert (not_page_full rc)
    elim rc [
      | some e ↦ pure (some e, g')
      | none ↦ do
        granted ← request_memory
        elim granted [
          | false ↦ pure (some no_mem, g')
          | true ↦ do
            closed ←
                (if ltb 0 (length g'.rest) || ltb (tailroom - size) entry_size
                  then try (close_page page)
                  else pure none)
            pure (closed, record g' { used_pages = g.used_pages ++ page ∷ [] })
        ]
    ]

  -- The loop of `writeMultiPageBlob`. It is left with a code and the chunks written. A page with
  -- too little room for a first chunk is closed; as often as the room on the new page differs,
  -- this is done again.
  abbrev write_chunks : ℕ → List ℕ → ℕ → ℕ → ℕ → Progress → M (Storage Dev) (Option Esp × Progress)
  write_chunks ns_index key size start zero g = stuck_call
  write_chunks ns_index key size start (suc fuel) g = do
    page ← current_page
    tailroom ← (do p ← look_at page; pure (get_var_data_tailroom p))
    elim (g.chunk_count == 0 && ltb tailroom size && ltb tailroom (chunk_max_size / 10)) [
      | true ↦ do
        close_page page
        new ← current_page
        p ← look_at new
        elim (get_var_data_tailroom p == tailroom) [
          | true ↦ fail nvs_not_enough_space
          | false ↦ write_chunks ns_index key size start fuel g
        ]
      | false ↦ elim (tailroom == 0) [
        | true ↦ pure (some nvs_not_enough_space, g)
        | false ↦ do
          (rc, g') ← write_chunk ns_index key start page tailroom g
          elim rc [
            | some e ↦ pure (some e, g')
            | none ↦ elim g'.rest [
              | [] ↦ do code ← write_index ns_index key size g'.chunk_count start; pure (code, g')
              | _ ∷ _ ↦ write_chunks ns_index key size start fuel g'
            ]
          ]
      ]
    ]

  -- "Anything failed, then we should erase all the written chunks"
  abbrev erase_chunks : ℕ → List ℕ → ℕ → List ℕ → M (Storage Dev) Void
  erase_chunks ns_index key ii [] = pure tt
  erase_chunks ns_index key ii (i ∷ is) = do
    rc ← try (at_page i (erase_item (chunk_query ns_index key (u8 ii))))
    erase_chunks ns_index key (ii + 1) is

  abbrev pub write_multi_page_blob : ℕ → List ℕ → List ℕ → ℕ → M (Storage Dev) Void
  write_multi_page_blob ns_index key bytes start = do
    pages ← gets_storage (λ s. s.manager.page_count)
    raise_if (ltb (max_blob_pages pages * chunk_max_size) (length bytes)) nvs_value_too_long
    (rc, g) ←
        write_chunks ns_index key (length bytes) start (length bytes + 256)
          (record { used_pages = []; chunk_count = 0; rest = bytes })
    elim rc [ none ↦ pure tt | some _ ↦ erase_chunks ns_index key 0 g.used_pages ]
    check rc

  -- The loop of `eraseMultiPageBlob` over the `n` chunks from `num` on.
  abbrev erase_each : ℕ → List ℕ → ℕ → ℕ → ℕ → Item → M (Storage Dev) Void
  erase_each ns_index key start zero num item = pure tt
  erase_each ns_index key start (suc n) num item = do
    r ← find_item (chunk_query ns_index key (u8 (start + num))) item
    elim r.page [
      | none ↦ pure tt
      | some i ↦ at_page i (erase_item (chunk_query ns_index key (u8 (start + num))))
    ]
    erase_each ns_index key start n (num + 1) r.item

  abbrev pub erase_multi_page_blob : ℕ → List ℕ → ℕ → M (Storage Dev) Void
  erase_multi_page_blob ns_index key chunk_start = do
    need_active
    r ← find_item (index_query ns_index key chunk_start) no_item
    check r.code
    i ← or_abort r.page
    at_page i (erase_item (index_query ns_index key chunk_start))
    let start = blob_chunk_start r.item
    if chunk_start == ver_any then pure tt else assert (chunk_start == start)
    erase_each ns_index key start (blob_chunk_count r.item) 0 r.item

  -- The loop of `readMultiPageBlob` over the `n` chunks from `num` on; `held` is what is read.
  -- `none` where a chunk is not found.
  abbrev read_each : ℕ → List ℕ → ℕ → ℕ → ℕ → Item → List ℕ → M (Storage Dev) (Option (List ℕ))
  read_each ns_index key start zero num item held = pure (some held)
  read_each ns_index key start (suc n) num item held = do
    let q = chunk_query ns_index key (u8 (start + num))
    r ← find_item q item
    elim r.page [
      | none ↦ pure none
      | some i ↦ do
        bytes ← at_page i (read_item q (replicate (var_data_size r.item) 0))
        assert (start + num == r.item.chunk_index)
        read_each ns_index key start n (num + 1) r.item (held ++ bytes)
    ]

  abbrev pub read_multi_page_blob : ℕ → List ℕ → ℕ → M (Storage Dev) (List ℕ)
  read_multi_page_blob ns_index key size = do
    r ← find_item (index_query ns_index key ver_any) no_item
    check r.code
    assert (size == blob_data_size r.item)
    held ← read_each ns_index key (blob_chunk_start r.item) (blob_chunk_count r.item) 0 r.item []
    elim held [
      | some bytes ↦ do assert (length bytes == size); pure bytes
      | none ↦ do rc ← try (erase_multi_page_blob ns_index key ver_any); fail nvs_not_found
    ]

  -- The loop of `cmpMultiPageBlob`; `rest` is the data from `offset` on, and nothing stands behind
  -- its end. `none` where a chunk is not found.
  abbrev cmp_each : ℕ → List ℕ → ℕ → ℕ → ℕ → Item → List ℕ → M (Storage Dev) (Option (List ℕ))
  cmp_each ns_index key start zero num item rest = pure (some rest)
  cmp_each ns_index key start (suc n) num item rest = do
    let q = chunk_query ns_index key (u8 (start + num))
    r ← find_item q item
    elim r.page [
      | none ↦ pure none
      | some i ↦ do
        let size = var_data_size r.item
        at_page i (cmp_item q (take size rest))
        assert (start + num == r.item.chunk_index)
        cmp_each ns_index key start n (num + 1) r.item (drop size rest)
    ]

  abbrev pub cmp_multi_page_blob : ℕ → List ℕ → List ℕ → M (Storage Dev) Void
  cmp_multi_page_blob ns_index key bytes = do
    r ← find_item (index_query ns_index key ver_any) no_item
    check r.code
    raise_if (not (length bytes == blob_data_size r.item)) nvs_content_differs
    rest ← cmp_each ns_index key (blob_chunk_start r.item) (blob_chunk_count r.item) 0 r.item bytes
    elim rest [ some left ↦ assert (length left == 0) | none ↦ fail nvs_not_found ]
