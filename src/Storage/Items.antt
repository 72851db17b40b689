-- ===== src/Storage/Items.antt =====
-- src/nvs_storage.cpp: the operations on the items of a namespace.
use sming_nvs.Prelude.{
  ℕ, Bool, true, false, ◌||◌, Option, none, some, List, M, Void, Esp, nvs_page_full, nvs_not_found,
  nvs_not_enough_space, nvs_remove_failed, flash_op_fail, pure, fail, abort_call, assert, attempt,
  done, failed, try, check, or_abort, ◌>>=◌, ◌>>◌, ◌==◌, if◌then◌else◌, length,
}
use sming_nvs.Item.ItemType
use sming_nvs.Item.{
  chunk_any, ver_0_offset, ver_1_offset, ver_any, var_data_size, blob_data_size, blob_chunk_start,
}
use sming_nvs.Platform.{Platform}
use sming_nvs.Page.State.{uninitialized, invalid}
use sming_nvs.Page.Find.{query, no_item}
use sming_nvs.Page.Find
use sming_nvs.Page.Items
use sming_nvs.Storage.State.{Storage, Located, at_page, look_at, current_page, find_item}
use sming_nvs.Storage.Blobs.{
  need_active, close_page, write_multi_page_blob, erase_multi_page_blob, read_multi_page_blob,
  cmp_multi_page_blob,
}
use sming_nvs.Storage.Check.{debug_check}

-- `err == ESP_ERR_NVS_PAGE_FULL`, `err == ESP_ERR_FLASH_OP_FAIL`
abbrev is_page_full : Option Esp → Bool
is_page_full (some nvs_page_full) = true
is_page_full _ = false

-- The code of a failed erasure of the old value, as the caller gets it.
abbrev removal_code : Option Esp → Option Esp
removal_code (some flash_op_fail) = some nvs_remove_failed
removal_code rc = rc

-- The other of the two versions.
abbrev toggle : ℕ → ℕ
toggle v = if v == ver_1_offset then ver_0_offset else ver_1_offset

module _ {Dev : Type 0} ⦃P : Platform Dev⦄ where
  -- `ESP_ERROR_CHECK(findItem(...))`, where the page found before was freed since.
  abbrev find_again : ℕ → ℕ → List ℕ → Located → M (Storage Dev) Located
  find_again ns_index datatype key r = elim r.page [
    | none ↦ pure r
    | some i ↦ do
      p ← look_at i
      elim (p.state == uninitialized || p.state == invalid) [
        | false ↦ pure r
        | true ↦ do
          again ← find_item (query ns_index datatype (some key)) r.item
          elim again.code [ none ↦ pure again | some _ ↦ abort_call ]
      ]
  ]

  -- The end of `writeItem`: the old value of a key is erased.
  abbrev erase_old : ℕ → ℕ → List ℕ → Located → M (Storage Dev) Void
  erase_old ns_index datatype key r = do
    f ← find_again ns_index datatype key r
    elim f.page [
      | none ↦ pure tt
      | some i ↦ do
        rc ← try (at_page i (Find.erase_item (query ns_index datatype (some key))))
        check (removal_code rc)
    ]

  -- The branch of `writeItem` for values in one item. The Boolean says that nothing was to do.
  abbrev write_single : ℕ → ℕ → List ℕ → List ℕ → Located → M (Storage Dev) Bool
  write_single ns_index datatype key bytes old = do
    same ← (elim old.page [
      | none ↦ pure false
      | some i ↦ do
        rc ← try (at_page i (Items.cmp_item (query ns_index datatype (some key)) bytes))
        elim rc [ none ↦ pure true | some _ ↦ pure false ]
    ])
    elim same [
      | true ↦ pure true
      | false ↦ do
        page ← current_page
        rc ← try (at_page page (Items.write_item ns_index datatype key bytes chunk_any))
        elim (is_page_full rc) [
          | false ↦ do check rc; pure false
          | true ↦ do
            close_page page
            new ← current_page
            again ← try (at_page new (Items.write_item ns_index datatype key bytes chunk_any))
            elim (is_page_full again) [
              | true ↦ fail nvs_not_enough_space
              | false ↦ do check again; pure false
            ]
        ]
    ]

  -- The branch of `writeItem` for a blob whose index was found. The Boolean says that nothing was
  -- to do.
  abbrev rewrite_blob : ℕ → List ℕ → List ℕ → Located → M (Storage Dev) Bool
  rewrite_blob ns_index key bytes old = do
    same ← try (cmp_multi_page_blob ns_index key bytes)
    elim same [
      | none ↦ pure true
      | some _ ↦ do
        f ← find_again ns_index ItemType.blob key old
        let prev = blob_chunk_start f.item
        assert (prev == ver_0_offset || prev == ver_1_offset)
        rc ← try (write_multi_page_blob ns_index key bytes (toggle prev))
        if is_page_full rc then fail nvs_not_enough_space else check rc
        gone ← try (erase_multi_page_blob ns_index key prev)
        check (removal_code gone)
        pure false
    ]

  -- The branch of `writeItem` for a blob: where the old value is to be erased still, if at all.
  abbrev write_blob : ℕ → List ℕ → List ℕ → Located → M (Storage Dev) (Bool × Located)
  write_blob ns_index key bytes old = elim old.page [
    | some _ ↦ do
      same ← rewrite_blob ns_index key bytes old
      pure (same, record old { page = none })
    | none ↦ do
      rc ← try (write_multi_page_blob ns_index key bytes ver_0_offset)
      if is_page_full rc then fail nvs_not_enough_space else check rc
      r ← find_item (query ns_index ItemType.blob (some key)) old.item
      pure (false, r)
  ]

  unfoldable pub write_item : ℕ → ℕ → List ℕ → List ℕ → M (Storage Dev) Void
  write_item ns_index datatype key bytes = do
    need_active
    let blob = datatype == ItemType.blob
    old ←
        find_item (query ns_index (if blob then ItemType.blob_idx else datatype) (some key)) no_item
    (same, stale) ←
        (if blob
          then write_blob ns_index key bytes old
          else (do same ← write_single ns_index datatype key bytes old; pure (same, old)))
    elim same [ true ↦ pure tt | false ↦ do erase_old ns_index datatype key stale; debug_check ]

  unfoldable pub read_item : ℕ → ℕ → List ℕ → List ℕ → M (Storage Dev) (List ℕ)
  read_item ns_index datatype key buffer = do
    need_active
    blob ←
        (if datatype == ItemType.blob
          then attempt (read_multi_page_blob ns_index key (length buffer))
          else pure (failed nvs_not_found))
    elim blob [
      | done bytes ↦ pure bytes
      | failed nvs_not_found ↦ do
        r ← find_item (query ns_index datatype (some key)) no_item
        check r.code
        i ← or_abort r.page
        at_page i (Items.read_item (query ns_index datatype (some key)) buffer)
      | failed e ↦ fail e
    ]

  unfoldable pub erase_item : ℕ → ℕ → List ℕ → M (Storage Dev) Void
  erase_item ns_index datatype key = do
    need_active
    elim (datatype == ItemType.blob) [
      | true ↦ erase_multi_page_blob ns_index key ver_any
      | false ↦ do
        r ← find_item (query ns_index datatype (some key)) no_item
        check r.code
        i ← or_abort r.page
        if r.item.datatype == ItemType.blob_data || r.item.datatype == ItemType.blob_idx
            then erase_multi_page_blob ns_index key ver_any
            else at_page i (Find.erase_item (query ns_index datatype (some key)))
    ]

  abbrev pub get_item_data_size : ℕ → ℕ → List ℕ → M (Storage Dev) ℕ
  get_item_data_size ns_index datatype key = do
    need_active
    r ← find_item (query ns_index datatype (some key)) no_item
    elim r.code [
      | none ↦ pure (var_data_size r.item)
      | some e ↦
          if datatype == ItemType.blob
          then (do
            f ← find_item (query ns_index ItemType.blob_idx (some key)) r.item
            check f.code
            pure (blob_data_size f.item))
          else fail e
    ]
