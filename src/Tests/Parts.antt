-- ===== src/Tests/Parts.antt =====
-- The theorems on the iterator, the lengths, the encrypted partition and the intrusive list on concrete
-- inputs.
use sming_nvs.Prelude.{
  ℕ, zero, suc, ◌≡◌, ◌≢◌, refl, arith, none, some, List, [], ◌∷◌, ◌++◌, ok, stuck,
  nvs_invalid_length, replicate, length, get_elem?, take, word_at, ◌==◌, if◌then◌else◌,
}
use sming_nvs.EnumTable.{get}
use sming_nvs.HashList.{find}
use sming_nvs.Item.ItemType
use sming_nvs.Item.{calculate_crc32, calculate_crc32_without_value, new_item}
use sming_nvs.Page.Find.{find_start, find_loop, verdict, find_item}
use sming_nvs.Page.Table.{entry_state, read_entry}
use sming_nvs.Storage.State.{Storage, storage_active}
use sming_nvs.Storage.State
use sming_nvs.Storage.Entries.{Iterator, next_entry}
use sming_nvs.Storage.Entries.Presents.{Presents}
use sming_nvs.PartitionManager.{Registry, node_at, put_node, on_storage, handle_object}
use sming_nvs.Handle.{get_item_size}
use sming_nvs.Api.{Api, Entry, Fetched, find_entry, find_ns_handle, fetch, nvs_get_str_or_blob}
use sming_nvs.Api.Lengths.{Fits, nvs_get_str_or_blob-Fits}
use sming_nvs.EspPartition.{EspFlash, Xts, Encrypted, encrypt_loop, encrypted_write, encrypted_read}
use sming_nvs.EspPartition.RoundTrip.{IsCipher, ReadsBack, encrypted_write-encrypted_read}
use sming_nvs.EspPartition.Sizes.{encrypt_loop-ends}
use sming_nvs.IntrusiveList.{Links, push_back, push_front, erase, walk, clear}
use sming_nvs.IntrusiveList.Refines.{IsList, before, remove, erase-IsList}
use sming_nvs.IntrusiveList.Pushes.{IsNew, push_back-IsList, push_front-IsList}
use sming_nvs.IntrusiveList.Loops.{walk-list, clear-IsList}
use sming_nvs.Tests.{platform, page, store, key, sum}
use sming_nvs.Tests.Handles.{name, label, registry, api}

-- A storage whose one page has one item.
abbrev filled : Storage (List ℕ)
filled = record {
  manager = record {
    pages = page ∷ [];
    page_list = 0 ∷ [];
    free_page_list = [];
    base_sector = 0;
    page_count = 1;
    seq_number = 4;
    heap = [];
    dev = store.dev;
  };
  namespaces = record { name = name; index = 1 } ∷ [];
  namespace_usage = 3 ∷ replicate 7 0;
  state = storage_active;
}

abbrev start : Iterator
start = record {
  datatype = ItemType.u8;
  ns_index = 1;
  entry_index = 0;
  page = some 0;
  entry_info = record { namespace_name = []; key = []; datatype = 0 };
}

abbrev shown : Iterator
shown = record {
  datatype = ItemType.u8;
  ns_index = 1;
  entry_index = 1;
  page = some 0;
  entry_info = record { namespace_name = name; key = key; datatype = ItemType.u8 };
}

abbrev presented : Storage (List ℕ)
presented = (next_entry start filled).1

abbrev full : Api (List ℕ)
full = record api {
  registry = record registry {
    storages =
        record { address = 5; partition = record { address = 4; name = label }; storage = filled }
        ∷ [];
  };
}

abbrev too_long : Fetched
too_long = record { code = some nvs_invalid_length; length = some 65287; value = some (0 ∷ []) }

abbrev number_one : Entry
number_one = record { c_handle = 1; handle = 7; part_name = label }

known : find_entry 1 full.entries ≡ some number_one
unfolding find_entry
known = refl

abbrev measured : Registry (List ℕ)
measured = (get_item_size ItemType.u8 key 7 full.registry).1

sized : get_item_size ItemType.u8 key 7 full.registry ≡ (ok 65287, measured)
unfolding get_item_size handle_object on_storage node_at put_node State.find_item find_item
    find_start find_loop find entry_state get read_entry verdict calculate_crc32
    calculate_crc32_without_value new_item platform sum word_at
sized = refl

abbrev refused : Api (List ℕ)
refused = (nvs_get_str_or_blob 1 ItemType.u8 key (some (0 ∷ [])) (some 1) full).1

asked : nvs_get_str_or_blob 1 ItemType.u8 key (some (0 ∷ [])) (some 1) full ≡ (ok too_long, refused)
unfolding nvs_get_str_or_blob fetch find_ns_handle find_entry get_item_size handle_object on_storage
    node_at put_node State.find_item find_item find_start find_loop find entry_state get read_entry
    verdict calculate_crc32 calculate_crc32_without_value new_item platform sum word_at
asked = refl

nvs_get_str_or_blob-Fits_example : Fits 65287 1 (0 ∷ []) too_long
nvs_get_str_or_blob-Fits_example =
    nvs_get_str_or_blob-Fits 1 ItemType.u8 key (0 ∷ []) 1 full refused number_one 65287 measured
      too_long known sized asked

-- A chip that holds one piece of bytes, and a cipher that changes none.
abbrev chip : EspFlash (List ℕ)
chip = record {
  read_raw = λ a n d. (ok (take n d), d);
  read = λ a n d. (ok d, d);
  write_raw = λ a bs d. (ok tt, bs);
  write = λ a bs d. (ok tt, bs);
  erase_range = λ a n d. (ok tt, []);
  crc32_le = sum;
}

chip-ReadsBack : ReadsBack chip
chip-ReadsBack = record { entry = λ a bs d d' size e. ground (arith, e) }

abbrev cipher : Xts
cipher = record { encrypt = λ unit bs. some bs; decrypt = λ unit bs. some bs }

cipher-IsCipher : IsCipher cipher
cipher-IsCipher = record {
  size = λ unit plain bytes e. ground (arith, e);
  inverse = λ unit plain bytes e. ground (arith, e);
}

abbrev entry_bytes : List ℕ
entry_bytes = replicate 32 5

abbrev safe : Encrypted (List ℕ)
safe = record { dev = []; heap = [] }

wrote : (encrypted_write chip cipher 64 entry_bytes safe).0 ≡ ok tt
unfolding encrypted_write encrypt_loop
wrote = refl

encrypted_write-encrypted_read_example :
    (encrypted_read chip cipher 64 32 (encrypted_write chip cipher 64 entry_bytes safe).1).0
    ≡ ok entry_bytes
encrypted_write-encrypted_read_example =
    encrypted_write-encrypted_read chip cipher chip-ReadsBack cipher-IsCipher 64 entry_bytes safe
      refl wrote

encrypt_loop-ends_example : encrypt_loop cipher 64 257 0 entry_bytes ≢ stuck
encrypt_loop-ends_example = encrypt_loop-ends cipher 64 entry_bytes cipher-IsCipher (omega arith)

-- The list of the nodes 4 and 9.
abbrev links : Links
links = record {
  first = some 4;
  last = some 9;
  size = 2;
  prev = λ x. if x == 9 then some 4 else none;
  next = λ x. if x == 4 then some 9 else none;
}

abbrev nodes : List ℕ
nodes = 4 ∷ 9 ∷ []

links-IsList : IsList links nodes
links-IsList = record {
  head = refl;
  tail = refl;
  next = λ i x e. next_node i x e;
  prev = λ i x e. prev_node i x e;
  once = λ i j x e f. one_place i j x e f;
  count = refl;
}
  where
    next_node : (i x : ℕ) → get_elem? nodes i ≡ some x → links.next x ≡ get_elem? nodes (suc i)
    next_node zero x e = ground (arith, e)
    next_node (suc zero) x e = ground (arith, e)
    next_node (suc (suc i)) x e = absurd (ground (arith, e))

    prev_node : (i x : ℕ) → get_elem? nodes i ≡ some x → links.prev x ≡ before nodes i
    prev_node zero x e = ground (arith, e)
    prev_node (suc zero) x e = ground (arith, e)
    prev_node (suc (suc i)) x e = absurd (ground (arith, e))

    one_place : (i j x : ℕ) → get_elem? nodes i ≡ some x → get_elem? nodes j ≡ some x → i ≡ j
    one_place zero zero x e f = refl
    one_place zero (suc zero) x e f = absurd (ground (arith, e, f))
    one_place (suc zero) zero x e f = absurd (ground (arith, e, f))
    one_place (suc zero) (suc zero) x e f = refl
    one_place (suc (suc i)) j x e f = absurd (ground (arith, e))
    one_place zero (suc (suc j)) x e f = absurd (ground (arith, f))
    one_place (suc zero) (suc (suc j)) x e f = absurd (ground (arith, f))

erase-IsList_example : IsList (erase 9 links) (remove 1 nodes)
erase-IsList_example = erase-IsList links nodes 1 9 links-IsList refl (omega arith)

six-IsNew : IsNew 6 nodes
six-IsNew zero e = ground (arith, e)
six-IsNew (suc zero) e = ground (arith, e)
six-IsNew (suc (suc i)) e = ground (arith, e)

push_back-IsList_example : IsList (push_back 6 links) (nodes ++ 6 ∷ [])
push_back-IsList_example = push_back-IsList links nodes 6 links-IsList six-IsNew (omega arith)

push_front-IsList_example : IsList (push_front 6 links) (6 ∷ nodes)
push_front-IsList_example = push_front-IsList links nodes 6 links-IsList six-IsNew (omega arith)

walk-list_example : walk (length nodes) links.first links ≡ some nodes
walk-list_example = walk-list links nodes links-IsList

clear-IsList_example :
    (end : Links) × (clear (suc (length nodes)) links ≡ some (nodes, end)) × IsList end []
clear-IsList_example = clear-IsList links nodes links-IsList (omega arith)
