-- ===== src/Page/Sought.antt =====
-- src/nvs_page.cpp: the search for the item that `writeItem` has put on a page.
use sming_nvs.Prelude.{ℕ, ◌<◌, ◌≤◌, ◌≡◌, ◌≢◌, ◌∙◌, arith, Bool, true, some, none, List}
use sming_nvs.HashList
use sming_nvs.HashList.{HashList, new_node}
use sming_nvs.HashList.Lookup.{find-insert}
use sming_nvs.Item.{Item, new_item, strncmp_eq, max_key_length, chunk_any, ver_any}
use sming_nvs.Item.ItemType
use sming_nvs.Page.State.{Page, ns_any}
use sming_nvs.Page.Find.{Query, hit, verdict, find_start}
use sming_nvs.Page.Stored.{item_hash}

-- The query for an item by its key and its chunk.
abbrev pub exactly : ℕ → ℕ → List ℕ → ℕ → Query
exactly ns_index datatype key chunk = record {
  ns_index = ns_index;
  datatype = datatype;
  key = some key;
  chunk_idx = chunk;
  chunk_start = ver_any;
}

-- The index of a blob is one item, which has no chunk number of its own.
abbrev pub ChunkFits : ℕ → ℕ → Type 0
ChunkFits datatype chunk = datatype ≡ ItemType.blob_idx → chunk ≡ chunk_any

pub verdict-exactly :
    (ns_index datatype : ℕ) (key : List ℕ) (chunk : ℕ) (i : Item)
    → i.ns_index ≡ ns_index
    → i.datatype ≡ datatype
    → i.chunk_index ≡ chunk
    → strncmp_eq max_key_length key i.key ≡ true
    → ChunkFits datatype chunk
    → verdict (exactly ns_index datatype key chunk) i ≡ hit
unfolding verdict
verdict-exactly ns_index datatype key chunk i n d c k fits = ground (arith, n, d, c, k, fits)

pub find_start-exactly :
    (crc32_le : ℕ → List ℕ → ℕ) (ns_index datatype : ℕ) (key : List ℕ) (chunk i : ℕ) (p : Page)
    → ns_index ≢ ns_any
    → datatype ≢ ItemType.any
    → HashList.find p.first_used_entry
        (item_hash crc32_le (new_item ns_index datatype 0 (some key) chunk))
        p.hash_list
      ≡ some i
    → i < 126
    → find_start crc32_le (exactly ns_index datatype key chunk) 0 p ≡ some i
unfolding find_start
find_start-exactly crc32_le ns_index datatype key chunk i p n d found lt =
    ground (arith, found, n, d)

-- The cache finds the item that it took in, if it knew none of its hash.
pub find-cached :
    (start hash i : ℕ) (granted : Bool) (h h' : HashList)
    → i < 255
    → start ≤ i
    → hash < 16777216
    → HashList.find start hash h ≡ none
    → HashList.insert hash i granted h ≡ some h'
    → HashList.find start hash h' ≡ some i
find-cached start hash i granted h h' lt le small fresh e =
    find-insert start hash hash i granted h h' lt e ∙ rw fresh (ground arith)
