-- ===== src/HashList.antt =====
-- src/nvs_item_hash_list.hpp and src/nvs_item_hash_list.cpp: the cache of item hashes of a page, a
-- list of blocks of nodes. The intrusive list of blocks is a list, and the hash of an item,
-- `calculateCrc32WithoutValue() & 0xffffff`, is an argument. Whether a request for memory is
-- granted is an argument too: `false` where `new (std::nothrow)` returns null.
pub mod Entries
pub mod Erase
pub mod Lookup
use sming_nvs.Prelude.{
  ℕ, ◌%◌, Bool, true, false, ◌&&◌, ◌||◌, not, Option, none, some, List, [], ◌∷◌, ◌++◌, length, ltb,
  leb, ◌==◌, if◌then◌else◌,
}

-- `HashListNode`: bit fields of 8 and 24 bits.
pub record Node : Type 0 where
  pub index : ℕ
  pub hash : ℕ

-- `HashListNode(hash, index)`
abbrev pub new_node : ℕ → ℕ → Node
new_node hash index = record { index = index % 256; hash = hash % 16777216 }

-- `mNodes[0 .. mCount)` of a block
abbrev Block : Type 0
Block = List Node

abbrev pub HashList : Type 0
HashList = List Block

-- `HashListBlock::ENTRY_COUNT`, (128 - 2 * 4 - 4) / 4 where pointers and sizes take 4 bytes
abbrev block_entries : ℕ
block_entries = 29

-- The last block, if it has room, takes the node.
insert_last : Node → HashList → Option HashList
insert_last n [] = none
insert_last n (b ∷ []) = if ltb (length b) block_entries then some ((b ++ n ∷ []) ∷ []) else none
insert_last n (b ∷ c ∷ bs) = elim (insert_last n (c ∷ bs)) [
  | some bs' ↦ some (b ∷ bs')
  | none ↦ none
]

-- `none`: a new block was needed, and there was no memory for it.
unfoldable pub insert : ℕ → ℕ → Bool → HashList → Option HashList
unfolding insert_last
insert hash index granted h = elim (insert_last (new_node hash index) h) [
  | some h' ↦ some h'
  | none ↦ if granted then some (h ++ (new_node hash index ∷ []) ∷ []) else none
]

-- Whether `insert` asks for memory.
unfoldable pub asks : HashList → Bool
unfolding insert_last
asks h = elim (insert_last (record { index = 0; hash = 0 }) h) [ some _ ↦ false | none ↦ true ]

-- The inner loop of `erase` over the nodes of a block: the block after it, `haveEntries` and
-- `foundIndex` where it ended. It returns from the function at once when both are set.
erase_nodes : ℕ → Bool → Bool → Block → Block × Bool × Bool
erase_nodes index have found [] = ([], have, found)
erase_nodes index have found (n ∷ ns) =
    let hit = n.index == index in
    let n' = if hit then record n { index = 255 } else n in
    let found' = hit || found in
    let have' = have || not (n'.index == 255) in
    let (ns', have_end, found_end) = erase_nodes index have' found' ns in
    if have' && found' then (n' ∷ ns, true, true) else (n' ∷ ns', have_end, found_end)

-- The outer loop. A block with no entries left is taken out, also one that did not hold the index.
-- The Boolean says that the item was there: where it was not, `erase` runs into the assertion
-- `itemShouldExist`.
pub erase : ℕ → HashList → HashList × Bool
unfolding erase_nodes
erase index [] = ([], false)
erase index (b ∷ bs) =
    let (b', have, found) = erase_nodes index false false b in
    let (bs', found_later) = erase index bs in
    if have
    then (if found then (b' ∷ bs, true) else (b' ∷ bs', found_later))
    else (if found then (bs, true) else (bs', found_later))

find_node : ℕ → ℕ → Block → Option ℕ
find_node start hash [] = none
find_node start hash (n ∷ ns) =
    if leb start n.index && n.hash == hash && not (n.index == 255)
    then some n.index
    else find_node start hash ns

-- `none` stands for `SIZE_MAX`.
unfoldable pub find : ℕ → ℕ → HashList → Option ℕ
unfolding find_node
find start hash [] = none
find start hash (b ∷ bs) = elim (find_node start hash b) [
  | some i ↦ some i
  | none ↦ find start hash bs
]

abbrev pub clear : HashList → HashList
clear h = []
