-- ===== src/HashList/Lookup.antt =====
-- `HashList::find` on what `insert` and `erase` leave.
use sming_nvs.Prelude.{
  ℕ, ◌≡◌, ◌<◌, arith, Bool, ◌&&◌, none, some, [], ◌∷◌, leb, ◌==◌, if◌then◌else◌,
}
use sming_nvs.HashList.{new_node, HashList, insert, find}
use sming_nvs.HashList.Entries.{entries, first_match-append, find-first_match, entries-insert}

-- After an insertion, a search that found something before finds the same, and one that found
-- nothing finds the new entry if its hash is the one sought and its index is not below the start.
pub find-insert :
    (start sought hash index : ℕ) (granted : Bool) (h h' : HashList)
    → index < 255
    → insert hash index granted h ≡ some h'
    → find start sought h' ≡ (elim (find start sought h) [
      | some i ↦ some i
      | none ↦ if leb start index && (new_node hash index).hash == sought then some index else none
    ])
find-insert start sought hash index granted h h' lt e =
    rw
      (
        find-first_match start sought h',
        find-first_match start sought h,
        entries-insert hash index granted h h' lt e,
        first_match-append start sought (entries h) (new_node hash index ∷ []),
      )
      (ground arith)
