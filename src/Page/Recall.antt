-- ===== src/Page/Recall.antt =====
-- src/nvs_page.cpp: how `findItem` meets an item that is on the page.
use mathlib.Core.Path.{subst}
use sming_nvs.Prelude.{
  ℕ, suc, ◌<◌, ◌≤◌, ◌≡◌, ap, ◌∙◌, arith, true, some, none, List, ok, length, length-append, ltb,
  ◌==◌, lt→ltb,
}
use sming_nvs.EnumTable
use sming_nvs.Item.{Item, of_raw, to_raw, calculate_crc32}
use sming_nvs.Item.Codec.{IsItem, of_raw-to_raw}
use sming_nvs.Platform.{Platform}
use sming_nvs.Platform.Flash.{Flash}
use sming_nvs.Page.State.{Store, active, written, entry_shape}
use sming_nvs.Page.Table.{entry_address, entry_state, read_entry}
use sming_nvs.Page.Find.{
  Query, Found, hit, verdict, find_start, find_loop, find_item, find_or_fail, missing, no_item,
}

module _ {Dev : Type 0} {P : Platform Dev} (F : Flash P) where
  -- The item is an entry of the page, in memory and on the flash.
  pub record Placed (item : Item) (i : ℕ) (t : Store Dev) : Type 0 where
    pub in_use : t.page.state ≡ active
    pub below : i < t.page.next_free_entry
    pub room : t.page.next_free_entry ≤ 126
    pub marked : EnumTable.get entry_shape i t.page.entry_table ≡ some written
    pub holds : F.Holds t.dev (entry_address i t.page) (to_raw item)

pub length-to_raw : (i : Item) → IsItem i → length (to_raw i) ≡ 32
length-to_raw i w = omega (arith, length-append i.key i.payload, w.key_16, w.payload_8)

module _ {Dev : Type 0} ⦃P : Platform Dev⦄ where
  -- The state behind a read of an entry.
  abbrev pub after_read : ℕ → Store Dev → Store Dev
  after_read i t = record t { dev = (P.read (entry_address i t.page) 32 t.dev).1 }

  pub read_entry_back :
      (F : Flash P) (i : ℕ) (bytes : List ℕ) (t : Store Dev)
      → i < 126
      → length bytes ≡ 32
      → F.Holds t.dev (entry_address i t.page) bytes
      → read_entry i t ≡ (ok (of_raw bytes), after_read i t)
  unfolding read_entry
  read_entry_back F i bytes t lt size h =
      let back : (P.read (entry_address i t.page) 32 t.dev).0 ≡ ok bytes =
        subst (λ (n : ℕ). (P.read (entry_address i t.page) n t.dev).0 ≡ ok bytes) size
          (F.read_back t.dev (entry_address i t.page) bytes h) in
      ground (arith, back, lt)

  marked_state :
      (i : ℕ) (t : Store Dev)
      → EnumTable.get entry_shape i t.page.entry_table ≡ some written
      → entry_state i t ≡ (ok written, t)
  unfolding entry_state
  marked_state i t e = rw e

  -- A round of the loop at an intact item that the query asks for.
  find_loop_hit :
      (q : Query) (end fuel i : ℕ) (r : Found) (item : Item) (t t' : Store Dev)
      → ltb i end ≡ true
      → entry_state i t ≡ (ok written, t)
      → read_entry i t ≡ (ok item, t')
      → (calculate_crc32 P.crc32_le item == item.crc32) ≡ true
      → verdict q item ≡ hit
      → find_loop q end (suc fuel) i r t ≡ (ok (record { code = none; index = i; item = item }), t')
  unfolding find_loop
  find_loop_hit q end fuel i r item t t' below state read intact asked =
      ground (arith, below, state, read, intact, asked)

  pub find_or_fail-Placed :
      (F : Flash P) (q : Query) (item : Item) (i : ℕ) (t : Store Dev)
      → Placed F item i t
      → IsItem item
      → calculate_crc32 P.crc32_le item ≡ item.crc32
      → verdict q item ≡ hit
      → find_start P.crc32_le q 0 t.page ≡ some i
      → find_or_fail q t ≡ (ok (record { code = none; index = i; item = item }), after_read i t)
  unfolding find_item find_or_fail
  find_or_fail-Placed F q item i t p w intact asked start =
      let found =
        find_loop_hit q t.page.next_free_entry 126 i (missing 0 no_item) item t (after_read i t)
          (lt→ltb i t.page.next_free_entry p.below) (marked_state i t p.marked)
          (read_entry_back F i (to_raw item) t (omega (arith, p.below, p.room))
              (length-to_raw item w) p.holds
            ∙ ap (λ x. (ok x, after_read i t)) (of_raw-to_raw item w))
          (ground (arith, intact)) asked in
      ground (arith, p.in_use, p.room, start, found)
