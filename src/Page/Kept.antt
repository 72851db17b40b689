-- ===== src/Page/Kept.antt =====
-- src/nvs_page.cpp: an item with its entries of data on a page, and later calls of `writeItem`.
use mathlib.Core.Path.{subst}
use sming_nvs.Prelude.{
  ℕ, ◌+◌, ◌-◌, ◌<◌, ◌≤◌, ◌≡◌, refl, sym, ap, ◌∙◌, arith, false, some, List, ◌++◌, ok, length,
  if◌then◌else◌, ltb, take, drop, All, All-take, All-drop, All-append, length-append, length-drop,
  replicate,
}
use sming_nvs.Prelude.Returns.{Gives, then-Gives, pure-Gives, if-Gives, weaken-Gives}
use sming_nvs.EnumTable.Table.{IsTable}
use sming_nvs.HashList
use sming_nvs.HashList.Lookup.{find-insert}
use sming_nvs.Item.{Item, new_item, to_raw, of_raw, is_variable_length_type}
use sming_nvs.Item.Codec.{IsItem, to_raw-of_raw}
use sming_nvs.Item.Keys.{to_raw-IsBytes}
use sming_nvs.Platform.{Platform}
use sming_nvs.Platform.Flash.{Flash, IsBytes}
use sming_nvs.Page.State.{Store, entry_shape}
use sming_nvs.Page.Table.{entry_address, write_entry}
use sming_nvs.Page.Items.{write_item, write_variable, write_primitive}
use sming_nvs.Page.Written.{Appended, write_entry-Appended}
use sming_nvs.Page.Ranges.{write_entry_data-Appended}
use sming_nvs.Page.Stored.{Cached, item_hash, write_item-Parts}
use sming_nvs.Page.Recall.{Placed, length-to_raw}
use sming_nvs.Page.Sought.{find-cached}
use sming_nvs.Page.Rows.{IsRow, Rows, Rows-keeps}
use sming_nvs.Page.Ready.{
  Args, Valid, Fresh, entry_there, the_item, header, header-IsItem, header-HasBytes, first_entry,
}
use sming_nvs.Page.Laid.{var_payload, Laid, whole_size, last_row, length-whole, last_row-IsRow}

abbrev pub blank : List ℕ
blank = replicate 8 0xff

-- The eight bytes of a value in one entry, filled up with 0xff.
abbrev pub padded : List ℕ → List ℕ
padded bytes = bytes ++ drop (length bytes) blank

pub length-padded : (bytes : List ℕ) → length bytes ≤ 8 → length (padded bytes) ≡ 8
length-padded bytes h =
    omega (arith, length-append bytes (drop (length bytes) blank), length-drop (length bytes) blank)

pub padded-IsBytes : (bytes : List ℕ) → IsBytes bytes → IsBytes (padded bytes)
padded-IsBytes bytes small =
    All-append (λ b. b < 256) bytes (drop (length bytes) blank) small
      (All-drop (λ b. b < 256) (length bytes) blank (omega arith))

-- A value that is not of variable length fits into one entry.
abbrev pub FitsItsType : Args → Type 0
FitsItsType a = is_variable_length_type a.datatype ≡ false → length a.bytes ≤ 8

module _ {Dev : Type 0} ⦃P : Platform Dev⦄ (F : Flash P) where
  -- The item stands at `i`, with its rows of data behind it, and the cache leads to it.
  pub record Kept (item : Item) (hash : ℕ) (rows : List (List ℕ)) (i : ℕ) (t : Store Dev)
      : Type 0 where
    pub placed : Placed F item i t
    pub found : HashList.find t.page.first_used_entry hash t.page.hash_list ≡ some i
    pub early : t.page.first_used_entry < 126
    pub table : IsTable entry_shape t.page.entry_table
    pub fits : i + 1 + length rows ≤ t.page.next_free_entry
    pub held : Rows F t.dev (entry_address (i + 1) t.page) rows
    pub shapes : All IsRow rows

  -- What `writeItem` has just laid down is kept.
  pub Laid-Kept :
      (item header : Item) (rows : List (List ℕ)) (s m t : Store Dev)
      → Fresh (item_hash P.crc32_le item) s.page
      → Cached item s.page.next_free_entry s m
      → Laid F header s.page.next_free_entry (first_entry s.page) m.page.hash_list rows t
      → Kept header (item_hash P.crc32_le item) rows s.page.next_free_entry t
  Laid-Kept item header rows s m t fresh cached laid =
      let lt : s.page.next_free_entry < 126 =
        omega (arith, laid.ready.placed.below, laid.ready.placed.room) in
      record {
        placed = laid.ready.placed;
        found =
            rw (laid.ready.first, laid.ready.cached)
              (find-cached (first_entry s.page) (item_hash P.crc32_le item) s.page.next_free_entry
                cached.granted s.page.hash_list m.page.hash_list (omega arith) fresh.first
                (omega arith) fresh.new cached.inserted);
        early = omega (arith, laid.ready.first, fresh.first);
        table = laid.ready.table;
        fits = omega (arith, laid.next);
        held = laid.held;
        shapes = laid.shapes;
      }

  -- More entries behind it leave it.
  Kept-more :
      (item : Item) (hash : ℕ) (rows : List (List ℕ)) (i n : ℕ) (bytes : List ℕ) (t u : Store Dev)
      → IsItem item
      → Kept item hash rows i t
      → Appended F n bytes t u
      → Kept item hash rows i u
  Kept-more item hash rows i n bytes t u w k more =
      let first : u.page.first_used_entry ≡ t.page.first_used_entry =
        ground (arith, more.first, k.early) in
      record {
        placed = record {
          in_use = more.state ∙ k.placed.in_use;
          below = omega (arith, more.next, k.placed.below);
          room = omega (arith, more.next, more.room);
          marked = more.others i k.placed.below ∙ k.placed.marked;
          holds =
              entry_there F n i bytes (to_raw item) t u k.placed.below (length-to_raw item w) more
                k.placed.holds;
        };
        found = rw (first, more.cache) k.found;
        early = omega (arith, first, k.early);
        table = more.table;
        fits = omega (arith, more.next, k.fits);
        held = rw more.base (
            Rows-keeps F t.dev u.dev (t.page.base_address + 64)
              (entry_address t.page.next_free_entry t.page) (entry_address (i + 1) t.page) rows
              more.keeps (omega arith) (omega (arith, k.fits)) k.shapes k.held);
        shapes = k.shapes;
      }

  -- Another item in the cache leaves it.
  Kept-Cached :
      (item other : Item) (hash : ℕ) (rows : List (List ℕ)) (i : ℕ) (t m : Store Dev)
      → t.page.next_free_entry < 255
      → Cached other t.page.next_free_entry t m
      → Kept item hash rows i t
      → Kept item hash rows i m
  Kept-Cached item other hash rows i t m lt cached k =
      let still : HashList.find t.page.first_used_entry hash m.page.hash_list ≡ some i =
        rw k.found at (
          find-insert t.page.first_used_entry hash (item_hash P.crc32_le other)
            t.page.next_free_entry cached.granted t.page.hash_list m.page.hash_list lt
            cached.inserted) in
      subst (Kept item hash rows i) cached.frame (record {
        placed = record {
          in_use = k.placed.in_use;
          below = k.placed.below;
          room = k.placed.room;
          marked = k.placed.marked;
          holds = k.placed.holds;
        };
        found = still;
        early = k.early;
        table = k.table;
        fits = k.fits;
        held = k.held;
        shapes = k.shapes;
      })

  -- What more entries leave, the entries of `writeItem` leave.
  module _ (K : Store Dev → Type 0)
      (more : (n : ℕ) (bytes : List ℕ) (t u : Store Dev) → K t → Appended F n bytes t u → K u)
      (table : (t : Store Dev) → K t → IsTable entry_shape t.page.entry_table) (b : Args)
      (valid : Valid b) (crc_32 : (r : ℕ) (xs : List ℕ) → P.crc32_le r xs < 4294967296) where
    entry-Keeps :
        (item : Item) (t : Store Dev)
        → K t
        → IsBytes (to_raw item)
        → length (to_raw item) ≡ 32
        → Gives t (λ _ u. K u) (write_entry item)
    entry-Keeps item t k small size =
        weaken-Gives (write_entry-Appended F item t (table t k) small size)
          (λ _ u appended. more 1 (to_raw item) t u k appended)

    header-Keeps :
        (payload : List ℕ) (t : Store Dev)
        → K t
        → length payload ≡ 8
        → IsBytes payload
        → Gives t (λ _ u. K u) (write_entry (header P.crc32_le b payload))
    header-Keeps payload t k size small =
        entry-Keeps (header P.crc32_le b payload) t k
          (to_raw-IsBytes _ (header-HasBytes F b valid crc_32 payload small))
          (length-to_raw _ (header-IsItem F b valid crc_32 payload size))

    last-Keeps :
        (t : Store Dev) → K t → Gives t (λ _ u. K u) (write_entry (of_raw (last_row b.bytes)))
    last-Keeps t k =
        let row = last_row-IsRow b.bytes valid.data_bytes in
        let same = to_raw-of_raw (last_row b.bytes) row.0 row.1 in
        entry-Keeps (of_raw (last_row b.bytes)) t k (subst IsBytes (sym same) row.1)
          (ap length same ∙ row.0)

    variable-Keeps :
        (t : Store Dev)
        → K t
        → length b.bytes ≤ 4000
        → Gives t (λ _ u. K u) (write_variable (the_item b) b.bytes)
    unfolding write_variable
    variable-Keeps t k short =
        then-Gives _ (header-Keeps (var_payload P.crc32_le b.bytes) t k refl (omega arith))
          (λ t1 k1.
            then-Gives {Mid = λ _ t2. K t2} _
              (if-Gives (ltb 0 (whole_size b.bytes))
                (λ _.
                  weaken-Gives
                    (write_entry_data-Appended F (take (whole_size b.bytes) b.bytes) t1
                      (table t1 k1)
                      (All-take (λ x. x < 256) (whole_size b.bytes) b.bytes valid.data_bytes)
                      (omega (arith, length-whole b.bytes, short)))
                    (λ _ u appended. more _ _ t1 u k1 appended))
                (λ _. pure-Gives tt k1))
              (λ t2 k2.
                if-Gives (ltb 0 (length b.bytes - whole_size b.bytes)) (λ _. last-Keeps t2 k2)
                  (λ _. pure-Gives tt k2)))

    primitive-Keeps :
        (t : Store Dev)
        → K t
        → length b.bytes ≤ 8
        → Gives t (λ _ u. K u) (write_primitive (the_item b) b.bytes)
    unfolding write_primitive new_item
    primitive-Keeps t k small =
        header-Keeps (padded b.bytes) t k (length-padded b.bytes small)
          (padded-IsBytes b.bytes valid.data_bytes)

    body-Keeps :
        (t : Store Dev)
        → K t
        → FitsItsType b
        → length b.bytes ≤ 4000
        → Gives t
            (λ _ u. K u)
            (if is_variable_length_type b.datatype
              then write_variable (the_item b) b.bytes
              else write_primitive (the_item b) b.bytes)
    body-Keeps t k fits short =
        if-Gives (is_variable_length_type b.datatype) (λ _. variable-Keeps t k short)
          (λ scalar. primitive-Keeps t k (fits scalar))

  -- A call of `writeItem` that returns `ESP_OK` leaves the items before it.
  pub Kept-written :
      (item : Item) (hash : ℕ) (rows : List (List ℕ)) (i : ℕ) (b : Args) (s t : Store Dev)
      → Valid b
      → FitsItsType b
      → ((r : ℕ) (xs : List ℕ) → P.crc32_le r xs < 4294967296)
      → IsItem item
      → Kept item hash rows i s
      → write_item b.ns_index b.datatype b.key b.bytes b.chunk s ≡ (ok tt, t)
      → Kept item hash rows i t
  Kept-written item hash rows i b s t valid fits crc_32 w k returns =
      let parts =
        (write_item-Parts b.ns_index b.datatype b.key b.bytes b.chunk s k.placed.in_use).apply tt t
          returns in
      (body-Keeps (Kept item hash rows i) (λ n bytes t u. Kept-more item hash rows i n bytes t u w)
          (λ _ kept. kept.table) b valid crc_32 parts.middle
          (Kept-Cached item (the_item b) hash rows i s parts.middle (omega (arith, parts.room))
            parts.cached k)
          fits parts.short).apply
        tt t parts.body
