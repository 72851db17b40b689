-- ===== src/Page/Laid.antt =====
-- src/nvs_page.cpp: the entries that `writeItem` makes for a value with data entries.
use mathlib.Core.Path.{subst}
use sming_nvs.Prelude.{
  ℕ, ◌+◌, ◌-◌, ◌*◌, ◌/◌, ◌<◌, ◌≤◌, ◌≡◌, refl, sym, ap, ◌∙◌, arith, false, List, [], ◌∷◌, ◌++◌,
  append-nil, pure, ◌>>◌, length, length-append, length-drop, length-take, ltb, if◌then◌else◌, take,
  drop, replicate, All, All-append, All-drop, All-take, bytes16, bytes32,
}
use sming_nvs.Prelude.Returns.{Gives, then-Gives, pure-Gives, if-Gives, weaken-Gives}
use sming_nvs.HashList.{HashList}
use sming_nvs.Item.{Item, of_raw, to_raw, data_crc32}
use sming_nvs.Item.Codec.{IsItem, to_raw-of_raw}
use sming_nvs.Item.Keys.{to_raw-IsBytes}
use sming_nvs.Platform.{Platform}
use sming_nvs.Platform.Flash.{Flash, IsBytes}
use sming_nvs.Page.State.{Store}
use sming_nvs.Page.Table.{entry_address, write_entry, write_entry_data}
use sming_nvs.Page.Items.{write_variable}
use sming_nvs.Page.Written.{Appended, write_entry-Appended}
use sming_nvs.Page.Ranges.{entries_of, write_entry_data-Appended}
use sming_nvs.Page.Stored.{Cached, item_hash}
use sming_nvs.Page.Recall.{length-to_raw}
use sming_nvs.Page.Rows.{
  IsRow, Rows, chunks, chunks-IsRow, length-chunks, Rows-chunks, Rows-append, Rows-keeps,
}
use sming_nvs.Page.Ready.{
  Args, IsTable-kept, Valid, Fresh, Ready, Ready-first, Ready-more, the_item, header, header-IsItem,
  header-HasBytes, first_entry,
}

-- The bytes in whole entries, and the entry with those behind, filled up with 0xff.
abbrev pub whole_size : List ℕ → ℕ
whole_size bytes = length bytes / 32 * 32

abbrev pub blank_row : List ℕ
blank_row = replicate 32 0xff

abbrev pub last_row : List ℕ → List ℕ
last_row bytes =
    drop (whole_size bytes) bytes ++ drop (length (drop (whole_size bytes) bytes)) blank_row

abbrev pub whole_rows : List ℕ → List (List ℕ)
whole_rows bytes = chunks (length bytes / 32) (take (whole_size bytes) bytes)

abbrev pub rows_of : List ℕ → List (List ℕ)
rows_of bytes =
    whole_rows bytes
    ++ (if ltb 0 (length bytes - whole_size bytes) then last_row bytes ∷ [] else [])

-- The value of the item's own entry: the size and the checksum of the data.
abbrev pub var_payload : (ℕ → List ℕ → ℕ) → List ℕ → List ℕ
var_payload crc32_le bytes =
    bytes16 (length bytes) ++ (0xff ∷ 0xff ∷ bytes32 (data_crc32 crc32_le bytes))

pub length-whole :
    (bytes : List ℕ) → length (take (whole_size bytes) bytes) ≡ length bytes / 32 * 32
length-whole bytes = omega (arith, length-take (whole_size bytes) bytes)

pub last_row-IsRow : (bytes : List ℕ) → IsBytes bytes → IsRow (last_row bytes)
last_row-IsRow bytes small =
    let rest = drop (whole_size bytes) bytes in
    (
      omega (
        arith,
        length-append rest (drop (length rest) blank_row),
        length-drop (length rest) blank_row,
        length-drop (whole_size bytes) bytes,
      ),
      All-append (λ b. b < 256) rest (drop (length rest) blank_row)
          (All-drop (λ b. b < 256) (whole_size bytes) bytes small)
          (All-drop (λ b. b < 256) (length rest) blank_row (omega arith)),
    )

module _ {Dev : Type 0} ⦃P : Platform Dev⦄ (F : Flash P) where
  -- The item's own entry, and rows of data behind it up to the next free entry.
  pub record Laid (item : Item) (i start : ℕ) (cache : HashList) (rows : List (List ℕ))
      (t : Store Dev) : Type 0 where
    pub ready : Ready F item i start cache t
    pub next : t.page.next_free_entry ≡ i + 1 + length rows
    pub held : Rows F t.dev (entry_address (i + 1) t.page) rows
    pub shapes : All IsRow rows

  Laid-more :
      (item : Item) (i start : ℕ) (cache : HashList) (old new : List (List ℕ)) (bytes : List ℕ)
      (t u : Store Dev)
      → IsItem item
      → start < 126
      → Laid item i start cache old t
      → Appended F (length new) bytes t u
      → Rows F u.dev (entry_address t.page.next_free_entry t.page) new
      → All IsRow new
      → Laid item i start cache (old ++ new) u
  Laid-more item i start cache old new bytes t u w lt laid more added shaped = record {
    ready = Ready-more F item i start cache (length new) bytes t u w lt laid.ready more;
    next = omega (arith, more.next, laid.next, length-append old new);
    held = rw more.base (
        Rows-append F u.dev (entry_address (i + 1) t.page) old new
          (Rows-keeps F t.dev u.dev (t.page.base_address + 64)
            (entry_address t.page.next_free_entry t.page) (entry_address (i + 1) t.page) old
            more.keeps (omega arith) (omega (arith, laid.next)) laid.shapes laid.held)
          (subst (λ (n : ℕ). Rows F u.dev n new) (omega (arith, laid.next)) added));
    shapes = All-append IsRow old new laid.shapes shaped;
  }

module _ {Dev : Type 0} ⦃P : Platform Dev⦄ (F : Flash P) (a : Args) (valid : Valid a)
    (crc_32 : (r : ℕ) (xs : List ℕ) → P.crc32_le r xs < 4294967296)
    (short : length a.bytes ≤ 4000) where
  -- The item's own entry.
  abbrev var_header : Item
  var_header = header P.crc32_le a (var_payload P.crc32_le a.bytes)

  var_header-IsItem : IsItem var_header
  var_header-IsItem = header-IsItem F a valid crc_32 (var_payload P.crc32_le a.bytes) refl

  module _ (i start : ℕ) (cache : HashList) (early : start < 126) where
    whole-Laid :
        (t u : Store Dev)
        → Laid F var_header i start cache [] t
        → Appended F
            (entries_of (take (whole_size a.bytes) a.bytes))
            (take (whole_size a.bytes) a.bytes)
            t
            u
        → Laid F var_header i start cache (whole_rows a.bytes) u
    whole-Laid t u laid more =
        let bytes = take (whole_size a.bytes) a.bytes in
        let size = length-whole a.bytes in
        let count : entries_of bytes ≡ length (whole_rows a.bytes) =
          omega (arith, size, short, length-chunks (length a.bytes / 32) bytes) in
        Laid-more F var_header i start cache [] (whole_rows a.bytes) bytes t u var_header-IsItem
          early laid (subst (λ (n : ℕ). Appended F n bytes t u) count more)
          (Rows-chunks F u.dev (entry_address t.page.next_free_entry t.page) (length a.bytes / 32)
            bytes size more.holds)
          (chunks-IsRow (length a.bytes / 32) bytes size
            (All-take (λ b. b < 256) (whole_size a.bytes) a.bytes valid.data_bytes))

    last-Laid :
        (t u : Store Dev)
        → Laid F var_header i start cache (whole_rows a.bytes) t
        → Appended F 1 (to_raw (of_raw (last_row a.bytes))) t u
        → Laid F var_header i start cache (whole_rows a.bytes ++ last_row a.bytes ∷ []) u
    last-Laid t u laid more =
        let row = last_row-IsRow a.bytes valid.data_bytes in
        let same = to_raw-of_raw (last_row a.bytes) row.0 row.1 in
        Laid-more F var_header i start cache (whole_rows a.bytes) (last_row a.bytes ∷ [])
          (last_row a.bytes) t u var_header-IsItem early laid
          (subst (λ xs. Appended F 1 xs t u) same more)
          (
            subst (λ xs. F.Holds u.dev (entry_address t.page.next_free_entry t.page) xs) same
                more.holds,
            tt,
          )
          (row, tt)

    none_whole : ltb 0 (whole_size a.bytes) ≡ false → 0 ≡ length a.bytes / 32
    none_whole h = ground (arith, h)

    last_back : to_raw (of_raw (last_row a.bytes)) ≡ last_row a.bytes
    last_back =
        let row = last_row-IsRow a.bytes valid.data_bytes in
        to_raw-of_raw (last_row a.bytes) row.0 row.1

    -- The entries of data, behind the item's own entry.
    data-Laid :
        (t : Store Dev)
        → Laid F var_header i start cache [] t
        → Gives t
            (λ _ u. Laid F var_header i start cache (rows_of a.bytes) u)
            (do
              if ltb 0 (whole_size a.bytes)
                  then write_entry_data (take (whole_size a.bytes) a.bytes)
                  else pure tt
              if ltb 0 (length a.bytes - whole_size a.bytes)
                  then write_entry (of_raw (last_row a.bytes))
                  else pure tt)
    data-Laid t laid =
        then-Gives {Mid = λ _ t2. Laid F var_header i start cache (whole_rows a.bytes) t2} _
          (if-Gives (ltb 0 (whole_size a.bytes))
            (λ _.
              weaken-Gives
                (write_entry_data-Appended F (take (whole_size a.bytes) a.bytes) t laid.ready.table
                  (All-take (λ b. b < 256) (whole_size a.bytes) a.bytes valid.data_bytes)
                  (omega (arith, length-whole a.bytes, short)))
                (λ _ u more. whole-Laid t u laid more))
            (λ nothing. pure-Gives tt (
              subst
                (λ (k : ℕ).
                  Laid F var_header i start cache (chunks k (take (whole_size a.bytes) a.bytes)) t)
                (none_whole nothing) laid)))
          (λ t2 laid2.
            if-Gives (ltb 0 (length a.bytes - whole_size a.bytes))
              (λ more_left.
                weaken-Gives
                  (write_entry-Appended F (of_raw (last_row a.bytes)) t2 laid2.ready.table
                    (subst IsBytes (sym last_back) (last_row-IsRow a.bytes valid.data_bytes).1)
                    (ap length last_back ∙ (last_row-IsRow a.bytes valid.data_bytes).0))
                  (λ _ u more. rw more_left (last-Laid t2 u laid2 more)))
              (λ nothing. pure-Gives tt (rw (nothing, append-nil (whole_rows a.bytes)) laid2)))

  pub same_next :
      (s m : Store Dev)
      → Cached (the_item a) s.page.next_free_entry s m
      → m.page.next_free_entry ≡ s.page.next_free_entry
  same_next s m cached = ground (arith, cached.frame)

  pub write_variable-Laid :
      (s m : Store Dev)
      → Fresh (item_hash P.crc32_le (the_item a)) s.page
      → Cached (the_item a) s.page.next_free_entry s m
      → Gives m
          (λ _ t.
            Laid F var_header s.page.next_free_entry
              (first_entry s.page)
              m.page.hash_list
              (rows_of a.bytes)
              t)
          (write_variable (the_item a) a.bytes)
  unfolding write_variable
  write_variable-Laid s m fresh cached =
      then-Gives _
        (write_entry-Appended F var_header m (IsTable-kept a s m fresh cached)
          (to_raw-IsBytes _
            (header-HasBytes F a valid crc_32 (var_payload P.crc32_le a.bytes) (omega arith)))
          (length-to_raw _ var_header-IsItem))
        (λ t more.
          let ready = Ready-first F (the_item a) var_header s m t fresh.in_use cached more in
          data-Laid s.page.next_free_entry (first_entry s.page) m.page.hash_list
            (omega (arith, fresh.first, ready.placed.below, ready.placed.room)) t
            (record {
              ready = ready;
              next = omega (arith, more.next, same_next s m cached);
              held = tt;
              shapes = tt;
            }))
