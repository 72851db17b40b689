-- ===== src/Page/RoundTrip.antt =====
-- src/nvs_page.cpp: a value that `writeItem` has written is what `readItem` reads.
use mathlib.Core.Path.{subst}
use sming_nvs.Prelude.{
  ℕ, ◌+◌, ◌-◌, ◌%◌, ◌<◌, ◌≤◌, ◌≡◌, refl, sym, ap, ◌∙◌, arith, Bool, true, false, Bool-cases, inl,
  inr, none, List, [], ◌∷◌, ◌++◌, M, Void, Outcome, ok, pure, ◌>>◌, All, length, if◌then◌else◌,
  take, drop, append-nil,
}
use sming_nvs.Prelude.Returns.{Gives, then-Gives, weaken-Gives, if-Gives}
use sming_nvs.Page.Rows.{Rows-read, read_chunks-Rows}
use sming_nvs.Page.Laid.{rows_of, var_payload, same_next, write_variable-Laid}
use sming_nvs.Page.Kept.{
  Kept, Laid-Kept, Kept-written, blank, padded, length-padded, padded-IsBytes, FitsItsType,
}
use sming_nvs.Item.{
  var_data_size, var_data_crc32, data_crc32, Item, new_item, is_variable_length_type,
}
use sming_nvs.Item.Codec.{take-append, word_of-bytes16, word_of-bytes32}
use sming_nvs.Item.Keys.{to_raw-IsBytes}
use sming_nvs.Platform.{Platform}
use sming_nvs.Platform.Flash.{Flash}
use sming_nvs.Page.State.{Store}
use sming_nvs.Page.Table.{entry_address}
use sming_nvs.Page.Items.{
  write_item, read_item, write_primitive, read_primitive, read_variable, read_chunks,
}
use sming_nvs.Page.Written.{write_entry-Appended}
use sming_nvs.Page.Stored.{Cached, item_hash, write_item-Parts}
use sming_nvs.Page.Recall.{after_read, length-to_raw}
use sming_nvs.Page.Ready.{
  Args, IsTable-kept, Ready-first, Valid, Fresh, asked_for, the_item, header, header-IsItem,
  header-HasBytes, find_or_fail-header,
}
use sming_nvs.Page.Filling.{joined-rows, length-rows}

-- The value of the item's own entry, and the entries of data behind it.
abbrev payload_of : (ℕ → List ℕ → ℕ) → Bool → List ℕ → List ℕ
payload_of crc32_le var bytes = if var then var_payload crc32_le bytes else padded bytes

abbrev data_rows : Bool → List ℕ → List (List ℕ)
data_rows var bytes = if var then rows_of bytes else []

-- A buffer for the value: it is as large as the value of a type of fixed size, and not smaller than
-- one of variable length.
pub record Holder (a : Args) (buffer : List ℕ) : Type 0 where
  pub scalar :
      is_variable_length_type a.datatype ≡ false
      → (length a.bytes ≡ a.datatype % 16) × (length buffer ≡ length a.bytes)
  pub variable : is_variable_length_type a.datatype ≡ true → length a.bytes ≤ length buffer

-- Several calls of `writeItem`, up to the first that fails.
module _ {Dev : Type 0} ⦃P : Platform Dev⦄ where
  unfoldable pub write_all : List Args → M (Store Dev) Void
  write_all [] = pure tt
  write_all (b ∷ bs) = write_item b.ns_index b.datatype b.key b.bytes b.chunk >> write_all bs

drop_all : (xs : List ℕ) → drop (length xs) xs ≡ []
drop_all [] = refl
drop_all (_ ∷ xs) = drop_all xs

module _ {Dev : Type 0} ⦃P : Platform Dev⦄ (F : Flash P) (a : Args) (valid : Valid a)
    (crc_32 : (r : ℕ) (xs : List ℕ) → P.crc32_le r xs < 4294967296) where
  -- `readItem` behind the search, where the entries of data give the bytes.
  copied :
      (buffer : List ℕ) (i : ℕ) (t u : Store Dev) (h : Item)
      → read_chunks (h.span - 1) (i + 1) (var_data_size h) [] t ≡ (ok a.bytes, u)
      → var_data_size h ≡ length a.bytes
      → var_data_crc32 h ≡ data_crc32 P.crc32_le a.bytes
      → length a.bytes ≤ length buffer
      → read_variable buffer (record { code = none; index = i; item = h }) t
        ≡ (ok (a.bytes ++ drop (length a.bytes) buffer), u)
  unfolding read_variable
  copied buffer i t u h read size crc room =
      let all = take-append a.bytes (drop (length a.bytes) buffer) in
      ground (arith, read, size, crc, room, all)

  abbrev var : Bool
  var = is_variable_length_type a.datatype

  -- The value stands at `i`.
  abbrev There : Bool → ℕ → Store Dev → Type 0
  There v i t =
      Kept F (header P.crc32_le a (payload_of P.crc32_le v a.bytes))
        (item_hash P.crc32_le (the_item a)) (data_rows v a.bytes) i t

  one_entry :
      (s m : Store Dev)
      → length a.bytes ≤ 8
      → Fresh (item_hash P.crc32_le (the_item a)) s.page
      → Cached (the_item a) s.page.next_free_entry s m
      → Gives m (λ _ t. There false s.page.next_free_entry t) (write_primitive (the_item a) a.bytes)
  unfolding write_primitive new_item
  one_entry s m small fresh cached =
      let h = header P.crc32_le a (padded a.bytes) in
      let w = header-IsItem F a valid crc_32 (padded a.bytes) (length-padded a.bytes small) in
      weaken-Gives
        (write_entry-Appended F h m (IsTable-kept a s m fresh cached)
          (to_raw-IsBytes _ (
            header-HasBytes F a valid crc_32 (padded a.bytes)
              (padded-IsBytes a.bytes valid.data_bytes)))
          (length-to_raw _ w))
        (λ _ t more. Laid-Kept F (the_item a) h [] s m t fresh cached (record {
          ready = Ready-first F (the_item a) h s m t fresh.in_use cached more;
          next =
              omega
                (arith, more.next, same_next F a valid crc_32 (omega (arith, small)) s m cached);
          held = tt;
          shapes = tt;
        }))

  write_item-There :
      (s t : Store Dev)
      → FitsItsType a
      → Fresh (item_hash P.crc32_le (the_item a)) s.page
      → write_item a.ns_index a.datatype a.key a.bytes a.chunk s ≡ (ok tt, t)
      → There var s.page.next_free_entry t
  write_item-There s t fits fresh returns =
      let i : ℕ = s.page.next_free_entry in
      let parts =
        (write_item-Parts a.ns_index a.datatype a.key a.bytes a.chunk s fresh.in_use).apply tt t
          returns in
      let m = parts.middle in
      (if-Gives {Post = λ _ u. There var i u} var
          (λ long.
            weaken-Gives (write_variable-Laid F a valid crc_32 parts.short s m fresh parts.cached)
              (λ _ u laid.
                subst (λ (v : Bool). There v i u) (sym long)
                  (Laid-Kept F (the_item a) (header P.crc32_le a (var_payload P.crc32_le a.bytes))
                    (rows_of a.bytes) s m u fresh parts.cached laid)))
          (λ scalar.
            weaken-Gives (one_entry s m (fits scalar) fresh parts.cached)
              (λ _ u kept. subst (λ (v : Bool). There v i u) (sym scalar) kept))).apply
        tt t parts.body

  short :
      (s t : Store Dev)
      → Fresh (item_hash P.crc32_le (the_item a)) s.page
      → write_item a.ns_index a.datatype a.key a.bytes a.chunk s ≡ (ok tt, t)
      → length a.bytes ≤ 4000
  short s t fresh returns =
      ((write_item-Parts a.ns_index a.datatype a.key a.bytes a.chunk s fresh.in_use).apply tt t
        returns).short

  read_one :
      (i : ℕ) (t : Store Dev) (buffer : List ℕ)
      → var ≡ false
      → length a.bytes ≡ a.datatype % 16
      → length buffer ≡ length a.bytes
      → length a.bytes ≤ 8
      → There false i t
      → (read_item (asked_for a) buffer t).0 ≡ ok (a.bytes ++ drop (length a.bytes) buffer)
  unfolding read_item read_primitive
  read_one i t buffer scalar size room small kept =
      let found =
        find_or_fail-header F a valid crc_32 (padded a.bytes) i t (length-padded a.bytes small)
          kept.placed kept.found in
      let all : take (length buffer) (padded a.bytes) ≡ a.bytes =
        ap (λ (n : ℕ). take n (padded a.bytes)) room
        ∙ take-append a.bytes (drop (length a.bytes) blank) in
      let full : a.bytes ++ drop (length a.bytes) buffer ≡ a.bytes =
        subst (λ (n : ℕ). a.bytes ++ drop n buffer ≡ a.bytes) room
          (ap (λ xs. a.bytes ++ xs) (drop_all buffer) ∙ append-nil a.bytes) in
      ground (arith, found, all, full, scalar, size, room, kept.placed.in_use)

  read_rows :
      (i : ℕ) (t : Store Dev) (buffer : List ℕ)
      → var ≡ true
      → length a.bytes ≤ 4000
      → length a.bytes ≤ length buffer
      → There true i t
      → (read_item (asked_for a) buffer t).0 ≡ ok (a.bytes ++ drop (length a.bytes) buffer)
  unfolding read_item new_item
  read_rows i t buffer long short room kept =
      let h = header P.crc32_le a (var_payload P.crc32_le a.bytes) in
      let found =
        find_or_fail-header F a valid crc_32 (var_payload P.crc32_le a.bytes) i t refl kept.placed
          kept.found in
      let size : var_data_size h ≡ length a.bytes =
        word_of-bytes16 (length a.bytes) (omega (arith, short)) in
      let crc : var_data_crc32 h ≡ data_crc32 P.crc32_le a.bytes =
        word_of-bytes32 _ (crc_32 _ a.bytes) in
      let (filling, all) = joined-rows a.bytes in
      let (u, read) =
        read_chunks-Rows F (rows_of a.bytes) (i + 1) (length a.bytes) [] (after_read i t)
          kept.shapes (omega (arith, kept.fits, kept.placed.room))
          (Rows-read F t.dev (entry_address i t.page) 32 (entry_address (i + 1) t.page)
            (rows_of a.bytes) kept.held) in
      let copy =
        copied buffer i (after_read i t) u h
          (rw (size, length-rows a.datatype a.bytes long short)
            (read
              ∙ ap (λ x. (ok x, u))
                  (ap (λ xs. take (length a.bytes) xs) all ∙ take-append a.bytes filling)))
          size crc room in
      ground (arith, found, copy, long, kept.placed.in_use)

  read-There :
      (i : ℕ) (t : Store Dev) (buffer : List ℕ)
      → Holder a buffer
      → FitsItsType a
      → length a.bytes ≤ 4000
      → There var i t
      → (read_item (asked_for a) buffer t).0 ≡ ok (a.bytes ++ drop (length a.bytes) buffer)
  read-There i t buffer holder fits short there = elim (Bool-cases var) [
    | inl long ↦
        read_rows i t buffer long short (holder.variable long)
          (subst (λ (v : Bool). There v i t) long there)
    | inr scalar ↦
        read_one i t buffer scalar (holder.scalar scalar).0 (holder.scalar scalar).1 (fits scalar)
          (subst (λ (v : Bool). There v i t) scalar there)
  ]

  payload_8 :
      (v : Bool) → (v ≡ false → length a.bytes ≤ 8) → length (payload_of P.crc32_le v a.bytes) ≡ 8
  payload_8 true fits = refl
  payload_8 false fits = length-padded a.bytes (fits refl)

  There-later :
      (bs : List Args) (i : ℕ) (t u : Store Dev)
      → FitsItsType a
      → All Valid bs
      → All FitsItsType bs
      → There var i t
      → write_all bs t ≡ (ok tt, u)
      → There var i u
  unfolding write_all
  There-later [] i t u fits valids fit there returns =
      subst (λ (r : Outcome Void × Store Dev). There var i r.1) returns there
  There-later (b ∷ bs) i t u fits (v, valids) (f, fit) there returns =
      (then-Gives {s = t} {Mid = λ _ m. There var i m}
          (write_item b.ns_index b.datatype b.key b.bytes b.chunk)
          (record {
            apply = λ r m e.
                Kept-written F (header P.crc32_le a (payload_of P.crc32_le var a.bytes))
                  (item_hash P.crc32_le (the_item a)) (data_rows var a.bytes) i b t m v f crc_32
                  (header-IsItem F a valid crc_32 _ (payload_8 var fits)) there e;
          })
          (λ m kept. record { apply = λ r w e. There-later bs i m w fits valids fit kept e })).apply
        tt u returns

  -- On a flash that keeps what is written to it, with a checksum of 32 bits, and on an active page
  -- whose cache knows no item of the same hash: a value that `writeItem` writes with `ESP_OK` is what
  -- `readItem` then reads, into a buffer of its size for a type of fixed size, and into the first
  -- part of a buffer that is large enough for a type of variable length.
  pub write_item-read_item :
      (s t : Store Dev) (buffer : List ℕ)
      → FitsItsType a
      → Holder a buffer
      → Fresh (item_hash P.crc32_le (the_item a)) s.page
      → write_item a.ns_index a.datatype a.key a.bytes a.chunk s ≡ (ok tt, t)
      → (read_item (asked_for a) buffer t).0 ≡ ok (a.bytes ++ drop (length a.bytes) buffer)
  write_item-read_item s t buffer fits holder fresh returns =
      read-There s.page.next_free_entry t buffer holder fits (short s t fresh returns)
        (write_item-There s t fits fresh returns)

  -- On such a flash and such a page, the value is still what `readItem` reads after any number of
  -- later calls of `writeItem` on the page that return `ESP_OK`, whatever items they write.
  pub write_all-read_item :
      (s t u : Store Dev) (buffer : List ℕ) (bs : List Args)
      → FitsItsType a
      → Holder a buffer
      → Fresh (item_hash P.crc32_le (the_item a)) s.page
      → write_item a.ns_index a.datatype a.key a.bytes a.chunk s ≡ (ok tt, t)
      → All Valid bs
      → All FitsItsType bs
      → write_all bs t ≡ (ok tt, u)
      → (read_item (asked_for a) buffer u).0 ≡ ok (a.bytes ++ drop (length a.bytes) buffer)
  write_all-read_item s t u buffer bs fits holder fresh returns valids fit later =
      read-There s.page.next_free_entry u buffer holder fits (short s t fresh returns) (
        There-later bs s.page.next_free_entry t u fits valids fit
          (write_item-There s t fits fresh returns) later)
