-- ===== src/Tests/RoundTrips.antt =====
-- The round trips on concrete inputs: a page on the emulated flash of the host's tests.
use sming_nvs.Prelude.{
  ℕ, ◌+◌, ◌%◌, ◌<◌, ◌≡◌, refl, inr, arith, List, [], ◌∷◌, ◌++◌, ok, replicate, word_at,
}
use sming_nvs.EnumTable.{get, put}
use sming_nvs.HashList.{asks, find, insert}
use sming_nvs.Item.ItemType
use sming_nvs.Item.{new_item, calculate_crc32, calculate_crc32_without_value, chunk_any}
use sming_nvs.Platform.{Platform}
use sming_nvs.Platform.Flash.{Flash}
use sming_nvs.Page.State.{Page, Store, active, invalid_entry}
use sming_nvs.Page.Table.{
  hash_insert, write_entry, write_entry_data, put_entry_state, alter_entry_state, alter_range,
  alter_entry_range_state,
}
use sming_nvs.Page.Items.{write_item, write_variable, write_primitive, read_item}
use sming_nvs.Page.Stored.{item_hash}
use sming_nvs.Page.Ready.{Args, Valid, Fresh, the_item, asked_for}
use sming_nvs.Page.Kept.{FitsItsType}
use sming_nvs.Page.RoundTrip.{Holder, write_all, write_item-read_item, write_all-read_item}
use sming_nvs.Emulator.{SpiFlashEmulator, new_emulator, write, write_loop}
use sming_nvs.Emulator.Devices.{emu_read, emu_write, partition_emulation}
use sming_nvs.Emulator.Lawful.{emulation_flash, emu_write-emu_read}

-- A checksum that adds the bytes up.
abbrev sum : ℕ → List ℕ → ℕ
sum n [] = n % 4294967296
sum n (b ∷ bs) = sum (n + b) bs

instance emulation : Platform SpiFlashEmulator
emulation = partition_emulation sum

sum_32 : (n : ℕ) (bs : List ℕ) → emulation.crc32_le n bs < 4294967296
unfolding emulation
sum_32 n [] = omega arith
sum_32 n (b ∷ bs) = sum_32 (n + b) bs

flash : Flash emulation
unfolding emulation
flash = emulation_flash sum

abbrev page : Page
page = record {
  base_address = 0;
  state = active;
  seq_number = 0;
  version = 0xfe;
  entry_table = replicate 8 0xffff_ffff;
  next_free_entry = 0;
  first_used_entry = invalid_entry;
  used_entry_count = 0;
  erased_entry_count = 0;
  hash_list = [];
}

abbrev start : Store SpiFlashEmulator
start = record { page = page; heap = []; dev = new_emulator 1 }

-- A text, and a number under another key.
abbrev text : Args
text = record {
  ns_index = 1;
  datatype = ItemType.sz;
  key = 97 ∷ [];
  bytes = replicate 33 65;
  chunk = chunk_any;
}

abbrev number : Args
number = record {
  ns_index = 1;
  datatype = ItemType.u16;
  key = 98 ∷ [];
  bytes = 7 ∷ 1 ∷ [];
  chunk = chunk_any;
}

text-Valid : Valid text
text-Valid = record {
  ns_named = omega arith;
  type_named = omega arith;
  chunk_8 = omega arith;
  chunk_fits = λ _. refl;
  key_bytes = omega arith;
  data_bytes = omega arith;
}

number-Valid : Valid number
number-Valid = record {
  ns_named = omega arith;
  type_named = omega arith;
  chunk_8 = omega arith;
  chunk_fits = λ _. refl;
  key_bytes = omega arith;
  data_bytes = omega arith;
}

start-Fresh : Fresh (item_hash emulation.crc32_le (the_item text)) page
start-Fresh = record {
  in_use = refl;
  table = record { size = refl; words_32 = omega arith };
  first = omega arith;
  new = unfold find in refl;
}

abbrev with_text : Store SpiFlashEmulator
with_text = (write_item 1 ItemType.sz text.key text.bytes chunk_any start).1

abbrev with_both : Store SpiFlashEmulator
with_both = (write_all (number ∷ []) with_text).1

wrote_text : write_item 1 ItemType.sz text.key text.bytes chunk_any start ≡ (ok tt, with_text)
unfolding write_item hash_insert write_variable write_entry write_entry_data put_entry_state
    alter_entry_state alter_range alter_entry_range_state get put find asks insert calculate_crc32
    calculate_crc32_without_value new_item emu_write write write_loop new_emulator emulation word_at
wrote_text = refl

wrote_both : write_all (number ∷ []) with_text ≡ (ok tt, with_both)
unfolding write_item hash_insert write_variable write_entry write_entry_data put_entry_state
    alter_entry_state alter_range alter_entry_range_state get put find asks insert calculate_crc32
    calculate_crc32_without_value new_item emu_write write write_loop new_emulator emulation word_at
    write_all write_primitive
wrote_both = refl

text-fits : FitsItsType text
text-fits = λ h. absurd (ground (arith, h))

holder : Holder text (replicate 40 0)
holder = record { scalar = λ h. absurd (ground (arith, h)); variable = λ _. omega arith }

write_item-read_item_example :
    (read_item (asked_for text) (replicate 40 0) with_text).0
    ≡ ok (replicate 33 65 ++ replicate 7 0)
write_item-read_item_example =
    write_item-read_item flash text text-Valid sum_32 start with_text (replicate 40 0) text-fits
      holder start-Fresh wrote_text

write_all-read_item_example :
    (read_item (asked_for text) (replicate 40 0) with_both).0
    ≡ ok (replicate 33 65 ++ replicate 7 0)
write_all-read_item_example =
    write_all-read_item flash text text-Valid sum_32 start with_text with_both (replicate 40 0)
      (number ∷ []) text-fits holder start-Fresh wrote_text (number-Valid, tt)
      (λ _. omega arith, tt) wrote_both

abbrev four : List ℕ
four = 1 ∷ 2 ∷ 3 ∷ 4 ∷ []

abbrev written : SpiFlashEmulator
written = (emu_write 8 four (new_emulator 1)).1

emu_write-done : emu_write 8 four (new_emulator 1) ≡ (ok tt, written)
unfolding emu_write write write_loop new_emulator word_at
emu_write-done = refl

emu_write-emu_read_example :
    ((emu_read 8 4 written).0 ≡ ok four)
    × ((emu_read 12 8 written).0 ≡ (emu_read 12 8 (new_emulator 1)).0)
emu_write-emu_read_example =
    emu_write-emu_read (new_emulator 1) written 8 12 8 four (omega arith) emu_write-done
      (inr (omega arith))
