-- ===== src/Emulator/Devices.antt =====
-- test_nvs_host/spi_flash_emulation.cpp: the functions `esp_partition_*` on the emulator that is set, if
-- one is; and test_nvs_host/test_fixtures.hpp: `PartitionEmulation`, a partition that is the emulator.
use sming_nvs.Prelude.{
  ℕ, zero, suc, ◌+◌, ◌/◌, ◌%◌, not, Option, none, some, List, M, Void, ok, err, flash_op_fail,
  flash_op_timeout, invalid_size, invalid_arg, raise_if, pure, ◌>>◌, ◌==◌, if◌then◌else◌,
}
use sming_nvs.Platform.{Platform}
use sming_nvs.EspPartition.{EspFlash}
use sming_nvs.Emulator.{SpiFlashEmulator, sec_size, read, write, erase}

-- `s_emulator`; `spi_flash_emulator_set` gives it another value.
abbrev Emulated : Type 0
Emulated = Option SpiFlashEmulator

-- `if (!flash_emu->read(...)) return ESP_ERR_FLASH_OP_FAIL;` and the same for the other calls.
unfoldable pub emu_read : ℕ → ℕ → M SpiFlashEmulator (List ℕ)
emu_read address n e =
    let (result, e') = read address n e in
    if result.0 then (ok result.1, e') else (err flash_op_fail, e')

unfoldable pub emu_write : ℕ → List ℕ → M SpiFlashEmulator Void
emu_write address src e =
    let (done, e') = write address src e in if done then (ok tt, e') else (err flash_op_fail, e')

abbrev emu_erase : ℕ → M SpiFlashEmulator Void
emu_erase sector e =
    let (done, e') = erase sector e in if done then (ok tt, e') else (err flash_op_fail, e')

-- The loop over `n` sectors from `sector` on.
erase_sectors : ℕ → ℕ → M SpiFlashEmulator Void
erase_sectors sector zero = pure tt
erase_sectors sector (suc n) = do emu_erase sector; erase_sectors (sector + 1) n

unfoldable pub emu_erase_range : ℕ → ℕ → M SpiFlashEmulator Void
unfolding erase_sectors
emu_erase_range offset n = do
  raise_if (not (n % sec_size == 0)) invalid_size
  raise_if (not (offset % sec_size == 0)) invalid_arg
  erase_sectors (offset / sec_size) (n / sec_size)

-- `if (!s_emulator) return ESP_ERR_FLASH_OP_TIMEOUT;`
abbrev on_emulator : {A : Type 0} → M SpiFlashEmulator A → M Emulated A
on_emulator m s = elim s [
  | none ↦ (err flash_op_timeout, none)
  | some e ↦ let (r, e') = m e in (r, some e')
]

module _ (crc32_le : ℕ → List ℕ → ℕ) where
  -- `esp_partition_read_raw` and the like.
  abbrev esp_partition : EspFlash Emulated
  esp_partition = record {
    read_raw = λ address n. on_emulator (emu_read address n);
    read = λ address n. on_emulator (emu_read address n);
    write_raw = λ address src. on_emulator (emu_write address src);
    write = λ address src. on_emulator (emu_write address src);
    erase_range = λ offset n. on_emulator (emu_erase_range offset n);
    crc32_le = crc32_le;
  }

  -- `PartitionEmulation`
  abbrev pub partition_emulation : Platform SpiFlashEmulator
  partition_emulation = record {
    read_raw = emu_read;
    read = emu_read;
    write_raw = emu_write;
    write = emu_write;
    erase_range = emu_erase_range;
    crc32_le = crc32_le;
  }
