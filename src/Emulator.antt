-- ===== src/Emulator.antt =====
-- test_nvs_host/spi_flash_emulation.h: the flash of the host's tests, an array of words whose bits a
-- write can only clear. `size_t` has 64 bits on the host. The counters of operations and bytes are
-- kept; the estimated time is not.
pub mod Words
pub mod Devices
pub mod Holding
pub mod Lawful
use Prim.Native.Nat.{bit_and}
use sming_nvs.Prelude.{
  ℕ, zero, suc, ◌+◌, ◌-◌, ◌*◌, ◌/◌, ◌%◌, Bool, true, false, ◌||◌, not, List, [], ◌∷◌, ◌++◌, ltb,
  leb, ◌==◌, if◌then◌else◌, get_or, set, take, drop, replicate, length, word_at, bytes32,
}

-- `SPI_FLASH_SEC_SIZE`
abbrev sec_size : ℕ
sec_size = 4096

abbrev size_max : ℕ
size_max = 0xffff_ffff_ffff_ffff

pub record SpiFlashEmulator : Type 0 where
  pub words : List ℕ
  pub erase_count : List ℕ
  pub read_ops : ℕ
  pub write_ops : ℕ
  pub read_bytes : ℕ
  pub write_bytes : ℕ
  pub erase_ops : ℕ
  pub lower_sector : ℕ
  pub upper_sector : ℕ
  pub fail_countdown : ℕ

-- `SpiFlashEmulator(sectorCount)`
unfoldable pub new_emulator : ℕ → SpiFlashEmulator
new_emulator sectors = record {
  words = replicate (sectors * sec_size / 4) 0xffff_ffff;
  erase_count = replicate sectors 0;
  read_ops = 0;
  write_ops = 0;
  read_bytes = 0;
  write_bytes = 0;
  erase_ops = 0;
  lower_sector = 0;
  upper_sector = sectors;
  fail_countdown = size_max;
}

abbrev pub size : SpiFlashEmulator → ℕ
size e = length e.words * 4

-- The words as the bytes of memory, and bytes of memory as words.
abbrev pub bytes_of : List ℕ → List ℕ
bytes_of [] = []
bytes_of (w ∷ ws) = bytes32 w ++ bytes_of ws

abbrev pub words_of : List ℕ → List ℕ
words_of (a ∷ b ∷ c ∷ d ∷ rest) = word_at (a ∷ b ∷ c ∷ d ∷ []) ∷ words_of rest
words_of _ = []

-- `n` words from a position on.
abbrev slice : ℕ → ℕ → List ℕ → List ℕ
slice n pos ws = take n (drop pos ws)

-- What the guards of `read` and `write` refuse, for an address and a size whose sum fits `size_t`.
abbrev misplaced : ℕ → ℕ → SpiFlashEmulator → Bool
misplaced address n e = not (address % 4 == 0) || not (n % 4 == 0) || ltb (size e) (address + n)

-- `mFailCountdown != SIZE_MAX && mFailCountdown-- == 0`
abbrev trips : SpiFlashEmulator → Bool
trips e = if e.fail_countdown == size_max then false else e.fail_countdown == 0

abbrev counted_down : SpiFlashEmulator → SpiFlashEmulator
counted_down e = record e {
  fail_countdown =
      if e.fail_countdown == size_max
      then size_max
      else (e.fail_countdown + size_max) % (size_max + 1);
}

abbrev is_out_of_bounds : ℕ → SpiFlashEmulator → Bool
is_out_of_bounds sector e = ltb sector e.lower_sector || leb e.upper_sector sector

-- The bytes that are read, where the call returns `true`.
pub read : ℕ → ℕ → SpiFlashEmulator → (Bool × List ℕ) × SpiFlashEmulator
read address n e = if misplaced address n e then ((false, []), e) else (
  (true, bytes_of (slice (n / 4) (address / 4) e.words)),
  record e {
    read_ops = (e.read_ops + 1) % (size_max + 1);
    read_bytes = (e.read_bytes + n) % (size_max + 1);
  },
)

-- The loop of `write`, over the words of the source.
unfoldable pub write_loop : List ℕ → ℕ → SpiFlashEmulator → Bool × SpiFlashEmulator
write_loop [] pos e = (true, e)
write_loop (sv ∷ src) pos e = elim (trips e) [
  | true ↦ (false, counted_down e)
  | false ↦ elim (bit_and (0xffff_ffff - get_or e.words pos 0) sv == 0) [
    | false ↦ (false, counted_down e)
    | true ↦ write_loop src (pos + 1) (record (counted_down e) { words = set e.words pos sv })
  ]
]

unfoldable pub write : ℕ → List ℕ → SpiFlashEmulator → Bool × SpiFlashEmulator
write address src e =
    if is_out_of_bounds (address / sec_size % 4294967296) e || misplaced address (length src) e
    then (false, e)
    else let (done, e') = write_loop (words_of src) (address / 4) e in
      if done
      then (
        true,
        record e' {
          write_ops = (e'.write_ops + 1) % (size_max + 1);
          write_bytes = (e'.write_bytes + length src) % (size_max + 1);
        },
      )
      else (false, e')

-- `std::fill_n`, within the array.
abbrev fill : ℕ → ℕ → List ℕ → List ℕ
fill pos n ws = take pos ws ++ (replicate n 0xffff_ffff ++ drop (pos + n) ws)

unfoldable pub erase : ℕ → SpiFlashEmulator → Bool × SpiFlashEmulator
erase sector e =
    let offset = sector * sec_size / 4 in
    if ltb (length e.words) offset || is_out_of_bounds sector e
    then (false, e)
    else if trips e
    then (false, counted_down e)
    else (
      true,
      record (counted_down e) {
        words = fill offset (sec_size / 4) e.words;
        erase_ops = (e.erase_ops + 1) % (size_max + 1);
        erase_count = set e.erase_count sector ((get_or e.erase_count sector 0 + 1) % 4294967296);
      },
    )

-- `setBounds`, `failAfter` and `clearStats`
abbrev set_bounds : ℕ → ℕ → SpiFlashEmulator → SpiFlashEmulator
set_bounds lower upper e = record e { lower_sector = lower; upper_sector = upper }

abbrev fail_after : ℕ → SpiFlashEmulator → SpiFlashEmulator
fail_after count e = record e { fail_countdown = count }

abbrev clear_stats : SpiFlashEmulator → SpiFlashEmulator
clear_stats e = record e {
  read_bytes = 0;
  write_bytes = 0;
  erase_ops = 0;
  read_ops = 0;
  write_ops = 0;
}
