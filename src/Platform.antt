-- ===== src/Platform.antt =====
-- src/partition.hpp: `Partition`, the interface to the flash, with the two services of the host
-- that the storage uses. What stands behind them is not code of this repository: the operations of
-- `esp_partition_t`, the checksum of the ROM.
pub mod Flash
use sming_nvs.Prelude.{ℕ, Void, List, M}

-- `Dev` is the state of the device. A read returns the bytes; one that fails leaves the caller's
-- buffer alone.
pub record Platform (Dev : Type 0) : Type 0 where
  pub read_raw : ℕ → ℕ → M Dev (List ℕ)
  pub read : ℕ → ℕ → M Dev (List ℕ)
  pub write_raw : ℕ → List ℕ → M Dev Void
  pub write : ℕ → List ℕ → M Dev Void
  pub erase_range : ℕ → ℕ → M Dev Void
  pub crc32_le : ℕ → List ℕ → ℕ
