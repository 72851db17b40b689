-- ===== src/EspPartition.antt =====
-- src/nvs_partition.cpp and src/nvs_encrypted_partition.cpp: the two kinds of `Partition` that stand on
-- a partition of the platform. The functions `esp_partition_*`, the checksum and the XTS cipher of
-- mbedtls, with the key set, are arguments.
pub mod RoundTrip
pub mod Sizes
use sming_nvs.Prelude.{
  ℕ, zero, suc, ◌+◌, ◌*◌, ◌/◌, ◌%◌, Bool, true, false, not, Option, none, some, List, [], ◌∷◌, ◌++◌,
  M, Void, Outcome, ok, err, abort, stuck, no_mem, invalid_arg, invalid_size, nvs_xts_encr_failed,
  nvs_xts_decr_failed, nvs_xts_cfg_failed, pure, fail, raise_if, ◌>>=◌, ◌>>◌, ltb, ◌==◌, length,
  take, drop, replicate, u8, bytes32,
}
use sming_nvs.Platform.{Platform}

-- `esp_partition_read_raw` and the like, on one partition.
pub record EspFlash (Dev : Type 0) : Type 0 where
  pub read_raw : ℕ → ℕ → M Dev (List ℕ)
  pub read : ℕ → ℕ → M Dev (List ℕ)
  pub write_raw : ℕ → List ℕ → M Dev Void
  pub write : ℕ → List ℕ → M Dev Void
  pub erase_range : ℕ → ℕ → M Dev Void
  pub crc32_le : ℕ → List ℕ → ℕ

-- `mbedtls_aes_crypt_xts` with the context for one direction or the other, of a data unit and the
-- bytes; `none` where it does not return 0.
pub record Xts : Type 0 where
  pub encrypt : List ℕ → List ℕ → Option (List ℕ)
  pub decrypt : List ℕ → List ℕ → Option (List ℕ)

-- `ESP_ENCRYPT_BLOCK_SIZE`
abbrev block_size : ℕ
block_size = 16

-- `sizeof(Item)`
abbrev item_size : ℕ
item_size = 32

-- `data_unit`: the low 32 bits of an address, and zeros.
abbrev data_unit : ℕ → List ℕ
data_unit address = bytes32 address ++ replicate 12 0

-- `NVSEncryptedPartition::init`. The key goes to both contexts; `none` where one refuses it.
abbrev init :
    (List ℕ → Option (List ℕ → List ℕ → Option (List ℕ)))
    → (List ℕ → Option (List ℕ → List ℕ → Option (List ℕ)))
    → List ℕ
    → Outcome Xts
init set_enc set_dec key = elim (set_enc key) [
  | none ↦ err nvs_xts_cfg_failed
  | some e ↦ elim (set_dec key) [
    | none ↦ err nvs_xts_cfg_failed
    | some d ↦ ok (record { encrypt = e; decrypt = d })
  ]
]

-- The device of an encrypted partition, with the answers to the requests for memory.
pub record Encrypted (Dev : Type 0) : Type 0 where
  pub dev : Dev
  pub heap : List Bool

module _ {Dev : Type 0} (F : EspFlash Dev) where
  pub plain_read : ℕ → ℕ → M Dev (List ℕ)
  plain_read src_offset size = do
    raise_if (not (size % block_size == 0)) invalid_arg
    F.read src_offset size

  pub plain_write : ℕ → List ℕ → M Dev Void
  plain_write dst_offset src = do
    raise_if (not (length src % block_size == 0)) invalid_arg
    F.write dst_offset src

  -- `NVSPartition`
  nvs_partition : Platform Dev
  nvs_partition = record {
    read_raw = F.read_raw;
    read = plain_read;
    write_raw = F.write_raw;
    write = plain_write;
    erase_range = F.erase_range;
    crc32_le = F.crc32_le;
  }

-- The loop of `write` over the entries of the buffer. Its counter has 8 bits.
unfoldable pub encrypt_loop : Xts → ℕ → ℕ → ℕ → List ℕ → Outcome (List ℕ)
encrypt_loop X address zero entry buffer = stuck
encrypt_loop X address (suc fuel) entry buffer = elim (ltb entry (length buffer / item_size)) [
  | false ↦ ok buffer
  | true ↦
      elim (X.encrypt (data_unit (address + entry * item_size))
        (take item_size (drop (entry * item_size) buffer))) [
          | none ↦ err nvs_xts_encr_failed
          | some bytes ↦ encrypt_loop X address fuel (u8 (entry + 1)) (
              take (entry * item_size) buffer
              ++ bytes
              ++ drop (entry * item_size + item_size) buffer)
        ]
]

module _ {Dev : Type 0} where
  abbrev on_flash : {A : Type 0} → M Dev A → M (Encrypted Dev) A
  on_flash f s = let (o, d) = f s.dev in (o, record s { dev = d })

  abbrev request_from : Encrypted Dev → List Bool → Outcome Bool × Encrypted Dev
  request_from s [] = (ok true, s)
  request_from s (granted ∷ rest) = (ok granted, record s { heap = rest })

  -- `new (std::nothrow) uint8_t [size]`
  abbrev request_buffer : M (Encrypted Dev) Bool
  request_buffer s = request_from s s.heap

  abbrev returns : {A : Type 0} → Outcome A → M (Encrypted Dev) A
  returns o s = (o, s)

  -- The bytes as they were before they were encrypted.
  abbrev decrypted : Xts → ℕ → List ℕ → M (Encrypted Dev) (List ℕ)
  decrypted X address bytes = elim (X.decrypt (data_unit address) bytes) [
    | none ↦ fail nvs_xts_decr_failed
    | some plain ↦ pure plain
  ]

module _ {Dev : Type 0} (F : EspFlash Dev) (X : Xts) where
  pub encrypted_read : ℕ → ℕ → M (Encrypted Dev) (List ℕ)
  encrypted_read src_offset size = do
    raise_if (not (size == item_size)) invalid_size
    bytes ← on_flash (F.read src_offset size)
    decrypted X src_offset bytes

  unfoldable pub encrypted_write : ℕ → List ℕ → M (Encrypted Dev) Void
  encrypted_write address src = do
    raise_if (not (length src % block_size == 0)) invalid_size
    granted ← request_buffer
    raise_if (not granted) no_mem
    buffer ← returns (encrypt_loop X address 257 0 src)
    on_flash (F.write address buffer)

  -- `NVSEncryptedPartition`
  nvs_encrypted_partition : Platform (Encrypted Dev)
  nvs_encrypted_partition = record {
    read_raw = λ a n. on_flash (F.read_raw a n);
    read = encrypted_read;
    write_raw = λ a bs. on_flash (F.write_raw a bs);
    write = encrypted_write;
    erase_range = λ a n. on_flash (F.erase_range a n);
    crc32_le = F.crc32_le;
  }
