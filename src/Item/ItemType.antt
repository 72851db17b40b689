-- ===== src/Item/ItemType.antt =====
-- include/nvs_handle.hpp: `enum class ItemType : uint8_t`, with the values of include/nvs.h.
use Prim.Native.Nat.{ℕ}

abbrev pub u8 : ℕ
u8 = 0x01

abbrev i8 : ℕ
i8 = 0x11

abbrev pub u16 : ℕ
u16 = 0x02

abbrev i16 : ℕ
i16 = 0x12

abbrev pub u32 : ℕ
u32 = 0x04

abbrev i32 : ℕ
i32 = 0x14

abbrev u64 : ℕ
u64 = 0x08

abbrev i64 : ℕ
i64 = 0x18

abbrev pub sz : ℕ
sz = 0x21

abbrev pub blob : ℕ
blob = 0x41

abbrev pub blob_data : ℕ
blob_data = 0x42

abbrev pub blob_idx : ℕ
blob_idx = 0x48

abbrev pub any : ℕ
any = 0xff
