-- ===== src/Lib.antt =====
-- A model of the non-volatile storage library (NVS): keys and values in the sectors of a flash
-- partition, and what keeps them together.
--
-- The parts, from the flash upwards, with their files. `Partition` (src/partition.hpp) reads,
-- writes and erases bytes: Platform. `Item` (src/nvs_types.hpp, src/nvs_types.cpp) is an entry of
-- 32 bytes: Item, with the types of include/nvs_handle.hpp in Item/ItemType. `CompressedEnumTable`
-- (src/compressed_enum_table.hpp) packs the states of the entries: EnumTable. `HashList`
-- (src/nvs_item_hash_list.cpp) is a cache of the positions of items by a hash of 24 bits:
-- HashList. `Page` (src/nvs_page.hpp, src/nvs_page.cpp) is one sector with up to 126 entries:
-- Page/State holds the members and constants, Page/Header the header and the page's state,
-- Page/Table the entries and their states, Page/Find `findItem`, Page/Items `writeItem`,
-- `readItem` and `cmpItem`, Page/Copy `copyItems`, Page/Load and Page/Repair `load` and
-- `mLoadEntryTable`. `PageManager` (src/nvs_pagemanager.cpp) holds the pages in use in the order
-- of their numbers and the free pages: PageManager, PageManager/Load, PageManager/Totals.
-- `Storage` (src/nvs_storage.cpp) finds items over all pages, splits blobs into chunks, and
-- numbers the namespaces: Storage/State, Storage/Blobs, Storage/Items, Storage/Namespaces,
-- Storage/Check, and Storage/Entries for the iterator and `fillStats`. `NVSPartition`
-- (src/nvs_partition.cpp) and `NVSEncryptedPartition` (src/nvs_encrypted_partition.cpp) are a
-- partition of the chip, in the clear and encrypted: EspPartition. `NVSPartitionManager`
-- (src/nvs_partition_manager.cpp) is the registry of partitions, storages and handles:
-- PartitionManager, with `init_custom` and `open_handle` in its Requests. `NVSHandleSimple`
-- (src/nvs_handle_simple.cpp) is a handle: Handle. The C interface (src/nvs_api.cpp) numbers the
-- handles: Api, with the scalars in Api/Scalars and the iterator in Api/Walk. The C++ interface
-- (src/nvs_cxx_api.cpp) with its handles (src/nvs_handle_locked.cpp) is Cxx. `intrusive_list`
-- (src/intrusive_list.h) is the doubly linked list all of them use: IntrusiveList, on a heap of
-- nodes. The emulated flash of the host's tests (test_nvs_host/spi_flash_emulation.h) is Emulator,
-- the functions `esp_partition_*` on it (test_nvs_host/spi_flash_emulation.cpp) and
-- `PartitionEmulation` (test_nvs_host/test_fixtures.hpp) are Emulator/Devices. What is assumed of
-- a flash, where something is, is the record of Platform/Flash: what a successful write stores is
-- read back, and reads and writes elsewhere keep it; Emulator/Lawful shows it of the emulated
-- flash. The other files of a part hold the proofs about it, Prelude what all parts share, Tests
-- the concrete inputs.
--
-- How the code is read. A method takes the state and returns it changed, with an outcome: a
-- result, an error code, a failed assertion, or a loop that ran out of fuel. A page method works
-- on the page, the device and the answers to the coming requests for memory; the managers apply it
-- to the page at a position. The device and the checksum of the ROM are the record `Platform`,
-- whose operations may fail and change the device at will. A read that fails leaves the caller's
-- buffer alone. The build is the one without `ESP_PLATFORM` and with assertions. `size_t` has 32
-- bits: `SIZE_MAX` and `INVALID_ENTRY` are 0xffffffff. Addresses are not bounded. Outside
-- IntrusiveList an intrusive list is a list. The functions `esp_partition_read`,
-- `esp_partition_write` and `esp_partition_erase_range` and the XTS cipher are arguments of
-- EspPartition. The registry holds the objects by their addresses, which are numbers, on a heap
-- that remembers what was deleted; a read of a deleted object ends the program. The locks of the C
-- and of the C++ interface make each call one step on the registry and the numbers.
--
-- Fuel. The loops over the entries of a page have 127 steps, one for each entry and one to see the
-- end; where an item has a span of 0 they run out, and the code itself does not end. The loop that
-- writes the chunks of a blob has as many steps as the blob has bytes and 256 more. The iterator
-- has 127 steps for a page, the loop that encrypts a buffer 257, and the loops over an intrusive
-- list as many as their caller gives: one more than there are nodes is enough.
--
-- Not modelled: what only the build with `ESP_PLATFORM` has (`nvs_flash_init`, `nvs_flash_erase`,
-- the keys, the lookup of a partition by its label), the platform layer, and what only prints; of
-- the emulated flash, the random contents, the load and the save of a file, and the estimated
-- time. On the host `size_t` has 64 bits; there an address and a size are taken to have a sum that
-- fits it.
pub mod Prelude
pub mod EnumTable
pub mod HashList
pub mod IntrusiveList
pub mod Item
pub mod Platform
pub mod EspPartition
pub mod Emulator
pub mod Page
pub mod PageManager
pub mod Storage
pub mod PartitionManager
pub mod Handle
pub mod Api
pub mod Cxx
mod Tests
