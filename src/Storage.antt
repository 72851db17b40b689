-- ===== src/Storage.antt =====
-- src/nvs_storage.hpp and src/nvs_storage.cpp: the items of a partition over all its pages, large
-- blobs in chunks, and the names of the namespaces. The build is the one without `ESP_PLATFORM`.
pub mod State
pub mod Blobs
pub mod Check
pub mod Entries
pub mod Items
pub mod Namespaces
pub mod Indices
