-- ===== src/Page.antt =====
-- src/nvs_page.hpp and src/nvs_page.cpp: one flash sector with a header, a table of entry states and
-- 126 entries of 32 bytes. The methods stand in the children; this file passes their names on.
pub mod State
pub mod Table
pub mod Header
pub mod Find
pub mod Items
pub mod Copy
pub mod Repair
pub mod Load
pub mod Tailroom
pub mod Keeps
pub mod Lifecycle
pub mod Commands
pub mod States
pub mod Answers
pub mod Written
pub mod Ranges
pub mod Stored
pub mod Recall
pub mod Sought
pub mod Rows
pub mod Ready
pub mod Laid
pub mod Kept
pub mod Filling
pub mod RoundTrip
