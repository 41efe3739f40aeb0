-- ===== src/Capture.antt =====
-- src/capture: what the proxy records of an exchange, and the store, filter and views over it.
pub mod Body
pub mod Entry
pub mod SortedVec
pub mod Filter
pub mod Store
pub mod Suggest
pub mod Redact
pub mod Decode
pub mod Export
pub mod Details
pub mod Tests
