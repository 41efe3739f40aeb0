-- ===== src/Logs.antt =====
-- The two bounded log stores: src/process/logs.rs and src/diagnostics/logs.rs.
pub mod Window
pub mod Child
pub mod Diagnostics
pub mod Tests
