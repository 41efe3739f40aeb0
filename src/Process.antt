-- ===== src/Process.antt =====
-- src/process: which processes belong to the program that TLScope watches.
pub mod Paths
pub mod Targets
pub mod Tracking
pub mod Tests
