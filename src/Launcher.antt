-- ===== src/Launcher.antt =====
-- src/interactive.rs: the launcher, which asks for a program and its settings.
pub mod Args
pub mod System
pub mod Field
pub mod Index
pub mod Form
pub mod Options
pub mod Complete
pub mod Run
pub mod Authority
pub mod Activate
pub mod Select
pub mod Keys
pub mod Shown
pub mod Target
pub mod Tests
