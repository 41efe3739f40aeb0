-- ===== src/Tui.antt =====
-- src/tui: the state of the terminal interface, its filter editor and its keys.
pub mod Editor
pub mod Visible
pub mod LogTab
pub mod DetailTab
pub mod State
pub mod Scroll
pub mod Keys
pub mod Screens
pub mod Dispatch
pub mod Consistent
pub mod Loop
pub mod Tests
