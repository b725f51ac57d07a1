-- ===== src/UserInterface.antt =====
-- The state of the user interface: include/UI and src/UI.
pub mod OrderEntryPanel
