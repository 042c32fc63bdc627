-- ===== src/Updater/Frontend.antt =====
-- `updateFrontend` of updater.go.
pub mod Paths
pub mod Archive
pub mod Swap
pub mod Update
