-- ===== src/Apps.antt =====
-- The programs of apps/src/bin.
pub mod Windowing
