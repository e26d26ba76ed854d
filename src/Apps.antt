-- ===== src/Apps.antt =====
-- The programs: src/apps.
pub mod StreamSplitter
