-- ===== src/Core.antt =====
-- include/core and src/core: the string pool and the values of cells.
pub mod StringPool
pub mod Value
