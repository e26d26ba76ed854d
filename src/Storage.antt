-- ===== src/Storage.antt =====
-- include/storage and src/storage: the codecs, the pager, the index pages and the tables.
pub mod ValueIo
pub mod Page
pub mod Pager
pub mod Index
pub mod Table
pub mod BulkGuard
pub mod Database
pub mod Dbms
