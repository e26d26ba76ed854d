-- ===== src/Tests.antt =====
-- Runs of the models at concrete inputs.
mod Core
mod Pages
mod Pagers
mod Queries
mod Tables
mod Trees
mod Leaves
mod Files
mod Disk
mod Indexes
mod Streams
mod Sessions
