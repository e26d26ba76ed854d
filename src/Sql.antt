-- ===== src/Sql.antt =====
-- include/sql and src/sql: schemas, expressions, the WHERE clause and the choice of rows.
pub mod Schema
pub mod Ast
pub mod Where
pub mod Hint
pub mod Select
