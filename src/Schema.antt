-- ===== src/Schema.antt =====
-- src/schema: the types of a schema, the columns of a schema and its form in the file's metadata.
pub mod Types
pub mod Builder
pub mod GroupBuilder
pub mod Thrift
pub mod Columns
pub mod Contains
mod Tests
