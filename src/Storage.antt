-- ===== src/Storage.antt =====
-- src/storage.rs: the SQLite repository. The database is a record of tables; an operation maps a
-- database to an error, or to its result with the database after the commit.
pub mod Schema
pub mod Statements
pub mod Audits
pub mod Operations
pub mod Command
pub mod Retention
pub mod Relay
pub mod Communities
pub mod Drafts
pub mod Boundary
pub mod Calls
pub mod History
