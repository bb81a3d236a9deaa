-- ===== src/Database.antt =====
-- database.c: the two SQL tables and the statements that the code runs on them.
pub mod Types
pub mod Statements
pub mod Rows
pub mod Inbound
pub mod Outbound
pub mod Waiting
pub mod Clock
pub mod Prepared
