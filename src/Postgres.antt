-- ===== src/Postgres.antt =====
-- The database that the stores share (migrations/*.sql): the tables that they read and write, and
-- the statements on them. PostgreSQL runs one statement at a time to its end, or fails it.
pub mod Rows
pub mod Sql
pub mod Run
pub mod Tables
