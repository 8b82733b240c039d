-- ===== src/Repository.antt =====
-- The package repository/.
pub mod Models
pub mod Options
pub mod ClickHouse
pub mod Open
pub mod Adapter
