-- ===== src/Adapters.antt =====
-- The adapters of the four drivers, each over the package that it wraps.
pub mod Pgx
pub mod Std
pub mod Mysql
pub mod Sqlite3
pub mod Sqlserver
