-- ===== src/Sql.antt =====
-- The texts that ksql.go sends to the database, and the parameters that go with them.
pub mod Token
pub mod Select
pub mod Scan
pub mod Slots
pub mod Ids
pub mod Insert
pub mod Update
pub mod Delete
