-- ===== src/Structs.antt =====
-- internal/structs: what the `ksql` and `tablename` tags of a struct say, and conversions that rest
-- on them.
pub mod Info
pub mod Tags
pub mod Cache
pub mod Goroutines
pub mod ToMap
pub mod Func
