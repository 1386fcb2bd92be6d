-- ===== src/Examples.antt =====
-- The programs in examples/ that use a Provider.
pub mod Users
pub mod Service
pub mod Crud
pub mod AllAdapters
