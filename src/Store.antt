-- ===== src/Store.antt =====
-- go/adapters/sqlitestore/store.go: the sessions of a user in a database. The first three modules are
-- the code, the others are about it.
pub mod Tables
pub mod Driver
pub mod Methods
pub mod Kept
pub mod Laws
pub mod Pruning
pub mod NewRows
pub mod Saved
pub mod Retention
pub mod Atomic
pub mod Refinement
pub mod Calls
