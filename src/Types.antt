-- ===== src/Types.antt =====
-- agent/types: the data that the other packages share.
pub mod Content
pub mod Errors
pub mod Node
pub mod TreePath
pub mod Wal
pub mod Delta
pub mod Compactor
