-- ===== src/Tree.antt =====
-- agent/tree: the branching conversation tree.
pub mod State
pub mod Grow
pub mod Paths
pub mod Diff
pub mod Split
pub mod Archive
pub mod Lineage
pub mod Valid
pub mod Growth
pub mod Shape
pub mod Walks
pub mod Extend
pub mod Reopened
pub mod Messages
pub mod Logged
pub mod History
pub mod Located
pub mod Compact
pub mod Serialize
pub mod Load
