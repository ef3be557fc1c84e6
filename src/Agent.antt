-- ===== src/Agent.antt =====
-- agent: the agent loop and what it is made of.
pub mod Aggregator
pub mod Replay
pub mod Prepare
pub mod Tools
pub mod Env
pub mod Session
pub mod Feedback
pub mod Files
pub mod Branching
pub mod Loop
