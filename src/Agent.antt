-- ===== src/Agent.antt =====
-- pkg/agent: the run loop, its steering queue, compaction and cache warming.
pub mod Calls
pub mod Steering
pub mod Loop
pub mod Compaction
pub mod Warmer
mod Examples
