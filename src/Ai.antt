-- ===== src/Ai.antt =====
-- pkg/ai: the provider layer.
pub mod Stream
pub mod Message
pub mod KeyPool
mod Examples
