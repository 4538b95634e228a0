-- ===== src/Chat.antt =====
-- internal/chat: the session around the runs of an agent.
pub mod Task
mod Examples
