-- ===== src/Tools.antt =====
-- internal/tools: the file tools of the agent.
pub mod Edit
pub mod Examples
