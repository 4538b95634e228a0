-- ===== src/Tui.antt =====
-- internal/tui: the terminal interface.
pub mod ScrollView
pub mod Stack
pub mod StdinBuffer
mod Examples
