-- ===== src/Chat.antt =====
-- ops/budget.py and ops/chat_budget.py: what a chat may spend and keep.
mod Budget
pub mod Limits
unfoldable pub use Budget.*
