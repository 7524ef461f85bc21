-- ===== src/Lob.antt =====
-- luv_lob.hpp, `LOBEngine`: the limit order book that is rebuilt from tick messages. The children
-- hold the state, the operations by level and by message, and what is proved of them.
mod Tests
pub mod State
pub mod Slots
pub mod Levels
pub mod Orders
pub mod Handlers
pub mod Queries
pub mod Refusals
pub mod Ladder
