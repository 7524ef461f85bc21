-- ===== src/Exec.antt =====
-- luv_execution.hpp: pre-trade risk, OUCH packets, the execution gateway and the table of stop and
-- pegged orders.
pub mod Types
pub mod Risk
pub mod Ouch
pub mod Slots
pub mod Gateway
pub mod Reports
pub mod Triggers
pub mod Fixture
mod Tests
