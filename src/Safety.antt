-- ===== src/Safety.antt =====
-- luv_safety.hpp: order rate limiter, sequence tracker, circuit breaker, reconciliation ledger and
-- audit chain. An atomic counter changed by a compare-and-exchange loop is changed in one step.
pub mod Limiter
pub mod Sequence
pub mod Breaker
pub mod Ledger
pub mod Audit
mod Tests
