-- ===== src/Safety/Limiter.antt =====
-- luv_safety.hpp, `OrderRateLimiter`. A compare-and-exchange loop is one step.
use luv_flicker.Base.{ℕ, ◌+◌, ◌-◌, Bool, if◌then◌else◌, ◌==◌, ltb}

pub record OrderRateLimiter : Type 0 where
  pub max_pending : ℕ
  pub pending : ℕ

unfoldable pub try_acquire : OrderRateLimiter → OrderRateLimiter × Bool
try_acquire l = (
  if ltb l.pending l.max_pending then record l { pending = l.pending + 1 } else l,
  ltb l.pending l.max_pending,
)

unfoldable pub release : OrderRateLimiter → OrderRateLimiter
release l = if l.pending == 0 then l else record l { pending = l.pending - 1 }
