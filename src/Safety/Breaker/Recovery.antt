-- ===== src/Safety/Breaker/Recovery.antt =====
-- The circuit breaker of luv_safety.hpp: how long it stays open, and how it recovers.
use luv_flicker.Base.{
  ℕ, suc, ◌+◌, ◌-◌, ◌^◌, ◌<◌, ◌≤◌, ◌≡◌, ◌⊎◌, true, false, List, [], ◌∷◌, arith, refl, if◌then◌else◌,
  min,
}
use luv_flicker.Safety.Breaker.{
  CircuitBreaker, closed, opened, half_open, allow, allow_probe, trip, reset,
}

-- The open breaker refuses, unchanged, until its cool-down is over, and for good if it has none.
pub allow-opened :
    (b : CircuitBreaker) (now_ns : ℕ)
    → b.state ≡ opened
    → (b.cool_down_ns ≡ 0) ⊎ (now_ns < b.trip_timestamp_ns + b.cool_down_ns)
    → allow b now_ns ≡ (b, false)
unfolding allow
allow-opened b now_ns o early = ground arith

-- Once the cool-down is over, the breaker lets the next request through, as a probe or closed again;
-- the configuration allows one probe at least.
pub allow-recovers :
    (b : CircuitBreaker) (now_ns : ℕ)
    → b.state ≡ opened
    → 0 < b.cool_down_ns
    → 0 < b.half_open_max_probes
    → b.trip_timestamp_ns + b.cool_down_ns ≤ now_ns
    → ((allow b now_ns).1 ≡ true)
      × ((allow b now_ns).0.state ≡ (if b.half_open_enabled then half_open else closed))
unfolding allow
allow-recovers b now_ns o c p late = ground arith

-- The answers to a row of requests.
abbrev pub allowed : CircuitBreaker → List ℕ → ℕ
allowed b [] = 0
allowed b (t ∷ ts) = (if (allow b t).1 then 1 else 0) + allowed (allow b t).0 ts

abbrev pub length : List ℕ → ℕ
length [] = 0
length (t ∷ ts) = suc (length ts)

allow-half_open :
    (b : CircuitBreaker) (now_ns : ℕ) → b.state ≡ half_open → allow b now_ns ≡ allow_probe b
unfolding allow
allow-half_open b now_ns h = rw (h, allow) refl

-- Half open, the breaker lets through the probes that are left and no more, however many requests
-- come, as long as fewer than 2 ^ 32 come.
pub allowed-probes :
    (b : CircuitBreaker) (ts : List ℕ)
    → b.state ≡ half_open
    → b.half_open_probes_issued + length ts < 2 ^ 32
    → allowed b ts ≡ min (length ts) (b.half_open_max_probes - b.half_open_probes_issued)
unfolding allow_probe
allowed-probes b [] h f = ground arith
allowed-probes b (t ∷ ts) h f =
    rw (allow-half_open b t h) (ground (arith, allowed-probes (allow_probe b).0 ts h (omega arith)))

-- A trip without a time stamp has no cool-down: at any later time than the cool-down's length since
-- the clock's start the breaker closes at the next request.
pub trip-untimed :
    (b : CircuitBreaker) (now_ns : ℕ)
    → 0 < b.cool_down_ns
    → b.cool_down_ns ≤ now_ns
    → b.half_open_enabled ≡ false
    → allow (trip b 0) now_ns ≡ (reset (trip b 0), true)
unfolding allow trip
trip-untimed b now_ns c late h = ground arith
