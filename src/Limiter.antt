-- ===== src/Limiter.antt =====
-- The limiter object: `AbstractRateLimiter` of src/redis_rate_limiter/core/base.py and
-- `DistributedRateLimiterMixin` of src/redis_rate_limiter/core/limiters.py. Durations that the source
-- keeps in seconds as floats are kept in whole milliseconds, fractions of 1 in thousandths.
pub mod Jitter
pub mod Config
pub mod Consume
pub mod Schedule
pub mod Acquire
pub mod Status
use redis_rate_limiter.Prelude.{
  ℕ, zero, suc, ◌+◌, ◌-◌, ◌*◌, ◌/◌, Bool, true, false, Option, none, some, [], ◌∷◌, ltb, leb, max,
  if◌then◌else◌, or_else, is_some, not, ◌==◌, ◌&&◌,
}
use redis_rate_limiter.Prelude.Int.{ℤ, pos, negsuc, pos_part, ltb_ℤ, leb_ℤ}
use redis_rate_limiter.Prelude.Text.{Text, same}
use redis_rate_limiter.Window.{Delay}

-- The ValueError that the constructors raise.
pub data ValueError : Type 0 where
  bad_max_concurrency bad_max_age bad_lease_duration empty_limiter_id bad_limit bad_window :
      ValueError

pub data Result {ℓ} (A : Type ℓ) : Type ℓ where
  ok : A → Result A
  err : ValueError → Result A

-- if test: raise ValueError(...)
abbrev pub raise_if : Bool → ValueError → Result (Unit {0})
raise_if true e = err e
raise_if false e = ok tt

infixl 5 ◌>>◌
-- The next statement, unless this one raised.
abbrev pub ◌>>◌ {ℓ} : {B : Type ℓ} → Result (Unit {0}) → Result B → Result B
err e >> next = err e
ok _ >> next = next

-- The arguments of the constructor, as the caller may pass them; the window is in milliseconds.
pub record Arguments : Type 0 where
  pub limiter_id : Text
  pub limit : ℤ
  pub window_ms : ℤ
  pub max_concurrency : ℤ
  pub max_age : ℤ
  pub lease_duration : ℤ
  pub jitter_enabled : Bool
  pub jitter_min : ℕ
  pub jitter_max : ℕ
  pub drain_enabled : Bool

pub record Limiter : Type 0 where
  pub id : Text
  pub limit : ℕ
  pub window_ms : ℕ
  pub config_version : ℕ
  pub drain_paused_until : ℕ
  pub max_concurrency : ℕ
  pub max_age : ℕ
  pub lease_duration : ℕ
  pub jitter_enabled : Bool
  pub jitter_min : ℕ
  pub jitter_max : ℕ
  pub drain_enabled : Bool
  pub worker_id : Text
  pub consecutive_drain_failures : ℕ
  pub last_refresh_at : ℕ

-- AbstractRateLimiter.__init__
unfoldable pub check_base : Arguments → Result (Unit {0})
check_base a = do
  raise_if (same a.limiter_id []) empty_limiter_id
  raise_if (ltb_ℤ a.limit (pos 0)) bad_limit
  raise_if (leb_ℤ a.window_ms (pos 0)) bad_window

-- DistributedRateLimiterMixin.__init__; `worker_id` is the uuid4 that it draws.
unfoldable pub new_limiter : Text → Arguments → Result Limiter
unfolding check_base
new_limiter worker_id a = do
  raise_if (ltb_ℤ a.max_concurrency (pos 1)) bad_max_concurrency
  raise_if (ltb_ℤ a.max_age (pos 1)) bad_max_age
  raise_if (ltb_ℤ a.lease_duration (pos 1)) bad_lease_duration
  check_base a
  ok (record {
    id = a.limiter_id;
    limit = pos_part a.limit;
    window_ms = pos_part a.window_ms;
    config_version = 0;
    drain_paused_until = 0;
    max_concurrency = pos_part a.max_concurrency;
    max_age = pos_part a.max_age;
    lease_duration = pos_part a.lease_duration;
    jitter_enabled = a.jitter_enabled;
    jitter_min = a.jitter_min;
    jitter_max = a.jitter_max;
    drain_enabled = a.drain_enabled;
    worker_id = worker_id;
    consecutive_drain_failures = 0;
    last_refresh_at = 0;
  })

-- math.ceil of the sum of the three lifetimes, each at least a second
unfoldable pub get_inflight_ttl : Limiter → Option ℕ → ℕ
get_inflight_ttl l max_age_override =
    let ttl_ms =
      max 1000 (or_else max_age_override l.max_age * 1000)
      + max 1000 (l.lease_duration * 1000)
      + max 1000 l.window_ms in
    (ttl_ms + 999) / 1000

-- window / limit, or the window
unfoldable pub token_interval : Limiter → Delay
token_interval l =
    if ltb 0 l.limit
    then record { num = l.window_ms; den = l.limit }
    else record { num = l.window_ms; den = 1 }
