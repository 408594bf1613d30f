-- ===== src/Limiter/Config.antt =====
-- Construction, configuration and its overrides.
use redis_rate_limiter.Prelude.{
  ℕ, ◌+◌, ◌*◌, ◌≤◌, ◌<◌, ◌≡◌, false, Option, none, some, [], max, arith, ◌==◌, if◌then◌else◌,
  or_else,
}
use redis_rate_limiter.Prelude.Int.{pos}
use redis_rate_limiter.Prelude.Text.{Text, same}
use redis_rate_limiter.Limiter.{Limiter, Arguments, ok, new_limiter, get_inflight_ttl}

-- The persisted dictionary, or a dictionary of overrides, where keys may be missing.
pub record Overrides : Type 0 where
  pub limit : Option ℕ
  pub window_ms : Option ℕ
  pub max_concurrency : Option ℕ
  pub max_age : Option ℕ
  pub lease_duration : Option ℕ

-- _build_persist_config, with the part of AbstractRateLimiter
unfoldable pub build_persist_config : Limiter → Overrides
build_persist_config l = record {
  limit = some l.limit;
  window_ms = some l.window_ms;
  max_concurrency = some l.max_concurrency;
  max_age = some l.max_age;
  lease_duration = some l.lease_duration;
}

-- A new window pauses the drain for the longer of the two; `now` is time.time().
unfoldable pub apply_window : ℕ → Option ℕ → Limiter → Limiter
apply_window now none l = l
apply_window now (some new_window) l =
    if new_window == l.window_ms
    then l
    else record l { drain_paused_until = now + max l.window_ms new_window; window_ms = new_window }

-- AbstractRateLimiter._apply_config_overrides
unfoldable pub apply_base_overrides : ℕ → Overrides → Limiter → Limiter
unfolding apply_window
apply_base_overrides now o l =
    let paused = apply_window now o.window_ms l in
    record paused { limit = or_else o.limit paused.limit }

-- DistributedRateLimiterMixin._apply_config_overrides
unfoldable pub apply_config_overrides : ℕ → Overrides → Limiter → Limiter
unfolding apply_base_overrides
apply_config_overrides now o l =
    let base = apply_base_overrides now o l in
    record base {
      max_concurrency = or_else o.max_concurrency base.max_concurrency;
      max_age = or_else o.max_age base.max_age;
      lease_duration = or_else o.lease_duration base.lease_duration;
    }

-- A limiter that the constructor accepts.
pub record IsValid (l : Limiter) : Type 0 where
  pub named : same l.id [] ≡ false
  pub windowed : 0 < l.window_ms
  pub concurrent : 0 < l.max_concurrency
  pub aged : 0 < l.max_age
  pub leased : 0 < l.lease_duration

-- A limiter that the constructor returns has a name that is not empty, a window, a concurrency, an
-- age and a lease above zero, and the arguments' identifier and numbers.
new_limiter-IsValid :
    (worker_id : Text) (a : Arguments) (l : Limiter)
    → new_limiter worker_id a ≡ ok l
    → IsValid l
      × (l.id ≡ a.limiter_id)
      × (pos l.limit ≡ a.limit)
      × (pos l.window_ms ≡ a.window_ms)
      × (pos l.max_concurrency ≡ a.max_concurrency)
      × (pos l.max_age ≡ a.max_age)
      × (pos l.lease_duration ≡ a.lease_duration)
unfolding new_limiter
new_limiter-IsValid w a l h = ground arith

-- A limiter that applies the configuration that another one persists would itself persist that same
-- configuration.
pub apply-build :
    (now : ℕ) (l m : Limiter)
    → build_persist_config (apply_config_overrides now (build_persist_config l) m)
      ≡ build_persist_config l
unfolding build_persist_config apply_config_overrides
apply-build now l m = ground arith

-- A changed window pauses the drain until both windows have passed; an unchanged one does not.
pub apply_config_overrides_pause :
    (now : ℕ) (o : Overrides) (l : Limiter) (w : ℕ)
    → o.window_ms ≡ some w
    → (apply_config_overrides now o l).drain_paused_until
      ≡ (if w == l.window_ms then l.drain_paused_until else now + max l.window_ms w)
unfolding apply_config_overrides
apply_config_overrides_pause now o l w h = ground arith

-- The lifetime of the in-flight marker covers the age limit, the lease and the window together, and is
-- at least three seconds.
get_inflight_ttl_bounds :
    (l : Limiter) (o : Option ℕ)
    → (or_else o l.max_age * 1000 + l.lease_duration * 1000 + l.window_ms
        ≤ get_inflight_ttl l o * 1000)
      × (3 ≤ get_inflight_ttl l o)
unfolding get_inflight_ttl
get_inflight_ttl_bounds l o = (omega arith, omega arith)
