-- ===== src/Monitor/Transitions.antt =====
-- The monitor reports changes, and only those.
use redis_rate_limiter.Prelude.{
  ◌≡◌, refl, Bool, true, false, not, Option, none, some, List, [], ◌∷◌, if◌then◌else◌,
}
use redis_rate_limiter.Monitor.{Log, warning, info, run_once, monitor}

-- The messages take turns, starting with the one that fits the health before them.
abbrev pub Alternate : Bool → List Log → Type 0
Alternate healthy [] = Unit {0}
Alternate healthy (log ∷ logs) =
    (log ≡ (if healthy then warning else info)) × Alternate (not healthy) logs

-- The health after the messages.
abbrev pub health_after : Bool → List Log → Bool
health_after healthy [] = healthy
health_after healthy (log ∷ logs) = health_after (not healthy) logs

-- Whatever the checks give, exceptions included: the messages of the monitor alternate between
-- warning and info, starting with a warning if the backend was healthy, and the health it ends with is
-- the one that they tell.
monitor-Alternate :
    (checks : List (Option Bool)) (healthy : Bool)
    → Alternate healthy (monitor checks healthy).1
      × (health_after healthy (monitor checks healthy).1 ≡ (monitor checks healthy).0)
unfolding monitor run_once
monitor-Alternate [] healthy = (tt, refl)
monitor-Alternate (none ∷ checks) true =
    let (a, h) = monitor-Alternate checks false in ((refl, a), h)
monitor-Alternate (none ∷ checks) false = monitor-Alternate checks false
monitor-Alternate (some true ∷ checks) true = monitor-Alternate checks true
monitor-Alternate (some false ∷ checks) true =
    let (a, h) = monitor-Alternate checks false in ((refl, a), h)
monitor-Alternate (some true ∷ checks) false =
    let (a, h) = monitor-Alternate checks true in ((refl, a), h)
monitor-Alternate (some false ∷ checks) false = monitor-Alternate checks false
