-- ===== src/Examples/Managed.antt =====
-- The registry of configurations, with one limiter.
use redis_rate_limiter.Prelude.{◌≡◌, refl, arith, true, false, some, []}
use redis_rate_limiter.Prelude.Text.{codes}
use redis_rate_limiter.Redis.Memory.{empty, memory}
use redis_rate_limiter.Limiter.{Limiter}
use redis_rate_limiter.Limiter.Config.{build_persist_config}
use redis_rate_limiter.Managed.{Json, Registry, persist_config, refresh_config}
use redis_rate_limiter.Managed.Versions.{persisted, version, refresh_config-persist}
use redis_rate_limiter.Examples.Data.{limiter}

abbrev faster : Limiter
faster = record limiter { limit = 9 }

-- A codec that knows one configuration.
abbrev json : Json
json = record { dumps = λ o. codes "{}"; loads = λ t. some (build_persist_config faster) }

refresh_config-persist_example :
    let seen = refresh_config memory json 7 limiter (persisted memory json faster empty) in
    (seen.1 ≡ true)
    × (build_persist_config seen.0 ≡ build_persist_config faster)
    × (seen.0.config_version ≡ version memory json faster empty)
    × (refresh_config memory json 9 seen.0 (persisted memory json faster empty) ≡ (seen.0, false))
unfolding persist_config
refresh_config-persist_example =
    refresh_config-persist memory json faster empty 7 9 limiter refl (omega arith) refl

abbrev registry : Registry
registry = record { configured = true; instances = [] }
