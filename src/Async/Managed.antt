-- ===== src/Async/Managed.antt =====
-- AsyncManagedRateLimiter of src/redis_rate_limiter/core/managed.py. Instances are objects that the
-- cache and the callers share: `objects` maps a reference to the object's present state.
pub mod Instances
pub mod Agreement
pub mod Refresh
use redis_rate_limiter.Prelude.{
  ℕ, suc, ◌+◌, Bool, true, false, not, ◌&&◌, Option, none, some, List, [], ◌∷◌, leb, ◌==◌,
  if◌then◌else◌, is_some,
}
use redis_rate_limiter.Prelude.Text.{Text, same}
use redis_rate_limiter.Prelude.Decimal.{number_from}
use redis_rate_limiter.Redis.{Redis, count_of}
use redis_rate_limiter.Limiter.{Limiter, Arguments}
use redis_rate_limiter.Limiter.Config.{Overrides, build_persist_config, apply_config_overrides}
use redis_rate_limiter.Managed.{
  registry_key, version_key, Error, already_exists, not_found, not_configured, malformed, Outcome,
  returned, raised, Json, hget, arguments_from, construct, with_version,
}
use redis_rate_limiter.Async.{Co, done, step, ◌>>=◌}

pub record Managing (R : Redis) : Type 0 where
  pub db : R.Db
  pub configured : Bool
  pub objects : ℕ → Limiter
  -- the reference of the next object
  pub next : ℕ
  pub instances : List (Text × ℕ)

unfoldable pub find_ref : Text → List (Text × ℕ) → Option ℕ
find_ref id [] = none
find_ref id ((j, n) ∷ rest) = if same id j then some n else find_ref id rest

-- cls._instances[limiter_id] = instance
unfoldable pub cache_ref : Text → ℕ → List (Text × ℕ) → List (Text × ℕ)
cache_ref id n [] = (id, n) ∷ []
cache_ref id n ((j, k) ∷ rest) = if same id j then (id, n) ∷ rest else (j, k) ∷ cache_ref id n rest

abbrev pub set_object : ℕ → Limiter → (ℕ → Limiter) → ℕ → Limiter
set_object n l objects k = if n == k then l else objects k

module _ {R : Redis} where
  -- cls(...), when the constructor returns: a new object.
  unfoldable pub allocate : Outcome Limiter → Managing R → Managing R
  allocate (raised e) s = s
  allocate (returned l) s = record s { objects = set_object s.next l s.objects; next = suc s.next }

  -- HGET, awaited.
  unfoldable pub await_hget :
      {A : Type 0} → Text → Text → (Option Text → Co (Managing R) A) → Co (Managing R) A
  await_hget key field next = step (λ s. s) (λ s. next ((R.view s.db key).hash field))

  -- An assignment to attributes of the object.
  unfoldable pub assign :
      {A : Type 0} → ℕ → (Limiter → Limiter) → Co (Managing R) A → Co (Managing R) A
  assign n f next =
      step (λ s. record s { objects = set_object n (f (s.objects n)) s.objects }) (λ s. next)

  -- `await instance.start()`: scripts and background tasks, of which no key and no attribute here tells.
  unfoldable pub await_start : {A : Type 0} → Co (Managing R) A → Co (Managing R) A
  await_start next = step (λ s. s) (λ s. next)

  unfoldable pub cache_instance :
      Text → ℕ → Co (Managing R) (Outcome ℕ) → Co (Managing R) (Outcome ℕ)
  cache_instance id n next =
      step (λ s. record s { instances = cache_ref id n s.instances }) (λ s. next)

  module _ (J : Json) where
    -- _persist_config: the configuration is read before HSET is awaited.
    unfoldable pub persist_config_async :
        ℕ → Co (Managing R) (Outcome ℕ) → Co (Managing R) (Outcome ℕ)
    unfolding assign
    persist_config_async n next =
        step (λ s. s)
          (λ s.
            let id = (s.objects n).id in
            let config = J.dumps (build_persist_config (s.objects n)) in
            step (λ t. record t { db = R.hset registry_key id config t.db })
              (λ t.
                step (λ u. record u { db = R.hincrby version_key id u.db })
                  (λ u.
                    assign n
                      (λ l. record l {
                        config_version = suc (count_of ((R.view u.db version_key).hash id));
                      })
                      next)))

    -- create, from the new object on
    unfoldable pub finish_create : Bool → Text → ℕ → Co (Managing R) (Outcome ℕ)
    unfolding await_start cache_instance persist_config_async
    finish_create persist id n = await_start (
        cache_instance id n
          (if persist then persist_config_async n (done (returned n)) else done (returned n)))

    unfoldable pub constructed :
        (ℕ → Co (Managing R) (Outcome ℕ)) → ℕ → Outcome Limiter → Co (Managing R) (Outcome ℕ)
    constructed next n (raised e) = done (raised e)
    constructed next n (returned l) = next n

    unfoldable pub create_async :
        Text → Text → Bool → Bool → Arguments → Co (Managing R) (Outcome ℕ)
    unfolding find_ref allocate constructed finish_create construct
    create_async worker_id id persist override config =
        let made = construct worker_id (some (record config { limiter_id = id })) in
        step
          (λ s.
            if s.configured && not (not override && is_some (find_ref id s.instances))
            then allocate made s
            else s)
          (λ s.
            if not s.configured
            then done (raised not_configured)
            else if not override && is_some (find_ref id s.instances)
            then done (raised already_exists)
            else constructed (finish_create persist id) s.next made)

    -- get, from the new object on
    unfoldable pub finish_get : Text → ℕ → Co (Managing R) (Outcome ℕ)
    unfolding await_start await_hget assign cache_instance with_version
    finish_get id n = await_start (
        await_hget version_key id (λ raw_version.
          assign n (with_version raw_version) (cache_instance id n (done (returned n)))))

    -- get, from the parsed configuration on
    unfoldable pub hydrate_parsed :
        Text → Arguments → Text → Option Overrides → Co (Managing R) (Outcome ℕ)
    unfolding allocate constructed finish_get construct arguments_from
    hydrate_parsed worker_id defaults id none = done (raised malformed)
    hydrate_parsed worker_id defaults id (some config) =
        let made = construct worker_id (arguments_from defaults id config) in
        step (allocate made) (λ s. constructed (finish_get id) s.next made)

    -- get, after HGET of the configuration
    unfoldable pub hydrate_async :
        Text → Arguments → Text → Option Text → Co (Managing R) (Outcome ℕ)
    unfolding hydrate_parsed
    hydrate_async worker_id defaults id none = done (raised not_found)
    hydrate_async worker_id defaults id (some raw_config) =
        hydrate_parsed worker_id defaults id (J.loads raw_config)

    unfoldable pub lookup : Text → Arguments → Text → Bool → Option ℕ → Co (Managing R) (Outcome ℕ)
    unfolding await_hget hydrate_async
    lookup worker_id defaults id configured (some n) = done (returned n)
    lookup worker_id defaults id false none = done (raised not_configured)
    lookup worker_id defaults id true none =
        await_hget registry_key id (hydrate_async worker_id defaults id)

    unfoldable pub get_async : Text → Arguments → Text → Co (Managing R) (Outcome ℕ)
    unfolding find_ref lookup
    get_async worker_id defaults id =
        step (λ s. s) (λ s. lookup worker_id defaults id s.configured (find_ref id s.instances))

    unfoldable pub apply_update : ℕ → Overrides → Outcome ℕ → Co (Managing R) (Outcome ℕ)
    unfolding assign persist_config_async
    apply_update now overrides (raised e) = done (raised e)
    apply_update now overrides (returned n) =
        assign n (apply_config_overrides now overrides) (persist_config_async n (done (returned n)))

    unfoldable pub update_async :
        ℕ → Text → Arguments → Text → Overrides → Co (Managing R) (Outcome ℕ)
    unfolding get_async apply_update ◌>>=◌
    update_async now worker_id defaults id overrides =
        get_async worker_id defaults id >>= apply_update now overrides
