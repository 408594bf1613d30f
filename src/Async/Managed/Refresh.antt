-- ===== src/Async/Managed/Refresh.antt =====
-- `refresh_config` of AsyncManagedRateLimiter (src/redis_rate_limiter/core/managed.py).
use redis_rate_limiter.Prelude.{
  ℕ, ◌≡◌, refl, sym, subst, Bool, true, false, Option, none, some, leb, arith, Option-cases, inl,
  inr, if◌then◌else◌, ◌==◌,
}
use redis_rate_limiter.Prelude.Text.{Text}
use redis_rate_limiter.Prelude.Decimal.{number_from}
use redis_rate_limiter.Redis.{Redis}
use redis_rate_limiter.Limiter.{Limiter}
use redis_rate_limiter.Limiter.Config.{Overrides, apply_config_overrides}
use redis_rate_limiter.Managed.{
  registry_key, version_key, Json, refresh_from, refresh_read, refresh_config,
}
use redis_rate_limiter.Async.{Co, done, step, complete}
use redis_rate_limiter.Async.Managed.{Managing, await_hget, assign}

module _ {R : Redis} (J : Json) (now n : ℕ) where
  -- The parsed configuration, of a newer version.
  unfoldable pub take_over : ℕ → Option Overrides → Co (Managing R) Bool
  unfolding assign
  take_over remote_version none = done false
  take_over remote_version (some config) =
      assign n
        (λ l. record (apply_config_overrides now config l) { config_version = remote_version })
        (done true)

  unfoldable pub after_config : ℕ → Option Text → Co (Managing R) Bool
  unfolding take_over
  after_config remote_version none = done false
  after_config remote_version (some raw_config) = take_over remote_version (J.loads raw_config)

  unfoldable pub after_version : Text → Option Text → Co (Managing R) Bool
  unfolding await_hget after_config
  after_version id none = done false
  after_version id (some raw_version) =
      let remote_version = number_from 0 raw_version in
      step (λ s. s)
        (λ s.
          if leb remote_version (s.objects n).config_version
          then done false
          else await_hget registry_key id (after_config remote_version))

  unfoldable pub refresh_config_async : Co (Managing R) Bool
  unfolding await_hget after_version
  refresh_config_async =
      step (λ s. s) (λ s. let id = (s.objects n).id in await_hget version_key id (after_version id))

module _ (R : Redis) (J : Json) (now n : ℕ) where
  -- The object is as the synchronous refresh leaves it, and so is the reply; nothing else has changed.
  abbrev Refreshed : Managing R → Managing R × Bool → Limiter × Bool → Type 0
  Refreshed s (t, b) (l, c) =
      (t.objects n ≡ l)
      × (b ≡ c)
      × ((k : ℕ) → (n == k) ≡ false → t.objects k ≡ s.objects k)
      × (t.db ≡ s.db)
      × (t.instances ≡ s.instances)

  unchanged : (s : Managing R) → Refreshed s (s, false) (s.objects n, false)
  unchanged s = (refl, refl, λ k e. refl, refl, refl)

  take_over-Refreshed :
      (remote : ℕ) (o : Option Overrides) (s : Managing R)
      → Refreshed s (complete (take_over J now n remote o) s) (elim o as (λ _. Limiter × Bool) [
        | none ↦ (s.objects n, false)
        | some config ↦ (
          record (apply_config_overrides now config (s.objects n)) { config_version = remote },
          true,
        )
      ])
  unfolding complete take_over assign
  take_over-Refreshed remote none s = unchanged s
  take_over-Refreshed remote (some config) s = (ground arith, refl, λ k e. rw e refl, refl, refl)

  -- After HGET of the configuration, at a version that is newer or (`stale`) is not.
  checked-Refreshed :
      (stale : Bool) (remote : ℕ) (id : Text) (o : Option Text) (s : Managing R)
      → (R.view s.db registry_key).hash id ≡ o
      → Refreshed s
          (complete
            (if stale then done false else await_hget registry_key id (after_config J now n remote))
            s)
          (elim o as (λ _. Limiter × Bool) [
            | none ↦ (s.objects n, false)
            | some raw_config ↦
                if◌then◌else◌ {0} {A = Limiter × Bool} stale
                  (s.objects n, false)
                  (elim (J.loads raw_config) as (λ _. Limiter × Bool) [
                    | none ↦ (s.objects n, false)
                    | some config ↦ (
                      record (apply_config_overrides now config (s.objects n)) {
                        config_version = remote;
                      },
                      true,
                    )
                  ])
          ])
  unfolding complete await_hget after_config
  checked-Refreshed true remote id none s e = unchanged s
  checked-Refreshed true remote id (some raw_config) s e = unchanged s
  checked-Refreshed false remote id none s e =
      subst (λ q. Refreshed s (complete (after_config J now n remote q) s) (s.objects n, false))
        (sym e) (unchanged s)
  checked-Refreshed false remote id (some raw_config) s e =
      subst
        (λ q.
          Refreshed s (complete (after_config J now n remote q) s)
            (elim (J.loads raw_config) as (λ _. Limiter × Bool) [
              | none ↦ (s.objects n, false)
              | some config ↦ (
                record (apply_config_overrides now config (s.objects n)) {
                  config_version = remote;
                },
                true,
              )
            ]))
        (sym e) (take_over-Refreshed remote (J.loads raw_config) s)

  version-Refreshed :
      (id : Text) (o : Option Text) (s : Managing R)
      → Refreshed s
          (complete (after_version J now n id o) s)
          (refresh_read R J now o ((R.view s.db registry_key).hash id) (s.objects n))
  unfolding complete after_version refresh_read refresh_from
  version-Refreshed id none s = unchanged s
  version-Refreshed id (some raw_version) s =
      elim (Option-cases ((R.view s.db registry_key).hash id)) [
        | inl missing ↦ rw missing (
            checked-Refreshed (leb (number_from 0 raw_version) (s.objects n).config_version)
              (number_from 0 raw_version) id none s missing)
        | inr (raw_config, there) ↦ rw there (
            checked-Refreshed (leb (number_from 0 raw_version) (s.objects n).config_version)
              (number_from 0 raw_version) id (some raw_config) s there)
      ]

  -- refresh_config of the asynchronous class, when no other coroutine runs, leaves the object and
  -- replies as the synchronous one does, and changes no other object, no key and no cache entry.
  complete-refresh_config_async :
      (s : Managing R)
      → Refreshed s
          (complete (refresh_config_async J now n) s)
          (refresh_config R J now (s.objects n) s.db)
  unfolding complete refresh_config_async refresh_config await_hget
  complete-refresh_config_async s =
      version-Refreshed (s.objects n).id ((R.view s.db version_key).hash (s.objects n).id) s
