-- ===== src/Managed/Versions.antt =====
-- How a new configuration reaches the other processes: `_persist_config` and `refresh_config` of
-- src/redis_rate_limiter/core/managed.py.
use redis_rate_limiter.Prelude.{
  ℕ, suc, ◌<◌, ◌≡◌, refl, sym, ap, ◌∙◌, subst, Bool, true, false, Option, some, arith, ◌⊎◌, leb,
}
use redis_rate_limiter.Prelude.Text.{Text, same, same_refl}
use redis_rate_limiter.Prelude.Decimal.{decimal, number_from, number-decimal}
use redis_rate_limiter.Redis.{Redis, count_of}
use redis_rate_limiter.Limiter.{Limiter}
use redis_rate_limiter.Limiter.Config.{build_persist_config, apply_config_overrides, apply-build}
use redis_rate_limiter.Managed.{
  Json, persist_config, hget, registry_key, version_key, refresh_config, refresh_from, refresh_read,
}

keys_apart : same version_key registry_key ≡ false
unfolding version_key registry_key
keys_apart = refl

keys_apart' : same registry_key version_key ≡ false
unfolding version_key registry_key
keys_apart' = refl

module _ (R : Redis) where
  open R use {Db, view, hset, hincrby}

  hset-here : (k f v : Text) (db : Db) → (view (hset k f v db) k).hash f ≡ some v
  hset-here k f v db = rw (R.view-hset k f v db k, same_refl k, same_refl f) refl

  hset-apart : (k f v j : Text) (db : Db) → same k j ≡ false → view (hset k f v db) j ≡ view db j
  hset-apart k f v j db h = rw (R.view-hset k f v db j, h) refl

  hincrby-here :
      (k f : Text) (db : Db)
      → (view (hincrby k f db) k).hash f ≡ some (decimal (suc (count_of ((view db k).hash f))))
  hincrby-here k f db = rw (R.view-hincrby k f db k, same_refl k, same_refl f) refl

  hincrby-apart : (k f j : Text) (db : Db) → same k j ≡ false → view (hincrby k f db) j ≡ view db j
  hincrby-apart k f j db h = rw (R.view-hincrby k f db j, h) refl

module _ (R : Redis) (J : Json) where
  refresh_found :
      (now : ℕ) (m : Limiter) (db : R.Db) (raw : Text) (config : Option Text)
      → hget R J version_key m.id db ≡ some raw
      → hget R J registry_key m.id db ≡ config
      → refresh_config R J now m db ≡ refresh_from R J now (number_from 0 raw) config m
  unfolding refresh_config refresh_read
  refresh_found now m db raw config h c =
      ap (λ v. refresh_read R J now v (hget R J registry_key m.id db) m) h
      ∙ ap (λ c. refresh_from R J now (number_from 0 raw) c m) c

module _ (R : Redis) (J : Json) (l : Limiter) (db : R.Db) where
  abbrev pub persisted : R.Db
  persisted = (persist_config R J l db).0

  abbrev pub version : ℕ
  version = (persist_config R J l db).1.config_version

  persisted-config :
      (R.view persisted registry_key).hash l.id ≡ some (J.dumps (build_persist_config l))
  unfolding persist_config
  persisted-config =
      ap (λ v. v.hash l.id) (hincrby-apart R version_key l.id registry_key _ keys_apart)
      ∙ hset-here R registry_key l.id _ db

  persisted-version : (R.view persisted version_key).hash l.id ≡ some (decimal version)
  unfolding persist_config
  persisted-version = hincrby-here R version_key l.id _

  -- The version counter grows by one.
  persist_config-version : version ≡ suc (count_of ((R.view db version_key).hash l.id))
  unfolding persist_config
  persist_config-version =
      ap (λ v. suc (count_of (v.hash l.id)))
        (hset-apart R registry_key l.id _ version_key db keys_apart')

  refreshed :
      (now : ℕ) (m : Limiter)
      → m.id ≡ l.id
      → refresh_config R J now m persisted
        ≡ refresh_from R J now version (some (J.dumps (build_persist_config l))) m
  refreshed now m named =
      refresh_found R J now m persisted (decimal version) _
        (ap (λ id. hget R J version_key id persisted) named ∙ persisted-version)
        (ap (λ id. hget R J registry_key id persisted) named ∙ persisted-config)
      ∙ ap (λ n. refresh_from R J now n (some (J.dumps (build_persist_config l))) m)
          (number-decimal version)

  -- The instance `m` with the configuration and the version of `l`.
  abbrev taken : ℕ → Limiter → Limiter
  taken now m = record (apply_config_overrides now (build_persist_config l) m) {
    config_version = version;
  }

  taken-build :
      (now : ℕ) (m : Limiter) → build_persist_config (taken now m) ≡ build_persist_config l
  unfolding build_persist_config
  taken-build now m = apply-build now l m

  taken-id : (now : ℕ) (m : Limiter) → (taken now m).id ≡ m.id
  unfolding apply_config_overrides
  taken-id now m = ground arith

  taken_over :
      (now : ℕ) (m : Limiter)
      → leb version m.config_version ≡ false
      → J.loads (J.dumps (build_persist_config l)) ≡ some (build_persist_config l)
      → refresh_from R J now version (some (J.dumps (build_persist_config l))) m
        ≡ (taken now m, true)
  unfolding refresh_from
  taken_over now m behind read = rw (behind, read) refl

  kept :
      (now : ℕ) (m : Limiter)
      → leb version m.config_version ≡ true
      → refresh_from R J now version (some (J.dumps (build_persist_config l))) m ≡ (m, false)
  unfolding refresh_from
  kept now m ahead = rw ahead refl

  -- What one process persists, an instance of that name with an older version takes over when it
  -- refreshes, if the text of the configuration reads back: the refresh reports a change, the instance
  -- would persist the same configuration, has the new version, and the next refresh changes nothing.
  pub refresh_config-persist :
      (now later : ℕ) (m : Limiter)
      → m.id ≡ l.id
      → m.config_version < version
      → J.loads (J.dumps (build_persist_config l)) ≡ some (build_persist_config l)
      → ((refresh_config R J now m persisted).1 ≡ true)
        × (build_persist_config (refresh_config R J now m persisted).0 ≡ build_persist_config l)
        × ((refresh_config R J now m persisted).0.config_version ≡ version)
        × (refresh_config R J later (refresh_config R J now m persisted).0 persisted
            ≡ ((refresh_config R J now m persisted).0, false))
  refresh_config-persist now later m named behind read =
      subst
        (λ (r : Limiter × Bool).
          (r.1 ≡ true)
          × (build_persist_config r.0 ≡ build_persist_config l)
          × (r.0.config_version ≡ version)
          × (refresh_config R J later r.0 persisted ≡ (r.0, false)))
        (sym (refreshed now m named ∙ taken_over now m (ground arith) read))
        (
          refl,
          taken-build now m,
          refl,
          refreshed later (taken now m) (taken-id now m ∙ named)
              ∙ kept later (taken now m) (ground arith),
        )

module _ (R : Redis) (J : Json) where
  -- A refresh never lowers the version of an instance; when it reports no change there is none, and
  -- when it reports one the version has grown, whatever Redis holds.
  refresh_config_version :
      (now : ℕ) (l : Limiter) (db : R.Db)
      → (((refresh_config R J now l db).1 ≡ false) × ((refresh_config R J now l db).0 ≡ l))
        ⊎ (((refresh_config R J now l db).1 ≡ true)
            × (l.config_version < (refresh_config R J now l db).0.config_version))
  unfolding refresh_config refresh_read refresh_from apply_config_overrides
  refresh_config_version now l db = ground arith
