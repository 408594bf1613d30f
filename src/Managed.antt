-- ===== src/Managed.antt =====
-- The managed class API of src/redis_rate_limiter/core/managed.py: the instance cache of one class,
-- the registry of configurations in Redis, and its version counters. An instance is named by where
-- it stands in the store, so that the cache and the callers share it.
pub mod Cache
pub mod Versions
pub mod Configure
use redis_rate_limiter.Prelude.{
  ℕ, suc, ◌+◌, Bool, true, false, not, ◌&&◌, ◌||◌, Option, none, some, List, [], ◌∷◌, leb,
  if◌then◌else◌, is_some,
}
use redis_rate_limiter.Prelude.Int.{pos}
use redis_rate_limiter.Prelude.Text.{Text, codes, same}
use redis_rate_limiter.Prelude.Decimal.{decimal, number_from}
use redis_rate_limiter.Redis.{Redis, count_of}
use redis_rate_limiter.Limiter.{Limiter, Arguments, Result, ok, err, new_limiter}
use redis_rate_limiter.Limiter.Config.{Overrides, build_persist_config, apply_config_overrides}

-- _REGISTRY_KEY and _VERSION_KEY
unfoldable pub registry_key : Text
registry_key = codes "rl:registry:configs"

unfoldable pub version_key : Text
version_key = codes "rl:registry:versions"

-- The exceptions of the class API.
pub data Error : Type 0 where
  already_exists not_found not_configured bad_config malformed : Error

pub data Outcome {ℓ} (A : Type ℓ) : Type ℓ where
  returned : A → Outcome A
  raised : Error → Outcome A

-- json.dumps of a configuration and json.loads of a stored one; `none` is JSONDecodeError or
-- TypeError.
pub record Json : Type 0 where
  pub dumps : Overrides → Text
  pub loads : Text → Option Overrides

-- The class-level state: `_redis_client` and the backend context are set by `configure`;
-- `_instances` maps identifiers to live instances. Instances replaced or not cached stay alive
-- for their holders, but are not reached from here.
pub record Registry : Type 0 where
  pub configured : Bool
  pub instances : List (Text × Limiter)

unfoldable pub find : Text → List (Text × Limiter) → Option Limiter
find id [] = none
find id ((j, l) ∷ rest) = if same id j then some l else find id rest

-- cls._instances[limiter_id] = instance
unfoldable pub cache : Text → Limiter → List (Text × Limiter) → List (Text × Limiter)
cache id l [] = (id, l) ∷ []
cache id l ((j, m) ∷ rest) = if same id j then (id, l) ∷ rest else (j, m) ∷ cache id l rest

-- _require_configured
unfoldable pub require_configured : Registry → Outcome (Unit {0})
require_configured r = if r.configured then returned tt else raised not_configured

-- What `cls(**config)` gets from a persisted configuration; a missing argument is a TypeError.
unfoldable pub arguments_from : Arguments → Text → Overrides → Option Arguments
arguments_from defaults id o = elim o.limit [
  | none ↦ none
  | some limit ↦ elim o.window_ms [
    | none ↦ none
    | some window_ms ↦ elim o.max_concurrency [
      | none ↦ none
      | some max_concurrency ↦ some (record defaults {
        limiter_id = id;
        limit = pos limit;
        window_ms = pos window_ms;
        max_concurrency = pos max_concurrency;
        max_age = elim o.max_age [ none ↦ defaults.max_age | some n ↦ pos n ];
        lease_duration = elim o.lease_duration [ none ↦ defaults.lease_duration | some n ↦ pos n ];
      })
    ]
  ]
]

-- The constructor, with its ValueError and the TypeError of a missing argument as one error.
unfoldable pub construct : Text → Option Arguments → Outcome Limiter
construct worker_id none = raised bad_config
construct worker_id (some a) = elim (new_limiter worker_id a) [
  | ok l ↦ returned l
  | err e ↦ raised bad_config
]

-- _parse_version, of a version that is there
unfoldable pub with_version : Option Text → Limiter → Limiter
with_version none l = l
with_version (some raw_version) l = record l { config_version = number_from 0 raw_version }

module _ (R : Redis) (J : Json) where
  open R use {Db, view, hset, hincrby}

  -- HGET key field
  abbrev pub hget : Text → Text → Db → Option Text
  hget key field db = (view db key).hash field

  -- _persist_config: HSET of the configuration, and HINCRBY by 1, whose reply is the new version.
  unfoldable pub persist_config : Limiter → Db → Db × Limiter
  persist_config l db =
      let stored = hset registry_key l.id (J.dumps (build_persist_config l)) db in
      let counted = hincrby version_key l.id stored in
      (counted, record l { config_version = suc (count_of (hget version_key l.id stored)) })

  -- create(limiter_id, persist=..., override=..., **config); `worker_id` is the uuid4 of the new
  -- instance.
  unfoldable pub create :
      Text → Text → Bool → Bool → Arguments → Registry → Db → Db × Registry × Outcome Limiter
  unfolding require_configured find cache construct persist_config
  create worker_id id persist override config r db = elim (require_configured r) [
    | raised e ↦ (db, r, raised e)
    | returned _ ↦
        if not override && is_some (find id r.instances)
        then (db, r, raised already_exists)
        else elim (construct worker_id (some (record config { limiter_id = id }))) [
          | raised e ↦ (db, r, raised e)
          | returned instance ↦
              let (db', kept) = if persist then persist_config instance db else (db, instance) in
              (db', record r { instances = cache id kept r.instances }, returned kept)
        ]
  ]

  -- The part of `get` after the lookup in Redis: parse, construct, take the version, cache.
  unfoldable pub hydrate :
      Text → Arguments → Text → Option Text → Registry → Db → Registry × Outcome Limiter
  unfolding cache construct arguments_from with_version
  hydrate worker_id defaults id none r db = (r, raised not_found)
  hydrate worker_id defaults id (some raw_config) r db = elim (J.loads raw_config) [
    | none ↦ (r, raised malformed)
    | some config ↦ elim (construct worker_id (arguments_from defaults id config)) [
      | raised e ↦ (r, raised e)
      | returned instance ↦
          let versioned = with_version (hget version_key id db) instance in
          (record r { instances = cache id versioned r.instances }, returned versioned)
    ]
  ]

  -- get(limiter_id)
  unfoldable pub get : Text → Arguments → Text → Registry → Db → Registry × Outcome Limiter
  unfolding find require_configured hydrate
  get worker_id defaults id r db = elim (find id r.instances) [
    | some l ↦ (r, returned l)
    | none ↦ elim (require_configured r) [
      | raised e ↦ (r, raised e)
      | returned _ ↦ hydrate worker_id defaults id (hget registry_key id db) r db
    ]
  ]

  -- update(limiter_id, **overrides), at the time `now`
  unfoldable pub update :
      ℕ → Text → Arguments → Text → Overrides → Registry → Db → Db × Registry × Outcome Limiter
  unfolding get cache persist_config
  update now worker_id defaults id overrides r db =
      let (r', found) = get worker_id defaults id r db in
      elim found [
        | raised e ↦ (db, r', raised e)
        | returned instance ↦
            let (db', kept) = persist_config (apply_config_overrides now overrides instance) db in
            (db', record r' { instances = cache id kept r'.instances }, returned kept)
      ]

  -- refresh_config after the version is known
  unfoldable pub refresh_from : ℕ → ℕ → Option Text → Limiter → Limiter × Bool
  refresh_from now remote_version none l = (l, false)
  refresh_from now remote_version (some raw_config) l =
      if leb remote_version l.config_version then (l, false) else elim (J.loads raw_config) [
        | none ↦ (l, false)
        | some config ↦
            (record (apply_config_overrides now config l) { config_version = remote_version }, true)
      ]

  -- refresh_config() on the two values it reads, the second of which is used only when there is a
  -- version.
  unfoldable pub refresh_read : ℕ → Option Text → Option Text → Limiter → Limiter × Bool
  unfolding refresh_from
  refresh_read now none config l = (l, false)
  refresh_read now (some raw_version) config l =
      refresh_from now (number_from 0 raw_version) config l

  -- refresh_config(): the instance, and whether it was changed
  unfoldable pub refresh_config : ℕ → Limiter → Db → Limiter × Bool
  unfolding refresh_read
  refresh_config now l db =
      refresh_read now (hget version_key l.id db) (hget registry_key l.id db) l
