-- ===== src/Managed/Cache.antt =====
-- The instance cache of a managed class: `create` and `get` of
-- src/redis_rate_limiter/core/managed.py.
use redis_rate_limiter.Prelude.{
  ◌≡◌, refl, sym, ap, ◌∙◌, Bool, true, false, none, some, List, [], ◌∷◌, arith, Bool-cases, inl,
  inr, if◌then◌else◌,
}
use redis_rate_limiter.Prelude.Text.{Text, same, same_refl, same→eq}
use redis_rate_limiter.Redis.{Redis}
use redis_rate_limiter.Limiter.{Limiter, Arguments}
use redis_rate_limiter.Managed.{
  Json, Registry, find, cache, create, get, hydrate, registry_key, not_found, require_configured,
  returned, raised, already_exists,
}

find-cache :
    (id : Text) (l : Limiter) (instances : List (Text × Limiter))
    → find id (cache id l instances) ≡ some l
unfolding find cache
find-cache id l [] = rw (same_refl id) refl
find-cache id l ((j, m) ∷ rest) = elim (Bool-cases (same id j)) [
  | inl e ↦ rw (e, same_refl id) refl
  | inr e ↦ rw (e, e) (find-cache id l rest)
]

find-cache_ne :
    (id j : Text) (l : Limiter) (instances : List (Text × Limiter))
    → same j id ≡ false
    → find j (cache id l instances) ≡ find j instances
unfolding find cache
find-cache_ne id j l [] n = rw n refl
find-cache_ne id j l ((k, m) ∷ rest) n = elim (Bool-cases (same id k)) [
  | inl e ↦ rw (e, n, (ap (same j) (sym (same→eq id k e)) ∙ n)) refl
  | inr e ↦ rw e (ap (λ o. if same j k then some m else o) (find-cache_ne id j l rest n))
]

module _ (R : Redis) (J : Json) where
  -- `create` without `override` leaves a live instance of that name, and everything else, alone.
  create_taken :
      (worker_id id : Text) (persist : Bool) (config : Arguments) (r : Registry) (db : R.Db)
      (l : Limiter)
      → r.configured ≡ true
      → find id r.instances ≡ some l
      → create R J worker_id id persist false config r db ≡ (db, r, raised already_exists)
  unfolding create require_configured
  create_taken worker_id id persist config r db l ready found = rw (ready, found) refl

  find-create :
      (worker_id id : Text) (persist override : Bool) (config : Arguments) (r : Registry)
      (db : R.Db) (l : Limiter)
      → (create R J worker_id id persist override config r db).2 ≡ returned l
      → find id (create R J worker_id id persist override config r db).1.instances ≡ some l
  unfolding create
  find-create worker_id id persist override config r db l h = grind (arith, find-cache)

  get-found :
      (worker_id id : Text) (defaults : Arguments) (r : Registry) (db : R.Db) (l : Limiter)
      → find id r.instances ≡ some l
      → get R J worker_id defaults id r db ≡ (r, returned l)
  unfolding get
  get-found worker_id id defaults r db l found = ground arith

  -- When `create` returns an instance, each later `get` of its name in the process returns the same
  -- one and changes nothing, whatever Redis holds by then.
  get-create :
      (worker_id id : Text) (persist override : Bool) (config : Arguments) (r : Registry)
      (db : R.Db) (l : Limiter)
      → (create R J worker_id id persist override config r db).2 ≡ returned l
      → (other : Text) (defaults : Arguments) (later : R.Db)
      → get R J other defaults id (create R J worker_id id persist override config r db).1 later
        ≡ ((create R J worker_id id persist override config r db).1, returned l)
  get-create worker_id id persist override config r db l h other defaults later =
      get-found other id defaults _ later l
        (find-create worker_id id persist override config r db l h)

  -- A name that neither the process nor Redis knows is an error, and nothing changes.
  get_unknown :
      (worker_id id : Text) (defaults : Arguments) (r : Registry) (db : R.Db)
      → r.configured ≡ true
      → find id r.instances ≡ none
      → (R.view db registry_key).hash id ≡ none
      → get R J worker_id defaults id r db ≡ (r, raised not_found)
  unfolding get require_configured hydrate
  get_unknown worker_id id defaults r db ready new unknown = ground arith
