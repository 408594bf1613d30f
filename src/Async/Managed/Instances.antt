-- ===== src/Async/Managed/Instances.antt =====
-- Whether a process holds one instance for each identifier.
use redis_rate_limiter.Prelude.{
  ℕ, suc, ◌≡◌, refl, ap, ◌∙◌, true, none, some, List, [], ◌∷◌, Bool-cases, inl, inr,
}
use redis_rate_limiter.Prelude.Text.{Text, same, same_refl}
use redis_rate_limiter.Redis.{Redis}
use redis_rate_limiter.Limiter.{Limiter, Arguments}
use redis_rate_limiter.Limiter.Config.{Overrides}
use redis_rate_limiter.Managed.{registry_key, returned, Json, arguments_from, construct}
use redis_rate_limiter.Async.{done, step, resume, resume_at, interleave}
use redis_rate_limiter.Async.Managed.{
  Managing, find_ref, cache_ref, allocate, await_hget, assign, await_start, cache_instance,
  constructed, finish_get, hydrate_parsed, hydrate_async, lookup, get_async,
}

find_ref-cache_ref :
    (id : Text) (n : ℕ) (instances : List (Text × ℕ))
    → find_ref id (cache_ref id n instances) ≡ some n
unfolding find_ref cache_ref
find_ref-cache_ref id n [] = rw same_refl refl
find_ref-cache_ref id n ((j, k) ∷ rest) = elim (Bool-cases (same id j)) [
  | inl here ↦ rw (here, same_refl) refl
  | inr past ↦ rw (past, past) (find_ref-cache_ref id n rest)
]

module _ (R : Redis) (J : Json) (id : Text) (defaults : Arguments) where
  -- The stored configuration is accepted.
  hydrate_async-accepted :
      (w raw_config : Text) (config : Overrides) (l : Limiter)
      → J.loads raw_config ≡ some config
      → construct w (arguments_from defaults id config) ≡ returned l
      → hydrate_async {R = R} J w defaults id (some raw_config)
        ≡ step (allocate (returned l)) (λ s. finish_get J id s.next)
  unfolding hydrate_async hydrate_parsed constructed
  hydrate_async-accepted w raw_config config l j k =
      ap (hydrate_parsed {R = R} J w defaults id) j
      ∙ ap
          (λ made.
            step (allocate made) (λ (s : Managing R). constructed J (finish_get J id) s.next made))
          k

  -- Two calls of get for an identifier that is not cached, whose configuration is in Redis and is
  -- accepted: when their steps alternate, they return two different objects, and the cache keeps the
  -- second one alone.
  pub interleave-get_async :
      (w w' : Text) (s : Managing R) (raw_config : Text) (config : Overrides) (l l' : Limiter)
      → s.configured ≡ true
      → find_ref id s.instances ≡ none
      → (R.view s.db registry_key).hash id ≡ some raw_config
      → J.loads raw_config ≡ some config
      → construct w (arguments_from defaults id config) ≡ returned l
      → construct w' (arguments_from defaults id config) ≡ returned l'
      → let (t, calls) =
          interleave
            (0 ∷ 1 ∷ 0 ∷ 1 ∷ 0 ∷ 1 ∷ 0 ∷ 1 ∷ 0 ∷ 1 ∷ 0 ∷ 1 ∷ 0 ∷ 1 ∷ [])
            (get_async J w defaults id ∷ get_async J w' defaults id ∷ [])
            s in
        (calls ≡ done (returned s.next) ∷ done (returned (suc s.next)) ∷ [])
        × (find_ref id t.instances ≡ some (suc s.next))
  unfolding interleave resume_at resume get_async lookup await_hget allocate finish_get await_start
      assign cache_instance
  interleave-get_async w w' s raw_config config l l' c f h j k k' =
      rw
        (
          c,
          f,
          h,
          hydrate_async-accepted w raw_config config l j k,
          hydrate_async-accepted w' raw_config config l' j k',
        )
        (refl, find_ref-cache_ref id (suc s.next) _)
