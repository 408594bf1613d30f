-- ===== src/Async/Managed/Agreement.antt =====
-- A call of get that nothing interrupts does what the synchronous one does.
use redis_rate_limiter.Prelude.{
  ℕ, ◌≡◌, ◌<◌, refl, ap, ◌∙◌, sym, subst, Bool, true, false, Option, none, some, List, [], ◌∷◌,
  arith, Bool-cases, inl, inr, if◌then◌else◌,
}
use redis_rate_limiter.Prelude.Text.{Text, same}
use redis_rate_limiter.Redis.{Redis}
use redis_rate_limiter.Limiter.{Limiter, Arguments}
use redis_rate_limiter.Limiter.Config.{Overrides}
use redis_rate_limiter.Managed.{
  registry_key, version_key, Outcome, returned, raised, Json, Registry, find, cache, get, hydrate,
  hget, arguments_from, construct, with_version, require_configured, malformed, not_configured,
}
use redis_rate_limiter.Async.{Co, step, complete}
use redis_rate_limiter.Async.Managed.{
  Managing, find_ref, cache_ref, set_object, allocate, await_hget, assign, await_start,
  cache_instance, constructed, finish_get, hydrate_parsed, hydrate_async, lookup, get_async,
}

-- The cache, with the present state of each object in place of its reference.
abbrev pub seen : (ℕ → Limiter) → List (Text × ℕ) → List (Text × Limiter)
seen objects [] = []
seen objects ((id, n) ∷ rest) = (id, objects n) ∷ seen objects rest

abbrev pub AllBelow : ℕ → List (Text × ℕ) → Type 0
AllBelow next [] = Unit {0}
AllBelow next ((id, n) ∷ rest) = (n < next) × AllBelow next rest

abbrev pub deref : (ℕ → Limiter) → Outcome ℕ → Outcome Limiter
deref objects (returned n) = returned (objects n)
deref objects (raised e) = raised e

abbrev pub registry_of : {R : Redis} → Managing R → Registry
registry_of s = record { configured = s.configured; instances = seen s.objects s.instances }

find-seen :
    (id : Text) (objects : ℕ → Limiter) (instances : List (Text × ℕ))
    → find id (seen objects instances)
      ≡ elim (find_ref id instances) [ none ↦ none | some n ↦ some (objects n) ]
unfolding find find_ref
find-seen id objects [] = refl
find-seen id objects ((j, n) ∷ rest) = elim (Bool-cases (same id j)) [
  | inl here ↦ rw here refl
  | inr past ↦ rw past (find-seen id objects rest)
]

seen-cache_ref :
    (id : Text) (n : ℕ) (objects : ℕ → Limiter) (instances : List (Text × ℕ))
    → seen objects (cache_ref id n instances) ≡ cache id (objects n) (seen objects instances)
unfolding cache cache_ref
seen-cache_ref id n objects [] = refl
seen-cache_ref id n objects ((j, k) ∷ rest) = elim (Bool-cases (same id j)) [
  | inl here ↦ rw here refl
  | inr past ↦ rw past (ap (λ r. (j, objects k) ∷ r) (seen-cache_ref id n objects rest))
]

set_object-other :
    (n k : ℕ) (l : Limiter) (objects : ℕ → Limiter) → k < n → set_object n l objects k ≡ objects k
set_object-other n k l objects h = ground arith

set_object-same : (n : ℕ) (l : Limiter) (objects : ℕ → Limiter) → set_object n l objects n ≡ l
set_object-same n l objects = ground arith

seen-set_object :
    (n : ℕ) (l : Limiter) (objects : ℕ → Limiter) (instances : List (Text × ℕ))
    → AllBelow n instances
    → seen (set_object n l objects) instances ≡ seen objects instances
seen-set_object n l objects [] h = refl
seen-set_object n l objects ((j, k) ∷ rest) (below, others) =
    rw (set_object-other n k l objects below, seen-set_object n l objects rest others) refl

-- The cache of a new object, which was assigned to once.
seen-stored :
    (id : Text) (n : ℕ) (v l : Limiter) (objects : ℕ → Limiter) (instances : List (Text × ℕ))
    → AllBelow n instances
    → seen (set_object n v (set_object n l objects)) (cache_ref id n instances)
      ≡ cache id v (seen objects instances)
seen-stored id n v l objects instances h =
    seen-cache_ref id n (set_object n v (set_object n l objects)) instances
    ∙ ap (λ (o : Limiter). cache id o (seen (set_object n v (set_object n l objects)) instances))
        (set_object-same n v (set_object n l objects))
    ∙ ap (cache id v) (
        seen-set_object n v (set_object n l objects) instances h
        ∙ seen-set_object n l objects instances h)

module _ (R : Redis) (J : Json) (w id : Text) (defaults : Arguments) where
  -- The call ends as the synchronous one does, in the registry and in what it returns.
  abbrev Agrees : Managing R → Co (Managing R) (Outcome ℕ) → Registry × Outcome Limiter → Type 0
  Agrees s call r =
      let (t, o) = complete call s in (registry_of t ≡ r.0) × (deref t.objects o ≡ r.1)

  made-Agrees :
      (made : Outcome Limiter) (s : Managing R)
      → AllBelow s.next s.instances
      → Agrees s
          (step (allocate made) (λ t. constructed J (finish_get J id) t.next made))
          (elim made as (λ _. Registry × Outcome Limiter) [
            | raised e ↦ (registry_of s, raised e)
            | returned instance ↦
                let versioned = with_version (hget R J version_key id s.db) instance in
                (
                  record (registry_of s) {
                    instances = cache id versioned (registry_of s).instances;
                  },
                  returned versioned,
                )
          ])
  unfolding complete allocate constructed finish_get await_start await_hget assign cache_instance
  made-Agrees (raised e) s h = (refl, refl)
  made-Agrees (returned l) s h =
      let raw_version = (R.view s.db version_key).hash id in
      let fresh = set_object s.next l s.objects in
      let kept = with_version raw_version (fresh s.next) in
      let same_object = ap (with_version raw_version) (set_object-same s.next l s.objects) in
      (
        ap (λ instances. record { configured = s.configured; instances = instances })
            (seen-stored id s.next kept l s.objects s.instances h
              ∙ ap (λ (o : Limiter). cache id o (seen s.objects s.instances)) same_object),
        ap returned (set_object-same s.next kept fresh ∙ same_object),
      )

  parsed-Agrees :
      (o : Option Overrides) (s : Managing R)
      → AllBelow s.next s.instances
      → Agrees s (hydrate_parsed J w defaults id o) (elim o as (λ _. Registry × Outcome Limiter) [
        | none ↦ (registry_of s, raised malformed)
        | some config ↦
            elim (construct w (arguments_from defaults id config))
              as (λ _. Registry × Outcome Limiter) [
                | raised e ↦ (registry_of s, raised e)
                | returned instance ↦
                    let versioned = with_version (hget R J version_key id s.db) instance in
                    (
                      record (registry_of s) {
                        instances = cache id versioned (registry_of s).instances;
                      },
                      returned versioned,
                    )
              ]
      ])
  unfolding complete hydrate_parsed
  parsed-Agrees none s h = (refl, refl)
  parsed-Agrees (some config) s h =
      made-Agrees (construct w (arguments_from defaults id config)) s h

  hydrate-Agrees :
      (raw_config : Option Text) (s : Managing R)
      → AllBelow s.next s.instances
      → Agrees s
          (hydrate_async J w defaults id raw_config)
          (hydrate R J w defaults id raw_config (registry_of s) s.db)
  unfolding complete hydrate hydrate_async
  hydrate-Agrees none s h = (refl, refl)
  hydrate-Agrees (some raw_config) s h = parsed-Agrees (J.loads raw_config) s h

  -- What the synchronous get does after its lookup in the cache.
  abbrev found : Managing R → Bool → Option Limiter → Registry × Outcome Limiter
  found s configured o = elim o as (λ _. Registry × Outcome Limiter) [
    | some l ↦ (registry_of s, returned l)
    | none ↦
        elim (if◌then◌else◌ {0} {A = Outcome (Unit {0})} configured (returned tt)
            (raised not_configured))
          as (λ _. Registry × Outcome Limiter) [
            | raised e ↦ (registry_of s, raised e)
            | returned _ ↦
                hydrate R J w defaults id (hget R J registry_key id s.db) (registry_of s) s.db
          ]
  ]

  lookup-Agrees :
      (configured : Bool) (o : Option ℕ) (s : Managing R)
      → AllBelow s.next s.instances
      → Agrees s
          (lookup J w defaults id configured o)
          (found s configured (elim o [ none ↦ none | some n ↦ some (s.objects n) ]))
  unfolding complete lookup await_hget
  lookup-Agrees configured (some n) s h = (refl, refl)
  lookup-Agrees false none s h = (refl, refl)
  lookup-Agrees true none s h = hydrate-Agrees ((R.view s.db registry_key).hash id) s h

  -- get of the asynchronous class API, when no other coroutine runs: the cache it leaves, with each
  -- instance in its present state, and what it returns or raises are those of the synchronous one, if
  -- every cached reference is that of an object.
  pub complete-get_async :
      (s : Managing R)
      → AllBelow s.next s.instances
      → let (t, o) = complete (get_async J w defaults id) s in
        let (r, o') = get R J w defaults id (registry_of s) s.db in
        (registry_of t ≡ r) × (deref t.objects o ≡ o')
  unfolding complete get_async get require_configured
  complete-get_async s h =
      subst
        (λ f.
          Agrees s (lookup J w defaults id s.configured (find_ref id s.instances))
            (found s s.configured f))
        (sym (find-seen id s.objects s.instances))
        (lookup-Agrees s.configured (find_ref id s.instances) s h)
