-- ===== src/Managed/Configure.antt =====
-- The class-level state of ManagedRateLimiterMixin (src/redis_rate_limiter/core/managed.py): the client and
-- the backend's context, with the hooks by which each backend (backends/*/limiter.py) keeps its context.
-- Objects are numbered.
use redis_rate_limiter.Prelude.{
  ℕ, ◌≡◌, Bool, true, false, not, ◌||◌, Option, none, some, List, [], ◌∷◌, ◌++◌, ◌==◌,
  if◌then◌else◌, is_some, arith,
}
use redis_rate_limiter.Prelude.Text.{Text, codes, same}
use redis_rate_limiter.Limiter.{Limiter}

-- What a class keeps. `own_context` is `none` where the class has no such attribute of its own, and
-- Python finds its parent's.
pub record ClassState : Type 0 where
  pub sentinel : ℕ
  pub redis_client : Option ℕ
  pub own_context : Option (Option ℕ)
  pub instances : List (Text × Limiter)

-- __init_subclass__, for a class whose body sets no context
unfoldable pub init_subclass : ℕ → ClassState
init_subclass sentinel = record {
  sentinel = sentinel;
  redis_client = none;
  own_context = none;
  instances = [];
}

-- backend_context.get(keyword)
unfoldable pub keyword_of : Text → List (Text × ℕ) → Option ℕ
keyword_of key [] = none
keyword_of key ((name, value) ∷ rest) = if same key name then some value else keyword_of key rest

-- A call that returns, or raises RuntimeError with a text.
pub data Called : Type 0 where
  returned : Called
  runtime_error : Text → Called

-- The text of the RuntimeErrors about a class that is not configured.
unfoldable pub not_configured_text : Text → Text
not_configured_text hint = hint ++ codes " must be called before create() or get()."

-- The class's own attribute, or its parent's.
abbrev pub context_of : Option ℕ → ClassState → Option ℕ
context_of inherited s = elim s.own_context [ none ↦ inherited | some context ↦ context ]

-- The class methods of a backend; `inherited` is the context of the parent class.
pub record Hooks : Type 0 where
  pub configure_backend : List (Text × ℕ) → ClassState → ClassState × Called
  pub has_backend_context : Option ℕ → ClassState → Bool
  pub reset_backend_context : ClassState → ClassState
  pub configure_hint : Text

-- The hooks of a class that keeps the keyword argument `key`.
unfoldable pub keyed : Text → Text → Hooks
unfolding keyword_of not_configured_text
keyed key hint = record {
  configure_backend = λ kwargs s. elim (keyword_of key kwargs) [
    | none ↦ (s, runtime_error (not_configured_text hint))
    | some context ↦ (record s { own_context = some (some context) }, returned)
  ];
  has_backend_context = λ inherited s. is_some (context_of inherited s);
  reset_backend_context = λ s. record s { own_context = some none };
  configure_hint = hint;
}

abbrev pub celery_hooks : Hooks
celery_hooks =
    keyed (codes "celery_app") (codes "CeleryRateLimiter.configure(redis_client, celery_app)")

abbrev pub rq_hooks : Hooks
rq_hooks = keyed (codes "queue") (codes "RQRateLimiter.configure(redis_client, queue=queue)")

-- Its `_configure_backend` also calls register_worker.
abbrev pub huey_hooks : Hooks
huey_hooks =
    keyed (codes "huey") (codes "HueyRateLimiter.configure(redis_client, huey=huey_instance)")

-- Its `_configure_backend` also calls dramatiq.set_broker.
abbrev pub dramatiq_hooks : Hooks
dramatiq_hooks =
    keyed (codes "broker") (codes "DramatiqRateLimiter.configure(redis_client, broker=broker)")

abbrev pub thread_hooks : Hooks
thread_hooks =
    keyed (codes "executor")
      (codes "ThreadPoolRateLimiter.configure(redis_client, executor=executor)")

abbrev pub process_hooks : Hooks
process_hooks =
    keyed (codes "executor")
      (codes "ProcessPoolRateLimiter.configure(redis_client, executor=executor)")

abbrev pub asyncio_hooks : Hooks
asyncio_hooks =
    keyed (codes "max_tasks") (codes "AsyncIOTaskLimiter.configure(redis_client, max_tasks=N)")

unfoldable pub asgi_hooks : Hooks
asgi_hooks = record {
  configure_backend = λ kwargs s. (s, returned);
  has_backend_context = λ inherited s. true;
  reset_backend_context = λ s. s;
  configure_hint = codes "ASGIRateLimiter.configure(redis_client)";
}

module _ (hooks : Hooks) where
  -- configure(redis_client, **backend_context)
  unfoldable pub configure : ℕ → List (Text × ℕ) → ClassState → ClassState × Called
  configure client kwargs s =
      hooks.configure_backend kwargs (record s { redis_client = some client })

  -- _require_configured
  unfoldable pub require_configured : Option ℕ → ClassState → Called
  unfolding not_configured_text
  require_configured inherited s =
      if not (is_some s.redis_client) || not (hooks.has_backend_context inherited s)
      then runtime_error (not_configured_text hooks.configure_hint)
      else returned

  -- _reset
  unfoldable pub reset : ClassState → ClassState
  reset s = hooks.reset_backend_context (record s { instances = []; redis_client = none })

-- _require_internal_construction: whether the constructor goes on, with this `_sentinel`
unfoldable pub is_internal : Option ℕ → ClassState → Bool
is_internal none s = false
is_internal (some sentinel) s = sentinel == s.sentinel

-- A class with a keyword argument of its own. With the argument, `configure` returns, and the class
-- has the new client and the new context. Without it, it raises what _require_configured raises; but the
-- client is the new one, the context is the old one or the parent's, and where there is one, create and
-- get are not refused. In both cases the cached instances stay.
pub configure_lem :
    (key hint : Text) (inherited : Option ℕ) (client : ℕ) (kwargs : List (Text × ℕ))
    (s : ClassState)
    → let hooks = keyed key hint in
      let (after, called) = configure hooks client kwargs s in
      (after.redis_client ≡ some client)
      × (after.instances ≡ s.instances)
      × (context_of inherited after ≡ elim (keyword_of key kwargs) [
        | none ↦ context_of inherited s
        | some context ↦ some context
      ])
      × (called ≡ elim (keyword_of key kwargs) [
        | none ↦ require_configured hooks none (init_subclass s.sentinel)
        | some context ↦ returned
      ])
      × (require_configured hooks inherited after ≡ (
          if is_some (keyword_of key kwargs) || is_some (context_of inherited s)
          then returned
          else require_configured hooks none (init_subclass s.sentinel)))
unfolding configure require_configured keyed init_subclass
configure_lem key hint inherited client kwargs s =
    (ground arith, ground arith, ground arith, ground arith, ground arith)
