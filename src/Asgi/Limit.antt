-- ===== src/Asgi/Limit.antt =====
-- How many requests of one client reach the application within one window.
use redis_rate_limiter.Prelude.{
  ℕ, ◌+◌, ◌-◌, ◌≤◌, ◌<◌, ◌≡◌, refl, ap, sym, true, Option, some, List, [], ◌∷◌, map, leb, arith,
  if◌then◌else◌, Bool-cases, inl, inr, ◌⊎◌, subst,
}
use redis_rate_limiter.Prelude.Text.{Text, codes, same}
use redis_rate_limiter.Keys.{window_key}
use redis_rate_limiter.Redis.{Redis}
use redis_rate_limiter.Limiter.{Limiter}
use redis_rate_limiter.Scripts.Clock.{Time}
use redis_rate_limiter.Scripts.Acquire.{Reply, read_count, acquire_script}
use redis_rate_limiter.Scripts.Acquire.Runs.{acquire_all, InWindow, acquire_all_limit}
use redis_rate_limiter.Asgi.{
  Scope, Middleware, Response, respond, AsgiLimiter, read_acquire, full_key, evaluate, acquire_key,
  limit_key, call,
}

abbrev reaches : Response → ℕ
reaches r = if r.reached_app then 1 else 0

reaches-respond :
    (m : Middleware) (limit : ℕ) (scope : Scope) (r : Reply)
    → (r.allowed ≡ 0) ⊎ (r.allowed ≡ 1)
    → reaches (respond m limit scope (some (read_acquire r))) ≡ r.allowed
unfolding respond read_acquire
reaches-respond m limit scope r (inl e) = rw e refl
reaches-respond m limit scope r (inr e) = rw e refl

acquire_script-allowed :
    (R : Redis) (time : Time) (base : Text) (w limit : ℕ) (db : R.Db)
    → let r = (acquire_script R time base w limit db).1 in (r.allowed ≡ 0) ⊎ (r.allowed ≡ 1)
unfolding acquire_script
acquire_script-allowed R time base w limit db = ground arith

module _ (R : Redis) (refresh_config : Limiter → Option Limiter) (m : Middleware) where
  open R use {Db}

  -- Requests in turn, none of which fails, each with its scope and its two clocks: the database, and how
  -- many reach the application.
  unfoldable pub serve_all : List (Scope × ℕ × Time) → AsgiLimiter → Db → Db × ℕ
  serve_all [] a db = (db, 0)
  serve_all ((scope, now, time) ∷ requests) a db =
      let (db', a', response) = call R refresh_config true now time m scope a db in
      let (db'', reached) = serve_all requests a' db' in (db'', reaches response + reached)

  abbrev pub times_of : List (Scope × ℕ × Time) → List Time
  times_of requests = map (λ r. r.2) requests

  -- Each is an HTTP request for which the key function gives this key.
  abbrev pub AllKeyed : Text → List (Scope × ℕ × Time) → Type 0
  AllKeyed key [] = Unit {0}
  AllKeyed key ((scope, now, time) ∷ requests) =
      (same scope.scope_type (codes "http") ≡ true)
      × (m.key_func scope ≡ some key)
      × AllKeyed key requests

  module _ (l : Limiter) (key : Text) where
    -- A request of this key costs what acquire.lua counts for it.
    abbrev Costs : Time → Db → Db × AsgiLimiter × Response → Type 0
    Costs time db o =
        let (db', reply) = acquire_script R time (full_key l key) l.window_ms l.limit db in
        (o.0 ≡ db') × (o.1.base ≡ l) × (reaches o.2 ≡ reply.allowed)

    evaluate-Costs :
        (scope : Scope) (time : Time) (last : ℕ) (db : Db)
        → let (db', a', result) =
            evaluate R refresh_config true time key (record { base = l; last_refresh = last }) db in
          Costs time db (db', a', respond m a'.base.limit scope result)
    unfolding evaluate
    evaluate-Costs scope time last db = (
      refl,
      refl,
      reaches-respond m l.limit scope _
          (acquire_script-allowed R time (full_key l key) l.window_ms l.limit db),
    )

    acquire_key-Costs :
        (scope : Scope) (now : ℕ) (time : Time) (last : ℕ) (db : Db)
        → refresh_config l ≡ some l
        → let (db', a', result) =
            acquire_key R refresh_config true now time key
              (record { base = l; last_refresh = last })
              db in
          Costs time db (db', a', respond m a'.base.limit scope result)
    unfolding acquire_key
    acquire_key-Costs scope now time last db fresh = elim (Bool-cases (leb 5000 (now - last))) [
      | inl due ↦ rw (due, fresh) (evaluate-Costs scope time now db)
      | inr early ↦ rw early (evaluate-Costs scope time last db)
    ]

    call-Costs :
        (scope : Scope) (now : ℕ) (time : Time) (a : AsgiLimiter) (db : Db)
        → same scope.scope_type (codes "http") ≡ true
        → m.key_func scope ≡ some key
        → refresh_config l ≡ some l
        → a.base ≡ l
        → Costs time db (call R refresh_config true now time m scope a db)
    unfolding call limit_key
    call-Costs scope now time a db http keyed fresh e =
        subst (λ a'. Costs time db (call R refresh_config true now time m scope a' db))
          (sym (ap (λ b. record a { base = b }) e))
          (rw (http, keyed) (acquire_key-Costs scope now time a.last_refresh db fresh))

    serve_all-acquire_all :
        (requests : List (Scope × ℕ × Time)) (a : AsgiLimiter) (db : Db)
        → AllKeyed key requests
        → refresh_config l ≡ some l
        → a.base ≡ l
        → serve_all requests a db
          ≡ acquire_all R (full_key l key) l.window_ms l.limit (times_of requests) db
    unfolding serve_all acquire_all
    serve_all-acquire_all [] a db keyed fresh e = refl
    serve_all-acquire_all ((scope, now, time) ∷ requests) a db (http, keyed, others) fresh e =
        let (db', a', response) = call R refresh_config true now time m scope a db in
        let (stored, kept, counted) = call-Costs scope now time a db http keyed fresh e in
        let rest = serve_all-acquire_all requests a' db' others fresh kept in
        rw (rest, stored, counted) refl

    -- Where no check fails, the configuration does not change, and the window, which is not empty, starts
    -- with its counter within the limit: however many HTTP requests, of whatever scopes, for which the key
    -- function gives this key, arrive within one window, at whatever times, those that reach the
    -- application are no more than the limit leaves.
    pub serve_all_limit :
        (requests : List (Scope × ℕ × Time)) (a : AsgiLimiter) (db : Db) (start : ℕ)
        → AllKeyed key requests
        → refresh_config l ≡ some l
        → a.base ≡ l
        → 0 < l.window_ms
        → InWindow R (full_key l key) l.window_ms l.limit start (times_of requests)
        → read_count R (window_key (full_key l key) start) db ≤ l.limit
        → read_count R (window_key (full_key l key) start) db + (serve_all requests a db).1
          ≤ l.limit
    serve_all_limit requests a db start keyed fresh e w within fits =
        let (counted, bound) =
          acquire_all_limit R (full_key l key) l.window_ms l.limit start (times_of requests) db w
            within fits in
        rw (serve_all-acquire_all requests a db keyed fresh e) (omega (arith, counted, bound))
