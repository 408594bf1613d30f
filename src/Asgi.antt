-- ===== src/Asgi.antt =====
-- The ASGI backend: ASGIRateLimiter.acquire (src/redis_rate_limiter/backends/asgi/limiter.py), the key
-- functions (backends/asgi/keys.py) and RateLimitMiddleware (backends/asgi/middleware.py). The inner
-- application is what it sends for a scope. Header names and values are texts.
pub mod Replies
pub mod Limit
use redis_rate_limiter.Prelude.{
  ℕ, ◌+◌, ◌-◌, ◌*◌, ◌/◌, Bool, true, false, not, Option, none, some, List, [], ◌∷◌, ◌++◌, map, max,
  leb, ◌==◌, if◌then◌else◌,
}
use redis_rate_limiter.Prelude.Int.{ℤ, pos, negsuc}
use redis_rate_limiter.Prelude.Text.{Text, codes, same}
use redis_rate_limiter.Prelude.Decimal.{decimal}
use redis_rate_limiter.Redis.{Redis}
use redis_rate_limiter.Limiter.{Limiter}
use redis_rate_limiter.Scripts.Clock.{Time}
use redis_rate_limiter.Scripts.Acquire.{Reply, acquire_script}

abbrev pub Header : Type 0
Header = Text × Text

-- What is used of an ASGI scope. `client` is the (host, port) pair, or empty.
pub record Scope : Type 0 where
  pub scope_type : Text
  pub client : List Text
  pub headers : List Header

-- http.response.start, http.response.body, and any other message
pub data Message : Type 0 where
  response_start : ℕ → List Header → Message
  response_body : Text → Message
  other : Text → Message

pub record AcquireResult : Type 0 where
  pub allowed : Bool
  pub remaining : ℤ
  pub reset_in_ms : ℕ
  pub val_previous : ℕ
  pub val_current : ℕ

unfoldable pub by_client_ip : Scope → Option Text
by_client_ip scope = elim scope.client [ [] ↦ none | host ∷ rest ↦ some host ]

-- The `_extract` of by_header, for a name that is in lower case.
unfoldable pub extract : Text → List Header → Option Text
extract target [] = none
extract target ((name, value) ∷ headers) =
    if same name target then some value else extract target headers

-- str() of an integer
unfoldable pub show_ℤ : ℤ → Text
show_ℤ (pos n) = decimal n
show_ℤ (negsuc n) = b'-' ∷ decimal (n + 1)

-- The `_send` of _wrap_send, on one message.
unfoldable pub wrap : ℕ → AcquireResult → Message → Message
unfolding show_ℤ
wrap limit result (response_start status headers) = response_start status (
    headers
    ++ (codes "x-ratelimit-limit", decimal limit)
      ∷ (codes "x-ratelimit-remaining", show_ℤ result.remaining)
      ∷ (codes "x-ratelimit-reset", decimal result.reset_in_ms)
      ∷ [])
wrap limit result (response_body body) = response_body body
wrap limit result (other message) = other message

-- max(1, (reset_ms + 999) // 1000)
unfoldable pub retry_after : ℕ → ℕ
retry_after reset_ms = max 1 ((reset_ms + 999) / 1000)

-- _send_blocked
unfoldable pub send_blocked : AcquireResult → List Message
unfolding retry_after
send_blocked result =
    response_start 429 (
      (codes "content-type", codes "text/plain; charset=utf-8")
      ∷ (codes "retry-after", decimal (retry_after result.reset_in_ms))
      ∷ (codes "x-ratelimit-remaining", codes "0")
      ∷ (codes "x-ratelimit-reset", decimal result.reset_in_ms)
      ∷ [])
    ∷ response_body (codes "Rate limit exceeded. Please retry later.")
    ∷ []

-- _send_error
unfoldable pub send_error : List Message
send_error =
    response_start 503 ((codes "content-type", codes "text/plain; charset=utf-8") ∷ [])
    ∷ response_body (codes "Service temporarily unavailable.")
    ∷ []

-- RateLimitMiddleware.__init__
pub record Middleware : Type 0 where
  pub app : Scope → List Message
  pub key_func : Scope → Option Text
  pub on_blocked : Option (Scope → AcquireResult → List Message)
  pub fail_closed : Bool

-- What the server gets to send, and whether the inner application ran.
pub record Response : Type 0 where
  pub reached_app : Bool
  pub sent : List Message

unfoldable pub pass_through : Middleware → Scope → Response
pass_through m scope = record { reached_app = true; sent = m.app scope }

-- __call__ after `acquire`; `none` is its exception.
unfoldable pub respond : Middleware → ℕ → Scope → Option AcquireResult → Response
unfolding pass_through send_error send_blocked wrap
respond m limit scope none =
    if m.fail_closed
    then record { reached_app = false; sent = send_error }
    else pass_through m scope
respond m limit scope (some result) =
    if not result.allowed
    then record {
      reached_app = false;
      sent = elim m.on_blocked [
        | some on_blocked ↦ on_blocked scope result
        | none ↦ send_blocked result
      ];
    }
    else record { reached_app = true; sent = map (wrap limit result) (m.app scope) }

-- An ASGIRateLimiter, with the time of its last refresh, in milliseconds.
pub record AsgiLimiter : Type 0 where
  pub base : Limiter
  pub last_refresh : ℕ

unfoldable pub read_acquire : Reply → AcquireResult
read_acquire r = record {
  allowed = r.allowed == 1;
  remaining = r.remaining;
  reset_in_ms = r.reset;
  val_previous = r.previous_count;
  val_current = r.current_count;
}

-- f"{self.id}:{key}"
abbrev pub full_key : Limiter → Text → Text
full_key l key = l.id ++ b':' ∷ key

module _ (R : Redis) (refresh_config : Limiter → Option Limiter) where
  open R use {Db}

  -- `_eval_script` of acquire.lua, and its reply; `works` tells whether it runs.
  unfoldable pub evaluate :
      Bool → Time → Text → AsgiLimiter → Db → Db × AsgiLimiter × Option AcquireResult
  unfolding read_acquire
  evaluate works time key a db =
      let (db', reply) =
        acquire_script R time (full_key a.base key) a.base.window_ms a.base.limit db in
      if works then (db', a, some (read_acquire reply)) else (db, a, none)

  -- ASGIRateLimiter.acquire(key), at the time `now` of time.monotonic(). `none` is an exception.
  unfoldable pub acquire_key :
      Bool → ℕ → Time → Text → AsgiLimiter → Db → Db × AsgiLimiter × Option AcquireResult
  unfolding evaluate
  acquire_key works now time key a db =
      let stamped = record a { last_refresh = now } in
      if leb 5000 (now - a.last_refresh)
      then elim (refresh_config a.base) [
        | none ↦ (db, stamped, none)
        | some fresh ↦ evaluate works time key (record stamped { base = fresh }) db
      ]
      else evaluate works time key a db

  unfoldable pub limit_key :
      Bool
      → ℕ
      → Time
      → Middleware
      → Scope
      → Option Text
      → AsgiLimiter
      → Db
      → Db × AsgiLimiter × Response
  unfolding acquire_key respond pass_through
  limit_key works now time m scope none a db = (db, a, pass_through m scope)
  limit_key works now time m scope (some key) a db =
      let (db', a', result) = acquire_key works now time key a db in
      (db', a', respond m a'.base.limit scope result)

  -- RateLimitMiddleware.__call__
  unfoldable pub call :
      Bool → ℕ → Time → Middleware → Scope → AsgiLimiter → Db → Db × AsgiLimiter × Response
  unfolding limit_key pass_through
  call works now time m scope a db =
      if not (same scope.scope_type (codes "http"))
      then (db, a, pass_through m scope)
      else limit_key works now time m scope (m.key_func scope) a db
