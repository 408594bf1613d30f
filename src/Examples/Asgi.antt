-- ===== src/Examples/Asgi.antt =====
-- Requests, on the database in memory.
use redis_rate_limiter.Prelude.{
  ◌+◌, ◌≤◌, ◌≡◌, refl, arith, true, false, none, some, [], ◌∷◌, List, ℕ,
}
use redis_rate_limiter.Prelude.Text.{Text, codes}
use redis_rate_limiter.Prelude.Int.{pos}
use redis_rate_limiter.Keys.{window_key}
use redis_rate_limiter.Redis.Memory.{empty, memory}
use redis_rate_limiter.Window.{current_window_start}
use redis_rate_limiter.Scripts.Clock.{Time, now_ms}
use redis_rate_limiter.Scripts.Acquire.{read_count}
use redis_rate_limiter.Asgi.{
  Scope, response_start, response_body, AcquireResult, Middleware, AsgiLimiter, respond,
  by_client_ip, full_key,
}
use redis_rate_limiter.Asgi.Replies.{Answers, respond_lem}
use redis_rate_limiter.Asgi.Limit.{serve_all, serve_all_limit}
use redis_rate_limiter.Examples.Data.{limiter, noon, later_time}

abbrev scope : Scope
scope = record {
  scope_type = codes "http";
  client = codes "10.0.0.1" ∷ codes "80" ∷ [];
  headers = [];
}

abbrev middleware : Middleware
middleware = record {
  app = λ s. response_start 200 [] ∷ response_body (codes "ok") ∷ [];
  key_func = by_client_ip;
  on_blocked = none;
  fail_closed = true;
}

abbrev blocked : AcquireResult
blocked = record {
  allowed = false;
  remaining = pos 0;
  reset_in_ms = 750;
  val_previous = 0;
  val_current = 5;
}

respond_lem_example :
    ((respond middleware 5 scope (some blocked)).reached_app ≡ false)
    × (middleware.on_blocked ≡ none
        → false ≡ false
        → Answers 429 (respond middleware 5 scope (some blocked)).sent)
respond_lem_example = respond_lem middleware 5 scope (some blocked)

-- The same client, through another port and with a header.
abbrev other_scope : Scope
other_scope = record scope {
  client = codes "10.0.0.1" ∷ codes "81" ∷ [];
  headers = (codes "accept", codes "text/plain") ∷ [];
}

abbrev requests : List (Scope × ℕ × Time)
requests = (scope, 1, noon) ∷ (other_scope, 2, later_time) ∷ []

abbrev client : Text
client = codes "10.0.0.1"

abbrev asgi_limiter : AsgiLimiter
asgi_limiter = record { base = limiter; last_refresh = 0 }

serve_all_limit_example :
    read_count memory (window_key (full_key limiter client) 1000000) empty
      + (serve_all memory (λ l. some l) middleware requests asgi_limiter empty).1
    ≤ 5
unfolding current_window_start now_ms by_client_ip read_count
serve_all_limit_example =
    serve_all_limit memory (λ l. some l) middleware limiter client requests asgi_limiter empty
      1000000 (refl, refl, (refl, refl, tt)) refl refl (omega arith) (refl, (refl, tt))
      (omega arith)
