-- ===== src/Asgi/Replies.antt =====
-- Which requests reach the application, and what the others are told.
use redis_rate_limiter.Prelude.{
  ℕ, ◌*◌, ◌≤◌, ◌≡◌, inl, inr, refl, Bool, false, not, Option, none, some, List, [], ◌∷◌, arith,
  Bool-cases,
}
use redis_rate_limiter.Asgi.{
  Scope, Message, response_start, response_body, AcquireResult, Middleware, respond, send_blocked,
  send_error, retry_after, pass_through,
}

-- The check let the request through, or it failed and the middleware fails open.
abbrev pub is_let_through : Middleware → Option AcquireResult → Bool
is_let_through m none = not m.fail_closed
is_let_through m (some result) = result.allowed

-- One response, of this status, and then its body.
abbrev pub Answers : ℕ → List Message → Type 0
Answers status (response_start s headers ∷ response_body body ∷ []) = s ≡ status
Answers status sent = ⊥

-- A request whose check ends reaches the application exactly when the check allowed it, or failed in a
-- middleware that fails open; otherwise, with no on_blocked of the application's own, it gets one
-- complete response, with status 429 if it was blocked and 503 if the check failed.
pub respond_lem :
    (m : Middleware) (limit : ℕ) (scope : Scope) (result : Option AcquireResult)
    → let r = respond m limit scope result in
      (r.reached_app ≡ is_let_through m result)
      × (m.on_blocked ≡ none
          → is_let_through m result ≡ false
          → Answers (elim result [ none ↦ 503 | some _ ↦ 429 ]) r.sent)
unfolding respond send_blocked send_error pass_through
respond_lem m limit scope none = elim (Bool-cases m.fail_closed) [
  | inl closed ↦ rw closed (refl, λ o n. refl)
  | inr open_ ↦ rw open_ (refl, λ o n. cc)
]
respond_lem m limit scope (some result) = elim (Bool-cases result.allowed) [
  | inl allowed ↦ rw allowed (refl, λ o n. cc)
  | inr blocked ↦ rw blocked (refl, λ o n. rw o refl)
]

-- The retry-after of a blocked request, in seconds, is the least whole number from one on that covers
-- the rest of the window.
retry_after_covers :
    (reset_ms : ℕ)
    → (1 ≤ retry_after reset_ms)
      × (reset_ms ≤ retry_after reset_ms * 1000)
      × ((seconds : ℕ) → 1 ≤ seconds → reset_ms ≤ seconds * 1000 → retry_after reset_ms ≤ seconds)
unfolding retry_after
retry_after_covers reset_ms = (omega arith, omega arith, λ seconds one h. omega arith)
