-- ===== src/Window/Limit.antt =====
-- What is left of the limit when a request does not pass.
use native.Mathlib.Nat.{zero-div}
use redis_rate_limiter.Prelude.{
  ℕ, ◌-◌, ◌*◌, ◌≤◌, ◌≡◌, ap, ◌⊎◌, inl, inr, false, ◌&&◌, arith, ltb, Bool-cases,
}
use redis_rate_limiter.Prelude.Int.{pos}
use redis_rate_limiter.Window.{below_limit, remaining_tokens}

spent :
    (estimated w limit : ℕ)
    → below_limit estimated w limit ≡ false
    → remaining_tokens estimated w limit ≡ 0
unfolding below_limit remaining_tokens
spent estimated w limit h =
    let over : limit * w - estimated ≡ 0 = ground arith in rw over (zero-div w)

pub full_or_spent :
    (estimated w limit active max_concurrency : ℕ)
    → (below_limit estimated w limit && ltb active max_concurrency) ≡ false
    → (max_concurrency ≤ active) ⊎ (pos (remaining_tokens estimated w limit) ≡ pos 0)
full_or_spent estimated w limit active max_concurrency h =
    elim (Bool-cases (below_limit estimated w limit)) [
      | inl below ↦ inl (ground arith)
      | inr over ↦ inr (ap pos (spent estimated w limit over))
    ]
