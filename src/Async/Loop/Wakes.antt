-- ===== src/Async/Loop/Wakes.antt =====
-- No wake-up of the asynchronous drain loop is lost.
use redis_rate_limiter.Prelude.{
  ℕ, zero, suc, ◌+◌, ◌≤◌, ◌<◌, ◌≡◌, refl, ap, ◌⊎◌, inl, inr, Bool, true, false, ◌||◌, none, some,
  List, [], ◌∷◌, ◌++◌, leb, arith, Bool-cases,
}
use redis_rate_limiter.Loop.{looping, Loop, is_sooner}
use redis_rate_limiter.Loop.Wakes.{IsServed, advance-IsServed, advance_drains, check_served}
use redis_rate_limiter.Async.Loop.{
  AsyncDrainLoop, request_wake, wake_async, pick, drop_at, arrive, advance_run, shut_down,
  AsyncEvent, requests, arrives, shuts, goes_on, happen, happen_all,
}

abbrev pub is_requested_by : ℕ → List ℕ → Bool
is_requested_by time [] = false
is_requested_by time (t ∷ ts) = leb t time || is_requested_by time ts

-- More than `n` drains have begun, or one is due by the time, or a `_wake_async` that asks for one by
-- then has still to run.
abbrev pub IsPromised : ℕ → ℕ → AsyncDrainLoop → Type 0
IsPromised n time a = IsServed n time a.loop ⊎ (is_requested_by time a.targets ≡ true)

requested-last :
    (time t : ℕ) (ts : List ℕ)
    → is_requested_by time (ts ++ t ∷ []) ≡ (is_requested_by time ts || leb t time)
requested-last time t [] = ground arith
requested-last time t (u ∷ ts) = ground (arith, requested-last time t ts)

requested-pick :
    (time n t : ℕ) (ts : List ℕ)
    → pick n ts ≡ some t
    → is_requested_by time ts ≡ (leb t time || is_requested_by time (drop_at n ts))
requested-pick time n t [] e = cc
requested-pick time zero t (u ∷ ts) e = ground arith
requested-pick time (suc n) t (u ∷ ts) e = ground (arith, requested-pick time n t ts e)

wake_async-IsServed :
    (n time target : ℕ) (l : Loop)
    → IsServed n time l ⊎ (leb target time ≡ true)
    → IsServed n time (wake_async target l)
unfolding wake_async is_sooner
wake_async-IsServed n time target l h = ground arith

wake_async_drains : (target : ℕ) (l : Loop) → (wake_async target l).drains ≡ l.drains
unfolding wake_async
wake_async_drains target l = ground arith

arrive-IsPromised :
    (n time k : ℕ) (a : AsyncDrainLoop) → IsPromised n time a → IsPromised n time (arrive k a)
unfolding arrive
arrive-IsPromised n time k a h =
    elim (pick k a.targets)
        as (λ o.
          pick k a.targets ≡ o
          → IsPromised n time (elim o as (λ _. AsyncDrainLoop) [
            | none ↦ a
            | some target ↦ record {
              loop = wake_async target a.loop;
              targets = drop_at k a.targets;
            }
          ])) [
            | none ↦ λ e. h
            | some t ↦ λ e.
                let picked = requested-pick time k t a.targets e in
                elim h [
                  | inl served ↦ inl (wake_async-IsServed n time t a.loop (inl served))
                  | inr asked ↦ elim (Bool-cases (leb t time)) [
                    | inl soon ↦ inl (wake_async-IsServed n time t a.loop (inr soon))
                    | inr late ↦ inr (ground (arith, picked, asked, late))
                  ]
                ]
          ]
      refl

arrive_drains : (k : ℕ) (a : AsyncDrainLoop) → (arrive k a).loop.drains ≡ a.loop.drains
unfolding arrive wake_async
arrive_drains k a = ground arith

happen_drains : (e : AsyncEvent) (a : AsyncDrainLoop) → a.loop.drains ≤ (happen e a).loop.drains
unfolding happen request_wake shut_down advance_run
happen_drains (requests now delay) a = omega arith
happen_drains (arrives k) a = omega (arith, arrive_drains k a)
happen_drains shuts a = omega arith
happen_drains (goes_on now) a = advance_drains now a.loop.thread a.loop

happen-IsPromised :
    (n time : ℕ) (e : AsyncEvent) (a : AsyncDrainLoop)
    → n ≤ a.loop.drains
    → IsPromised n time a
    → IsPromised n time (happen e a)
unfolding happen request_wake shut_down advance_run
happen-IsPromised n time (requests now delay) a h (inl served) = inl served
happen-IsPromised n time (requests now delay) a h (inr asked) =
    inr (rw (requested-last time (now + delay) a.targets, asked) refl)
happen-IsPromised n time (arrives k) a h p = arrive-IsPromised n time k a p
happen-IsPromised n time shuts a h p = p
happen-IsPromised n time (goes_on now) a h (inl served) =
    inl (advance-IsServed n time now a.loop.thread a.loop h served)
happen-IsPromised n time (goes_on now) a h (inr asked) = inr asked

happen_all_drains :
    (events : List AsyncEvent) (a : AsyncDrainLoop)
    → a.loop.drains ≤ (happen_all events a).loop.drains
unfolding happen_all
happen_all_drains [] a = omega arith
happen_all_drains (e ∷ events) a =
    omega (arith, happen_drains e a, happen_all_drains events (happen e a))

promises_kept :
    (n time : ℕ) (events : List AsyncEvent) (a : AsyncDrainLoop)
    → n ≤ a.loop.drains
    → IsPromised n time a
    → IsPromised n time (happen_all events a)
unfolding happen_all
promises_kept n time [] a h p = p
promises_kept n time (e ∷ events) a h p =
    promises_kept n time events (happen e a) (omega (arith, happen_drains e a))
      (happen-IsPromised n time e a h p)

request_wake-IsPromised :
    (now delay : ℕ) (a : AsyncDrainLoop)
    → IsPromised a.loop.drains (now + delay) (request_wake now delay a)
unfolding request_wake
request_wake-IsPromised now delay a =
    inr (rw (requested-last (now + delay) (now + delay) a.targets) (ground arith))

request_wake_drains :
    (now delay : ℕ) (a : AsyncDrainLoop) → (request_wake now delay a).loop ≡ a.loop
unfolding request_wake
request_wake_drains now delay a = refl

-- After a call of wake on the asynchronous drain loop, and whatever happens then, in any order, the
-- coroutines that other calls have started included: once no such coroutine is left, and the task is at
-- the head of its loop, not shut down, at a time no earlier than the call asked for, at least one drain
-- has begun since the call.
pub happen_all-request_wake :
    (now delay later : ℕ) (events : List AsyncEvent) (a : AsyncDrainLoop)
    → let b = happen_all events (request_wake now delay a) in
      b.targets ≡ []
      → b.loop.thread ≡ looping
      → b.loop.shutdown ≡ false
      → now + delay ≤ later
      → a.loop.drains < (happen (goes_on later) b).loop.drains
unfolding happen advance_run
happen_all-request_wake now delay later events a empty t up late =
    let b = happen_all events (request_wake now delay a) in
    let grown = happen_all_drains events (request_wake now delay a) in
    let same_loop = ap (λ (l : Loop). l.drains) (request_wake_drains now delay a) in
    let kept =
      promises_kept a.loop.drains (now + delay) events (request_wake now delay a)
        (omega (arith, same_loop)) (request_wake-IsPromised now delay a) in
    elim kept [
      | inl served ↦
          check_served a.loop.drains (now + delay) later b.loop served late t up
            (omega (arith, grown, same_loop))
      | inr asked ↦ cc (ap (is_requested_by (now + delay)) empty, asked)
    ]
