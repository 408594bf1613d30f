-- ===== src/Loop/Wakes.antt =====
-- No wake-up of the drain loop is lost.
use redis_rate_limiter.Prelude.{
  ℕ, ◌+◌, ◌≤◌, ◌<◌, ◌≡◌, ◌⊎◌, Bool, true, false, Option, none, some, List, [], ◌∷◌, leb, arith,
}
use redis_rate_limiter.Loop.{
  Thread, looping, Loop, is_sooner, wake, begin_drain, check_wake, check, end_watch, advance, Event,
  wakes, shuts_down, advances, perform, run,
}

-- Whether a drain is due by the time.
abbrev pub is_due_by : ℕ → Option ℕ → Bool
is_due_by time none = false
is_due_by time (some next) = leb next time

-- More than `n` drains have begun, or one is due by the time.
abbrev pub IsServed : ℕ → ℕ → Loop → Type 0
IsServed n time l = (n < l.drains) ⊎ (is_due_by time l.next_wake ≡ true)

wake-IsServed :
    (n time now delay : ℕ) (l : Loop) → IsServed n time l → IsServed n time (wake now delay l)
unfolding wake is_sooner
wake-IsServed n time now delay l h = ground arith

pub advance-IsServed :
    (n time now : ℕ) (thread : Thread) (l : Loop)
    → n ≤ l.drains
    → IsServed n time l
    → IsServed n time (advance now thread l)
unfolding advance check check_wake end_watch begin_drain
advance-IsServed n time now thread l h s = ground arith

pub advance_drains :
    (now : ℕ) (thread : Thread) (l : Loop) → l.drains ≤ (advance now thread l).drains
unfolding advance check check_wake end_watch begin_drain
advance_drains now thread l = ground arith

wake_drains : (now delay : ℕ) (l : Loop) → (wake now delay l).drains ≡ l.drains
unfolding wake
wake_drains now delay l = ground arith

run_serves :
    (n time : ℕ) (events : List Event) (l : Loop)
    → n ≤ l.drains
    → IsServed n time l
    → IsServed n time (run events l)
unfolding run perform
run_serves n time [] l h s = s
run_serves n time (wakes now delay ∷ events) l h s =
    run_serves n time events (wake now delay l) (omega (arith, wake_drains now delay l))
      (wake-IsServed n time now delay l s)
run_serves n time (shuts_down ∷ events) l h s = run_serves n time events _ h s
run_serves n time (advances now ∷ events) l h s =
    run_serves n time events (advance now l.thread l) (omega (arith, advance_drains now l.thread l))
      (advance-IsServed n time now l.thread l h s)

wake_serves : (now delay : ℕ) (l : Loop) → IsServed l.drains (now + delay) (wake now delay l)
unfolding wake is_sooner
wake_serves now delay l = ground arith

-- After a call of `wake`, and whatever happens then, in any order: a drain has begun since, or the
-- loop has a wake-up that is due no later than the call asked for.
run-wake :
    (now delay : ℕ) (events : List Event) (l : Loop)
    → IsServed l.drains (now + delay) (run events (wake now delay l))
run-wake now delay events l =
    run_serves l.drains (now + delay) events (wake now delay l)
      (omega (arith, wake_drains now delay l)) (wake_serves now delay l)

pub check_served :
    (n time now : ℕ) (l : Loop)
    → IsServed n time l
    → time ≤ now
    → l.thread ≡ looping
    → l.shutdown ≡ false
    → n ≤ l.drains
    → n < (advance now l.thread l).drains
unfolding advance check check_wake begin_drain
check_served n time now l s late t up h = ground arith

run_drains : (events : List Event) (l : Loop) → l.drains ≤ (run events l).drains
unfolding run perform
run_drains [] l = omega arith
run_drains (wakes now delay ∷ events) l =
    omega (arith, run_drains events (wake now delay l), wake_drains now delay l)
run_drains (shuts_down ∷ events) l = run_drains events _
run_drains (advances now ∷ events) l =
    omega (arith, run_drains events (advance now l.thread l), advance_drains now l.thread l)

-- After a call of `wake`, and whatever happens then: once the loop is at its head, not shut down,
-- at a time no earlier than the call asked for, at least one drain has begun since the call.
pub run_drains-wake :
    (now delay later : ℕ) (events : List Event) (l : Loop)
    → (run events (wake now delay l)).thread ≡ looping
    → (run events (wake now delay l)).shutdown ≡ false
    → now + delay ≤ later
    → l.drains < (perform (advances later) (run events (wake now delay l))).drains
unfolding perform
run_drains-wake now delay later events l t up late =
    check_served l.drains (now + delay) later (run events (wake now delay l))
      (run-wake now delay events l) late t up
      (omega (arith, run_drains events (wake now delay l), wake_drains now delay l))
