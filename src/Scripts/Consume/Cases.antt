-- ===== src/Scripts/Consume/Cases.antt =====
-- The outcomes of one run of consume.lua.
use redis_rate_limiter.Prelude.{
  ℕ, ◌+◌, ◌≤◌, ◌<◌, ◌≡◌, ◌⊎◌, true, false, ◌&&◌, Option, none, some, [], ◌∷◌, ◌++◌, length,
  if◌then◌else◌,
}
use redis_rate_limiter.Prelude.Int.{ℤ, pos}
use redis_rate_limiter.Prelude.Text.{Text}
use redis_rate_limiter.Keys.{get_inflight_key}
use redis_rate_limiter.Redis.SortedSet.{ZSet, insert, remove}
use redis_rate_limiter.Scripts.Clock.{Time}
use redis_rate_limiter.Scripts.Task.{Task, is_marker}
use redis_rate_limiter.Scripts.Consume.{
  Arguments, Reply, admitted, blocked, expired, marker_skipped, yielded, is_expired, past_deadline,
}
use redis_rate_limiter.Scripts.Consume.Steps.{State}

-- Why nothing was taken.
abbrev pub Blocked : Arguments → ℕ → State → Reply → Type 0
Blocked a active s reply =
    (reply.buffer_count ≡ length s.pending)
    × ((s.pending ≡ []) ⊎ (a.max_concurrency ≤ active) ⊎ (reply.remaining ≡ pos 0))

-- One run, from a state whose expired leases are reclaimed already. `active` leases are live.
pub data Outcome (time : Time) (a : Arguments) (decode : Text → Task) (active : ℕ) (s t : State)
    (r : Option Reply) : Type 0 where
  -- nothing was taken: a yield, or the buffer was empty, or a limit was reached
  idle :
      (reply : Reply)
      → r ≡ some reply
      → reply.task ≡ none
      → reply.active_now ≡ active
      → ((reply.status ≡ yielded) × (reply.buffer_count ≡ 0))
        ⊎ ((reply.status ≡ blocked) × Blocked a active s reply)
      → t ≡ s
      → Outcome time a decode active s t r
  -- the head was too old: status -1
  died :
      (score : ℤ) (raw : Text) (later : ZSet) (reply : Reply)
      → s.pending ≡ (score, raw) ∷ later
      → is_expired time a (decode raw) ≡ true
      → r ≡ some reply
      → (reply.task ≡ none)
        × (reply.active_now ≡ active)
        × (reply.buffer_count + 1 ≡ length s.pending)
      → reply.status ≡ expired
      → t ≡ record s {
        pending = remove raw s.pending;
        dead = (if is_marker (decode raw) then s.dead else s.dead ++ raw ∷ []);
      }
      → Outcome time a decode active s t r
  -- the head was an acquire marker whose caller has given up: status -2
  skipped :
      (score : ℤ) (raw : Text) (later : ZSet) (reply : Reply)
      → s.pending ≡ (score, raw) ∷ later
      → is_marker (decode raw) ≡ true
      → past_deadline time (decode raw) ≡ true
      → r ≡ some reply
      → (reply.task ≡ none)
        × (reply.active_now ≡ active)
        × (reply.buffer_count + 1 ≡ length s.pending)
      → reply.status ≡ marker_skipped
      → t ≡ record s { pending = remove raw s.pending }
      → Outcome time a decode active s t r
  -- the head was leased: status 1, or the script's error on a marker with no timeout
  leased :
      (score : ℤ) (raw : Text) (later : ZSet)
      → s.pending ≡ (score, raw) ∷ later
      → is_expired time a (decode raw) ≡ false
      → (is_marker (decode raw) && past_deadline time (decode raw)) ≡ false
      → active < a.max_concurrency
      → ((reply : Reply) × (r ≡ some reply)
          × (reply.task ≡ some raw)
          × (reply.status ≡ admitted)
          × (reply.active_now ≡ active + 1)
          × (reply.buffer_count + 1 ≡ length s.pending))
        ⊎ ((r ≡ none) × (is_marker (decode raw) ≡ true) × ((decode raw).acquire_timeout_ms ≡ none))
      → t ≡ record s {
        pending = remove raw s.pending;
        leases = insert (pos (time.seconds + a.lease_duration)) (decode raw).id s.leases;
      }
      → Outcome time a decode active s t r

-- The first task of the buffer carries the in-flight key that `schedule_task` gave it.
abbrev pub OwnsHead : Text → (Text → Task) → ZSet → Type 0
OwnsHead id decode [] = Unit {0}
OwnsHead id decode ((score, raw) ∷ later) =
    (decode raw).inflight_key ≡ get_inflight_key id (decode raw).id
