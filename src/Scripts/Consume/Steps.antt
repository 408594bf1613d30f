-- ===== src/Scripts/Consume/Steps.antt =====
-- What each part of consume.lua does to the three collections of a limiter: the buffer, the leases
-- and the dead letter queue.
use redis_rate_limiter.Prelude.{
  ℕ, ◌≡◌, refl, ◌∙◌, Bool, true, false, List, [], ◌∷◌, ◌++◌, arith, none, ◌⊎◌, Bool-cases,
  Option-cases, inl, inr,
}
use redis_rate_limiter.Prelude.Int.{ℤ}
use redis_rate_limiter.Prelude.Text.{Text, same}
use redis_rate_limiter.Keys.{
  Role, buffer, concurrency, dlq, inflight, acquire, window, key_of, window_key, same_role,
  same-key_of, signal_key-eq, window_key-eq,
}
use redis_rate_limiter.Redis.{Redis}
use redis_rate_limiter.Redis.SortedSet.{ZSet, insert, remove, drop_through}
use redis_rate_limiter.Scripts.Clock.{Time}
use redis_rate_limiter.Scripts.Task.{Task, is_marker}
use redis_rate_limiter.Scripts.Acquire.{count_request}
use redis_rate_limiter.Scripts.Acquire.Laws.{view-count_request_ne}
use redis_rate_limiter.Scripts.Consume.{Keys, signal, signal_marker}

pub record State : Type 0 where
  pub pending : ZSet
  pub leases : ZSet
  pub dead : List Text

-- The keys that a limiter passes to the script.
abbrev pub keys_of : Text → Keys
keys_of id = record {
  base = id;
  buffer = key_of id buffer;
  concurrency = key_of id concurrency;
  dlq = key_of id dlq;
}

-- The kinds of key that hold none of the three.
abbrev pub is_apart : Role → Bool
is_apart buffer = false
is_apart concurrency = false
is_apart dlq = false
is_apart _ = true

apart_roles :
    (r : Role)
    → is_apart r ≡ true
    → (same_role r buffer ≡ false) × (same_role r concurrency ≡ false) × (same_role r dlq ≡ false)
apart_roles buffer h = cc
apart_roles r h = ground arith

module _ (R : Redis) (id : Text) where
  open R use {Db, view}

  unfoldable pub state : Db → State
  state db = record {
    pending = (view db (key_of id buffer)).zset;
    leases = (view db (key_of id concurrency)).zset;
    dead = (view db (key_of id dlq)).list;
  }

  -- What writes to another key alone leaves them as they were.
  pub state_frame :
      (r : Role) (db db' : Db)
      → is_apart r ≡ true
      → ((j : Text) → same (key_of id r) j ≡ false → view db' j ≡ view db j)
      → state db' ≡ state db
  unfolding state
  state_frame r db db' h f =
      let (b, c, d) = apart_roles r h in
      rw (
        f (key_of id buffer) (same-key_of id r buffer ∙ b),
        f (key_of id concurrency) (same-key_of id r concurrency ∙ c),
        f (key_of id dlq) (same-key_of id r dlq ∙ d),
      )

  pub state-zrem :
      (raw : Text) (db : Db)
      → state (R.zrem (key_of id buffer) raw db)
        ≡ record (state db) { pending = remove raw (state db).pending }
  unfolding state
  state-zrem raw db = simp (R.view-zrem, same-key_of)

  pub state-zadd :
      (a : ℤ) (m : Text) (db : Db)
      → state (R.zadd (key_of id concurrency) a m db)
        ≡ record (state db) { leases = insert a m (state db).leases }
  unfolding state
  state-zadd a m db = simp (R.view-zadd, same-key_of)

  pub state-zremrangebyscore :
      (a : ℤ) (db : Db)
      → state (R.zremrangebyscore (key_of id concurrency) a db)
        ≡ record (state db) { leases = drop_through a (state db).leases }
  unfolding state
  state-zremrangebyscore a db = simp (R.view-zremrangebyscore, same-key_of)

  pub state-rpush :
      (raw : Text) (db : Db)
      → state (R.rpush (key_of id dlq) raw db)
        ≡ record (state db) { dead = (state db).dead ++ raw ∷ [] }
  unfolding state
  state-rpush raw db = simp (R.view-rpush, same-key_of)

  pub state-set_px :
      (r : Role) (v : Text) (ms now : ℕ) (db : Db)
      → is_apart r ≡ true
      → state (R.set_px (key_of id r) v ms now db) ≡ state db
  state-set_px r v ms now db h = state_frame r db _ h (λ j e. simp (R.view-set_px, e))

  pub state-del : (t : Text) (db : Db) → state (R.del (key_of id (inflight t)) db) ≡ state db
  state-del t db = state_frame (inflight t) db _ refl (λ j e. simp (R.view-del, e))

  pub state-count_request :
      (start w now current : ℕ) (db : Db)
      → state (count_request R (window_key id start) w now current db) ≡ state db
  state-count_request start w now current db = rw window_key-eq (
      state_frame (window start) db _ refl
        (λ j e. view-count_request_ne R (key_of id (window start)) w now current db j e))

  pub state-signal :
      (time : Time) (task : Task) (db : Db) → state (signal R time id task db).0 ≡ state db
  unfolding signal
  state-signal time task db = elim (Option-cases task.acquire_timeout_ms) [
    | inl e ↦ rw (e, signal) (rw signal_key-eq pushed)
    | inr (ms, e) ↦
        rw (e, signal)
          (rw signal_key-eq
            (state_frame (acquire task.id) _ _ refl (λ j n. simp (R.view-pexpire, n)) ∙ pushed))
  ]
    where
      pushed : state (R.rpush (key_of id (acquire task.id)) task.id db) ≡ state db
      pushed = state_frame (acquire task.id) db _ refl (λ j n. simp (R.view-rpush, n))

  pub state-signal_marker :
      (time : Time) (task : Task) (db : Db) → state (signal_marker R time id task db).0 ≡ state db
  unfolding signal_marker
  state-signal_marker time task db = elim (Bool-cases (is_marker task)) [
    | inl e ↦ rw (e, signal_marker) (state-signal time task db)
    | inr e ↦ rw (e, signal_marker)
  ]

  -- The signal fails only for a marker with no timeout.
  pub signal_marker_cases :
      (time : Time) (task : Task) (db : Db)
      → ((signal_marker R time id task db).1 ≡ true)
        ⊎ (((signal_marker R time id task db).1 ≡ false)
            × (is_marker task ≡ true)
            × (task.acquire_timeout_ms ≡ none))
  unfolding signal_marker signal
  signal_marker_cases time task db = elim (Bool-cases (is_marker task)) [
    | inl m ↦ elim (Option-cases task.acquire_timeout_ms) [
      | inl e ↦ inr (rw (m, signal_marker, e, signal), m, e)
      | inr (ms, e) ↦ inl (rw (m, signal_marker, e, signal))
    ]
    | inr m ↦ inl (rw (m, signal_marker))
  ]
