-- ===== src/Scripts/Acquire/Runs.antt =====
-- A burst of requests within one window.
use redis_rate_limiter.Prelude.{ℕ, ◌+◌, ◌≤◌, ◌<◌, ◌≡◌, List, [], ◌∷◌, arith}
use redis_rate_limiter.Prelude.Text.{Text}
use redis_rate_limiter.Keys.{window_key}
use redis_rate_limiter.Redis.{Redis}
use redis_rate_limiter.Window.{current_window_start}
use redis_rate_limiter.Scripts.Clock.{Time, now_ms}
use redis_rate_limiter.Scripts.Acquire.{read_count, acquire_script}
use redis_rate_limiter.Scripts.Acquire.Laws.{acquire_script_lem, acquire_script_limit}

module _ (R : Redis) (base : Text) (w limit : ℕ) where
  open R use {Db}

  -- The requests in turn: the database, and how many were let through.
  unfoldable pub acquire_all : List Time → Db → Db × ℕ
  acquire_all [] db = (db, 0)
  acquire_all (time ∷ times) db =
      let (db', reply) = acquire_script R time base w limit db in
      let (db'', admitted) = acquire_all times db' in (db'', reply.allowed + admitted)

  abbrev pub InWindow : ℕ → List Time → Type 0
  InWindow start [] = Unit {0}
  InWindow start (time ∷ times) =
      (current_window_start (now_ms time) w ≡ start) × InWindow start times

  -- However many requests arrive at whatever times of one window, which is not empty and starts with
  -- its counter within the limit, its counter grows by those that were let through, and ends within
  -- the limit.
  pub acquire_all_limit :
      (start : ℕ) (times : List Time) (db : Db)
      → 0 < w
      → InWindow start times
      → read_count R (window_key base start) db ≤ limit
      → (read_count R (window_key base start) (acquire_all times db).0
          ≡ read_count R (window_key base start) db + (acquire_all times db).1)
        × (read_count R (window_key base start) (acquire_all times db).0 ≤ limit)
  unfolding acquire_all
  acquire_all_limit start [] db h i fits = (omega arith, fits)
  acquire_all_limit start (time ∷ times) db h i fits =
      let db' = (acquire_script R time base w limit db).0 in
      let counted = rw i.0 at ((acquire_script_lem R time base w limit db).1) in
      let fits' = rw i.0 at (acquire_script_limit R time base w limit db h (rw i.0 fits)) in
      let (later, within) = acquire_all_limit start times db' h i.1 fits' in
      (omega (arith, later, counted), within)
