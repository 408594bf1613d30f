-- ===== src/Limiter/Acquire/Signals.antt =====
-- The signal of consume.lua reaches the call that waits for it.
use redis_rate_limiter.Prelude.{ℕ, ◌+◌, ◌≡◌, refl, ap, ◌∙◌, true, some, List, [], ◌∷◌, ◌++◌, arith}
use redis_rate_limiter.Prelude.Text.{Text, same_refl}
use redis_rate_limiter.Keys.{signal_key}
use redis_rate_limiter.Redis.{Redis, View, start_expiry}
use redis_rate_limiter.Limiter.{Limiter}
use redis_rate_limiter.Limiter.Acquire.{lifecycle, popped, await_signal}
use redis_rate_limiter.Scripts.Clock.{Time, now_ms}
use redis_rate_limiter.Scripts.Task.{Task}
use redis_rate_limiter.Scripts.Consume.{signal}

start_expiry_list : (v : View) (at : ℕ) → (start_expiry v at).list ≡ v.list
start_expiry_list v at = ground arith

module _ (R : Redis) where
  open R use {Db, view}

  pub popped_signal :
      (task_id : Text) (after : Db) (signals : List Text) (t : Text)
      → (popped R task_id after (signals ++ t ∷ [])).1 ≡ lifecycle task_id
  unfolding popped
  popped_signal task_id after [] t = refl
  popped_signal task_id after (s ∷ signals) t = refl

  pexpire-here :
      (key : Text) (ms now : ℕ) (db : Db)
      → view (R.pexpire key ms now db) key ≡ start_expiry (view db key) (now + ms)
  pexpire-here key ms now db = rw (R.view-pexpire key ms now db key, same_refl key) refl

  rpush-here :
      (key m : Text) (db : Db) → (view (R.rpush key m db) key).list ≡ (view db key).list ++ m ∷ []
  rpush-here key m db = rw (R.view-rpush key m db key, same_refl key) refl

  pub pushed :
      (key m : Text) (ms now : ℕ) (db : Db)
      → (view (R.pexpire key ms now (R.rpush key m db)) key).list ≡ (view db key).list ++ m ∷ []
  pushed key m ms now db =
      ap (λ (v : View). v.list) (pexpire-here key ms now (R.rpush key m db))
      ∙ start_expiry_list (view (R.rpush key m db) key) (now + ms)
      ∙ rpush-here key m db

  -- Once consume.lua has signalled an acquire marker that has a timeout, the call that waits for it
  -- gets its lifecycle.
  await_signal-signal :
      (time : Time) (l : Limiter) (task : Task) (timeout_ms : ℕ) (db : Db)
      → task.acquire_timeout_ms ≡ some timeout_ms
      → ((signal R time l.id task db).1 ≡ true)
        × ((await_signal R l task.id (signal R time l.id task db).0).1 ≡ lifecycle task.id)
  unfolding signal await_signal
  await_signal-signal time l task timeout_ms db h = rw h (
    refl,
    rw (pushed (signal_key l.id task.id) task.id timeout_ms (now_ms time) db)
        (popped_signal task.id _ (view db (signal_key l.id task.id)).list task.id),
  )
