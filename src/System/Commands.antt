-- ===== src/System/Commands.antt =====
-- What single commands do to the buffer, the leases and the dead letter queue.
use redis_rate_limiter.Prelude.{ℕ, ◌≡◌, refl, sym, subst}
use redis_rate_limiter.Prelude.Int.{ℤ}
use redis_rate_limiter.Prelude.Text.{Text}
use redis_rate_limiter.Keys.{buffer, concurrency, inflight, key_of, same-key_of}
use redis_rate_limiter.Redis.{Redis}
use redis_rate_limiter.Redis.SortedSet.{insert, remove}
use redis_rate_limiter.Scripts.Consume.Steps.{state, state_frame, state-del, state-zadd}

-- The three collections after a command on a key that is known by an equation.
module _ (R : Redis) (id : Text) where
  open R use {Db, view}

  pub state-set_nx :
      (key t v : Text) (s now : ℕ) (db : Db)
      → key ≡ key_of id (inflight t)
      → state R id (R.set_nx key v s now db).0 ≡ state R id db
  state-set_nx key t v s now db e =
      subst (λ k. state R id (R.set_nx k v s now db).0 ≡ state R id db) (sym e)
        (state_frame R id (inflight t) db _ refl (λ j n. simp (R.view-set_nx, n)))

  pub state-unmarked :
      (key t : Text) (db : Db)
      → key ≡ key_of id (inflight t)
      → state R id (R.del key db) ≡ state R id db
  state-unmarked key t db e =
      subst (λ k. state R id (R.del k db) ≡ state R id db) (sym e) (state-del R id t db)

  pub state-queued :
      (key : Text) (a : ℤ) (m : Text) (db : Db)
      → key ≡ key_of id buffer
      → state R id (R.zadd key a m db)
        ≡ record (state R id db) { pending = insert a m (state R id db).pending }
  unfolding state
  state-queued key a m db e =
      subst
        (λ k.
          state R id (R.zadd k a m db)
          ≡ record (state R id db) { pending = insert a m (state R id db).pending })
        (sym e) (simp (R.view-zadd, same-key_of))

  pub state-renewed :
      (key : Text) (a : ℤ) (m : Text) (db : Db)
      → key ≡ key_of id concurrency
      → state R id (R.zadd key a m db)
        ≡ record (state R id db) { leases = insert a m (state R id db).leases }
  state-renewed key a m db e =
      subst
        (λ k.
          state R id (R.zadd k a m db)
          ≡ record (state R id db) { leases = insert a m (state R id db).leases })
        (sym e) (state-zadd R id a m db)

  pub state-released :
      (key m : Text) (db : Db)
      → key ≡ key_of id concurrency
      → state R id (R.zrem key m db)
        ≡ record (state R id db) { leases = remove m (state R id db).leases }
  unfolding state
  state-released key m db e =
      subst
        (λ k.
          state R id (R.zrem k m db)
          ≡ record (state R id db) { leases = remove m (state R id db).leases })
        (sym e) (simp (R.view-zrem, same-key_of))
