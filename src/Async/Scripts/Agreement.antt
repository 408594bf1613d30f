-- ===== src/Async/Scripts/Agreement.antt =====
-- A call of _eval_script that nothing interrupts does what the synchronous one does.
use redis_rate_limiter.Prelude.{
  ◌≡◌, refl, ap, sym, subst, Option, none, some, or_else, is_some, [], if◌then◌else◌,
}
use redis_rate_limiter.Prelude.Text.{Text, same_refl}
use redis_rate_limiter.Registration.{
  Server, Client, Evaluated, register_script, finish, recover, eval_cached, eval_script,
}
use redis_rate_limiter.Async.{complete}
use redis_rate_limiter.Async.Scripts.{
  Scripting, register_async, evalsha_async, after_second, after_first, eval_script_async, reply_of,
  after_evalsha,
}

module _ (S : Server) (load : Text → Text) (name : Text) where
  open S use {Db, Reply, evalsha}

  abbrev Ended : Type 0
  Ended = Client × Db × Evaluated Reply

  abbrev ends : Ended → Scripting S × Evaluated Reply
  ends (c, db, r) = (record { client = c; db = db }, r)

  registered-sha :
      (c : Client) (db : Db)
      → let (c', loaded, sha) = register_script S load name c db in c'.shas name ≡ some sha
  unfolding register_script
  registered-sha c db = rw same_refl refl

  after_second-finish :
      (c : Client) (db : Db) (o : Option (Db × Reply))
      → complete
          (after_second S load (reply_of S load o))
          (record { client = c; db = after_evalsha S load db o })
        ≡ ends (finish S load c db o)
  unfolding complete after_second finish
  after_second-finish c db none = refl
  after_second-finish c db (some (db', reply)) = refl

  -- The second EVALSHA.
  second-finish :
      (c : Client) (db : Db) (sha : Text)
      → c.shas name ≡ some sha
      → complete (evalsha_async S load name (after_second S load)) (record { client = c; db = db })
        ≡ ends (finish S load c db (evalsha sha db))
  unfolding complete evalsha_async
  second-finish c db sha e =
      subst
        (λ k.
          complete (after_second S load (reply_of S load (evalsha k db)))
            (record { client = c; db = after_evalsha S load db (evalsha k db) })
          ≡ ends (finish S load c db (evalsha sha db)))
        (sym (ap (λ o. or_else o []) e)) (after_second-finish c db (evalsha sha db))

  after_first-recover :
      (c : Client) (db : Db) (o : Option (Db × Reply))
      → complete
          (after_first S load name (reply_of S load o))
          (record { client = c; db = after_evalsha S load db o })
        ≡ ends (recover S load name c db o)
  unfolding complete after_first recover register_async register_script
  after_first-recover c db (some (db', reply)) = refl
  after_first-recover c db none =
      let (c', loaded, sha) = register_script S load name c db in
      second-finish c' loaded sha (registered-sha c db)

  first-recover :
      (c : Client) (db : Db) (sha : Text)
      → c.shas name ≡ some sha
      → complete
          (evalsha_async S load name (after_first S load name))
          (record { client = c; db = db })
        ≡ ends (recover S load name c db (evalsha sha db))
  unfolding complete evalsha_async
  first-recover c db sha e =
      subst
        (λ k.
          complete (after_first S load name (reply_of S load (evalsha k db)))
            (record { client = c; db = after_evalsha S load db (evalsha k db) })
          ≡ ends (recover S load name c db (evalsha sha db)))
        (sym (ap (λ o. or_else o []) e)) (after_first-recover c db (evalsha sha db))

  cached-eval :
      (o : Option Text) (c : Client) (db : Db)
      → c.shas name ≡ o
      → let first = evalsha_async S load name (after_first S load name) in
        complete
          (if is_some o then first else register_async S load name first)
          (record { client = c; db = db })
        ≡ ends (eval_cached S load name o c db)
  unfolding complete eval_cached register_async register_script
  cached-eval (some sha) c db e = first-recover c db sha e
  cached-eval none c db e =
      let (c', loaded, sha) = register_script S load name c db in
      first-recover c' loaded sha (registered-sha c db)

  -- _eval_script of the asynchronous limiter, when no other coroutine runs, leaves the client's tables and
  -- the server as the synchronous one does, and returns or raises the same.
  complete-eval_script_async :
      (c : Client) (db : Db)
      → let (c', db', r) = eval_script S load name c db in
        complete (eval_script_async S load name) (record { client = c; db = db })
        ≡ (record { client = c'; db = db' }, r)
  unfolding complete eval_script_async eval_script
  complete-eval_script_async c db = cached-eval (c.shas name) c db refl
