-- ===== src/Async/Scripts.antt =====
-- `_register_script` and `_eval_script` of AbstractAsyncRateLimiter
-- (src/redis_rate_limiter/core/base.py), over the server of Registration.
pub mod Agreement
use redis_rate_limiter.Prelude.{Bool, Option, none, some, or_else, is_some, [], if◌then◌else◌}
use redis_rate_limiter.Prelude.Text.{Text}
use redis_rate_limiter.Registration.{Server, Client, set, Evaluated, replied, not_retained}
use redis_rate_limiter.Async.{Co, done, step}

-- The limiter's tables of scripts, and the server.
pub record Scripting (S : Server) : Type 0 where
  pub client : Client
  pub db : S.Db

module _ (S : Server) (load_lua_script : Text → Text) where
  open S use {Db, Reply, script_load, evalsha}

  abbrev pub source_of : Text → Client → Text
  source_of name c = or_else (c.sources name) (load_lua_script name)

  -- _register_script, and what follows
  unfoldable pub register_async : {A : Type 0} → Text → Co (Scripting S) A → Co (Scripting S) A
  register_async name next =
      step
        (λ s. record s {
          client = record s.client {
            sources = set name (source_of name s.client) s.client.sources;
          };
        })
        (λ s.
          let source = source_of name s.client in
          step (λ t. record t { db = (script_load source t.db).0 })
            (λ t.
              let sha = (script_load source t.db).1 in
              step
                (λ u. record u { client = record u.client { shas = set name sha u.client.shas } })
                (λ u. next)))

  abbrev pub after_evalsha : Db → Option (Db × Reply) → Db
  after_evalsha db none = db
  after_evalsha db (some (db', reply)) = db'

  abbrev pub reply_of : Option (Db × Reply) → Option Reply
  reply_of none = none
  reply_of (some (db', reply)) = some reply

  -- EVALSHA of the script's present SHA, awaited; `none` is NoScriptError.
  unfoldable pub evalsha_async :
      {A : Type 0} → Text → (Option Reply → Co (Scripting S) A) → Co (Scripting S) A
  evalsha_async name next =
      step (λ s. s)
        (λ s.
          let sha = or_else (s.client.shas name) [] in
          step (λ t. record t { db = after_evalsha t.db (evalsha sha t.db) })
            (λ t. next (reply_of (evalsha sha t.db))))

  unfoldable pub after_second : Option Reply → Co (Scripting S) (Evaluated Reply)
  after_second none = done not_retained
  after_second (some reply) = done (replied reply)

  unfoldable pub after_first : Text → Option Reply → Co (Scripting S) (Evaluated Reply)
  unfolding register_async evalsha_async after_second
  after_first name none = register_async name (evalsha_async name after_second)
  after_first name (some reply) = done (replied reply)

  unfoldable pub eval_script_async : Text → Co (Scripting S) (Evaluated Reply)
  unfolding register_async evalsha_async after_first
  eval_script_async name =
      step (λ s. s)
        (λ s.
          let first = evalsha_async name (after_first name) in
          if is_some (s.client.shas name) then first else register_async name first)
