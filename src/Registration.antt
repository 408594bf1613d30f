-- ===== src/Registration.antt =====
-- `_register_script` and `_eval_script` of src/redis_rate_limiter/core/base.py: the scripts' cache in
-- the client, and the recovery when the server has lost a script. The files of
-- src/redis_rate_limiter/lua are read by `load_lua_script`, a parameter.
pub mod Recovery
use redis_rate_limiter.Prelude.{
  ℕ, ◌≡◌, ◌⊎◌, Bool, Option, none, some, or_else, is_some, if◌then◌else◌,
}
use redis_rate_limiter.Prelude.Text.{Text, same}

-- SCRIPT LOAD and EVALSHA, for one list of arguments. `sha1` is the server's digest and `runs` what
-- the script does, the only outcome of EVALSHA beside NoScriptError (`none`), which does not
-- come right after the script was loaded.
pub record Server : Type 1 where
  pub Db : Type 0
  pub Reply : Type 0
  pub script_load : Text → Db → Db × Text
  pub evalsha : Text → Db → Option (Db × Reply)
  pub sha1 : Text → Text
  pub runs : Text → Db → Db × Reply
  pub script_load-sha1 : (source : Text) (db : Db) → (script_load source db).1 ≡ sha1 source
  pub evalsha_outcome :
      (source : Text) (db : Db)
      → (evalsha (sha1 source) db ≡ none) ⊎ (evalsha (sha1 source) db ≡ some (runs source db))
  pub evalsha_loaded :
      (source : Text) (db : Db)
      → evalsha (sha1 source) (script_load source db).0
        ≡ some (runs source (script_load source db).0)

-- _script_sources and _script_shas
pub record Client : Type 0 where
  pub sources : Text → Option Text
  pub shas : Text → Option Text

abbrev pub new_client : Client
new_client = record { sources = λ name. none; shas = λ name. none }

abbrev pub set : Text → Text → (Text → Option Text) → Text → Option Text
set name value table j = if same name j then some value else table j

-- What a call returns, or the RuntimeError of a script that the server does not retain.
pub data Evaluated {ℓ} (A : Type ℓ) : Type ℓ where
  replied : A → Evaluated A
  not_retained : Evaluated A

module _ (S : Server) (load_lua_script : Text → Text) where
  open S use {Db, Reply, script_load, evalsha}

  -- _register_script: the SHA, and the new states.
  unfoldable pub register_script : Text → Client → Db → Client × Db × Text
  register_script name c db =
      let source = or_else (c.sources name) (load_lua_script name) in
      let (loaded, sha) = script_load source db in
      (record { sources = set name source c.sources; shas = set name sha c.shas }, loaded, sha)

  -- The second EVALSHA.
  unfoldable pub finish : Client → Db → Option (Db × Reply) → Client × Db × Evaluated Reply
  finish c db none = (c, db, not_retained)
  finish c db (some (db', reply)) = (c, db', replied reply)

  -- The first EVALSHA, and the recovery from NoScriptError.
  unfoldable pub recover : Text → Client → Db → Option (Db × Reply) → Client × Db × Evaluated Reply
  unfolding register_script finish
  recover name c db (some (db', reply)) = (c, db', replied reply)
  recover name c db none =
      let (c', loaded, sha) = register_script name c db in finish c' loaded (evalsha sha loaded)

  unfoldable pub eval_cached : Text → Option Text → Client → Db → Client × Db × Evaluated Reply
  unfolding recover
  eval_cached name (some sha) c db = recover name c db (evalsha sha db)
  eval_cached name none c db =
      let (c', loaded, sha) = register_script name c db in
      recover name c' loaded (evalsha sha loaded)

  -- _eval_script
  unfoldable pub eval_script : Text → Client → Db → Client × Db × Evaluated Reply
  unfolding eval_cached
  eval_script name c db = eval_cached name (c.shas name) c db
