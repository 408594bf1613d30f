-- ===== src/Registration/Recovery.antt =====
-- A script runs even if the server has lost it.
use redis_rate_limiter.Prelude.{
  ◌≡◌, refl, ap, ◌∙◌, ◌⊎◌, inl, inr, Option, none, some, or_else, arith, Bool-cases, Option-cases,
}
use redis_rate_limiter.Prelude.Text.{Text, same, same→eq}
use redis_rate_limiter.Registration.{
  Server, Client, set, Evaluated, replied, register_script, finish, recover, eval_cached,
  eval_script,
}

module _ (S : Server) (load_lua_script : Text → Text) where
  -- The cache holds the sources of the files, and their digests.
  pub record IsConsistent (c : Client) : Type 0 where
    pub sources_read :
        (name source : Text) → c.sources name ≡ some source → source ≡ load_lua_script name
    pub shas_of : (name sha : Text) → c.shas name ≡ some sha → sha ≡ S.sha1 (load_lua_script name)

  abbrev loaded : Text → S.Db → S.Db
  loaded name db = (S.script_load (load_lua_script name) db).0

  -- The script ran on the database, or on the database with the script loaded.
  abbrev pub Ran : Text → S.Db → S.Db → Evaluated S.Reply → Type 0
  Ran name db db' e =
      ((db' ≡ (S.runs (load_lua_script name) db).0)
        × (e ≡ replied (S.runs (load_lua_script name) db).1))
      ⊎ ((db' ≡ (S.runs (load_lua_script name) (loaded name db)).0)
          × (e ≡ replied (S.runs (load_lua_script name) (loaded name db)).1))

  source_read :
      (name : Text) (c : Client)
      → IsConsistent c
      → or_else (c.sources name) (load_lua_script name) ≡ load_lua_script name
  source_read name c k = elim (Option-cases (c.sources name)) [
    | inl e ↦ rw e refl
    | inr (source, e) ↦ rw e (k.sources_read name source e)
  ]

  registered :
      (name : Text) (c : Client) (db : S.Db)
      → IsConsistent c
      → ((register_script S load_lua_script name c db).1 ≡ loaded name db)
        × ((register_script S load_lua_script name c db).2 ≡ S.sha1 (load_lua_script name))
  unfolding register_script
  registered name c db k =
      rw (source_read name c k) (refl, S.script_load-sha1 (load_lua_script name) db)

  finish-Ran :
      (name : Text) (db : S.Db) (again : Client)
      → let r =
          finish S load_lua_script again
            (loaded name db)
            (S.evalsha (S.sha1 (load_lua_script name)) (loaded name db)) in
        Ran name db r.1 r.2
  unfolding finish
  finish-Ran name db again = rw (S.evalsha_loaded (load_lua_script name) db) (inr (refl, refl))

  recovered :
      (name : Text) (c : Client) (db : S.Db)
      → IsConsistent c
      → let r =
          recover S load_lua_script name c db (S.evalsha (S.sha1 (load_lua_script name)) db) in
        Ran name db r.1 r.2
  unfolding recover
  recovered name c db k = elim (S.evalsha_outcome (load_lua_script name) db) [
    | inr e ↦ rw e (inl (refl, refl))
    | inl e ↦
        let (now_loaded, sha) = registered name c db k in
        rw (e, now_loaded, sha) (finish-Ran name db _)
  ]

  lazily :
      (name : Text) (c : Client) (db : S.Db)
      → IsConsistent c
      → let r = eval_cached S load_lua_script name none c db in Ran name db r.1 r.2
  unfolding eval_cached recover
  lazily name c db k =
      let (now_loaded, sha) = registered name c db k in
      rw (now_loaded, sha, S.evalsha_loaded (load_lua_script name) db) (inr (refl, refl))

  -- With a consistent cache, `_eval_script` runs the script of the file once, on the database as it
  -- is or with the script loaded first, and returns its reply: it never raises RuntimeError, whether
  -- or not the server has the script, if the server retains a script that it has just loaded.
  pub eval_script_lem :
      (name : Text) (c : Client) (db : S.Db)
      → IsConsistent c
      → let r = eval_script S load_lua_script name c db in Ran name db r.1 r.2
  unfolding eval_script eval_cached
  eval_script_lem name c db k = elim (Option-cases (c.shas name)) [
    | inl e ↦ rw e (lazily name c db k)
    | inr (sha, e) ↦ rw (e, k.shas_of name sha e) (recovered name c db k)
  ]

  set_read :
      (name : Text) (value : Text) (table : Text → Option Text) (f : Text → Text)
      → ((j v : Text) → table j ≡ some v → v ≡ f j)
      → value ≡ f name
      → (j v : Text) → set name value table j ≡ some v
      → v ≡ f j
  set_read name value table f old new j v h = elim (Bool-cases (same name j)) [
    | inl e ↦ ground (arith, ap f (same→eq name j e))
    | inr e ↦ old j v (rw e at h)
  ]

  -- Registering a script keeps the cache consistent.
  register_script-IsConsistent :
      (name : Text) (c : Client) (db : S.Db)
      → IsConsistent c
      → IsConsistent (register_script S load_lua_script name c db).0
  unfolding register_script
  register_script-IsConsistent name c db k = record {
    sources_read = set_read name _ c.sources load_lua_script k.sources_read (source_read name c k);
    shas_of =
        set_read name _ c.shas (λ j. S.sha1 (load_lua_script j)) k.shas_of
          (S.script_load-sha1 _ db ∙ ap S.sha1 (source_read name c k));
  }
