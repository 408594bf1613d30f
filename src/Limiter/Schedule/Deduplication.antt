-- ===== src/Limiter/Schedule/Deduplication.antt =====
-- A task that is in flight is not scheduled again; one that has left is.
use redis_rate_limiter.Prelude.{
  ℕ, ◌+◌, ◌*◌, ◌<◌, ◌≤◌, leb, ◌≡◌, refl, ap, ◌∙◌, Bool, true, false, Option, none, some, List, [],
  ◌∷◌, arith, if◌then◌else◌, Bool-cases, inl, inr,
}
use redis_rate_limiter.Prelude.Int.{ℤ}
use redis_rate_limiter.Prelude.Text.{Text, codes, same, same_refl, same→eq}
use redis_rate_limiter.Keys.{
  buffer, concurrency, inflight, drain_signal, key_of, same-key_of, get_inflight_key-eq,
}
use redis_rate_limiter.Redis.{Redis, View, absent, is_absent, or_set}
use redis_rate_limiter.Redis.SortedSet.{score, score-insert, score-remove}
use redis_rate_limiter.Limiter.{Limiter, get_inflight_ttl}
use redis_rate_limiter.Scripts.Clock.{Time, now_ms}
use redis_rate_limiter.Scripts.Lease.{schedule_script, release_script, stored_task}
use redis_rate_limiter.Limiter.Schedule.{
  Codec, Event, publish, wake, Scheduled, returned, raised, task_id_of, get_task_data_str,
  schedule_task, exit_lifecycle, script_max_age,
}

pub or_set-is_absent : (v : View) (t : Text) (at : ℕ) → is_absent (or_set v t at) ≡ false
or_set-is_absent v t at = ground arith

or_set-taken : (v : View) (t : Text) (at : ℕ) → is_absent v ≡ false → or_set v t at ≡ v
or_set-taken v t at h = ground arith

module _ (R : Redis) (C : Codec) (l : Limiter) (func_path : Text) (payload : C.Payload) where
  open R use {Db, view}

  abbrev pub task_id : Text
  task_id = task_id_of C func_path payload

  abbrev pub marker : Text
  marker = key_of l.id (inflight task_id)

  module _ (works : Bool) (time : Time) (priority : ℤ) (max_age : Option ℕ) (db : Db) where
    abbrev pub outcome : Db × Scheduled × List Event
    outcome = schedule_task R C works time l func_path payload priority max_age db

    abbrev claimed : Db
    claimed = (R.set_nx marker (codes "1") (get_inflight_ttl l max_age) (now_ms time) db).0

    outcome_taken :
        is_absent (view db marker) ≡ false
        → (outcome.0 ≡ claimed) × (outcome.1 ≡ returned false task_id)
    unfolding schedule_task
    outcome_taken h = rw (get_inflight_key-eq, R.set_nx_done, h) (refl, refl)

    pub outcome_fresh :
        is_absent (view db marker) ≡ true
        → works ≡ true
        → (outcome.0
            ≡ schedule_script R time
                (key_of l.id buffer)
                (get_task_data_str C l task_id func_path payload)
                priority
                (script_max_age max_age)
                claimed)
          × (outcome.1 ≡ returned true task_id)
    unfolding schedule_task
    outcome_fresh h w = rw (get_inflight_key-eq, R.set_nx_done, h, w) (refl, refl)

    outcome_failed :
        is_absent (view db marker) ≡ true
        → works ≡ false
        → (outcome.0 ≡ R.del marker claimed) × (outcome.1 ≡ raised)
    unfolding schedule_task
    outcome_failed h w = rw (get_inflight_key-eq, R.set_nx_done, h, w) (refl, refl)

    claimed-marker : is_absent (view claimed marker) ≡ false
    claimed-marker = rw (R.view-set_nx, same_refl) (or_set-is_absent (view db marker) _ _)

    -- A task whose marker is there is refused, and no key changes.
    pub schedule_task_taken :
        is_absent (view db marker) ≡ false
        → (outcome.1 ≡ returned false task_id) × ((j : Text) → view outcome.0 j ≡ view db j)
    schedule_task_taken h = (
      (outcome_taken h).1,
      λ j.
          rw ((outcome_taken h).0, R.view-set_nx)
            (elim (Bool-cases (same marker j)) [
              | inl e ↦ rw e (
                  or_set-taken (view db marker) _ _ h
                  ∙ ap (λ (k : Text). view db k) (same→eq marker j e))
              | inr n ↦ rw n
            ]),
    )

    -- When the task's marker was absent and the script fails, the exception goes on, the marker is
    -- absent again, and no other key changes.
    pub schedule_task_failed :
        is_absent (view db marker) ≡ true
        → works ≡ false
        → (outcome.1 ≡ raised)
          × (is_absent (view outcome.0 marker) ≡ true)
          × ((j : Text) → same marker j ≡ false → view outcome.0 j ≡ view db j)
    schedule_task_failed h w = (
      (outcome_failed h w).1,
      rw (outcome_failed h w).0 (simp (R.view-del, same_refl)),
      λ j n. rw (outcome_failed h w).0 (simp (R.view-del, R.view-set_nx, n)),
    )

    -- When the task's marker was absent and the script runs, the task is reported as scheduled, its
    -- marker is there, the buffer holds the stored task at its priority and everything else as before,
    -- and no other key changes.
    pub schedule_task_fresh :
        is_absent (view db marker) ≡ true
        → works ≡ true
        → (outcome.1 ≡ returned true task_id)
          × (is_absent (view outcome.0 marker) ≡ false)
          × ((m : Text)
              → score m (view outcome.0 (key_of l.id buffer)).zset ≡ (
                  if same m (
                    stored_task time
                      (get_task_data_str C l task_id func_path payload)
                      (script_max_age max_age))
                  then some priority
                  else score m (view db (key_of l.id buffer)).zset))
          × ((j : Text)
              → same marker j ≡ false
              → same (key_of l.id buffer) j ≡ false
              → view outcome.0 j ≡ view db j)
    unfolding schedule_script
    schedule_task_fresh h w = (
      (outcome_fresh h w).1,
      rw (outcome_fresh h w).0 (simp (schedule_script, R.view-zadd, same-key_of) claimed-marker),
      λ m. rw (outcome_fresh h w).0 (
          simp (schedule_script, R.view-zadd, same_refl, score-insert, R.view-set_nx, same-key_of)),
      λ j n b. rw (outcome_fresh h w).0 (simp (R.view-zadd, R.view-set_nx, n, b)),
    )

  -- What the marker is after a call that has scheduled the task.
  abbrev held : Time → Option ℕ → View
  held time max_age = record absent {
    str = some (codes "1");
    expires = some (now_ms time + get_inflight_ttl l max_age * 1000);
  }

  scheduled-marker :
      (time : Time) (priority : ℤ) (max_age : Option ℕ) (db : Db)
      → is_absent (view db marker) ≡ true
      → view (outcome true time priority max_age db).0 marker ≡ held time max_age
  unfolding schedule_script
  scheduled-marker time priority max_age db h =
      rw (outcome_fresh true time priority max_age db h refl).0
        (simp (schedule_script, R.view-zadd, same-key_of, R.view-set_nx, same_refl, h))

  -- The marker at a later time.
  passed-marker :
      (time later : Time) (priority : ℤ) (max_age : Option ℕ) (db : Db) (gone : Bool)
      → is_absent (view db marker) ≡ true
      → leb (now_ms time + get_inflight_ttl l max_age * 1000) (now_ms later) ≡ gone
      → is_absent (view (R.pass (now_ms later) (outcome true time priority max_age db).0) marker)
        ≡ gone
  passed-marker time later priority max_age db true h e =
      rw (R.view-pass, scheduled-marker time priority max_age db h, e) refl
  passed-marker time later priority max_age db false h e =
      rw (R.view-pass, scheduled-marker time priority max_age db h, e) refl

  -- When the task's marker was absent, a task is scheduled once until its marker expires: a second
  -- call, with nothing but time between the two, before the time of the first one's marker is over,
  -- at any priority and age, and whether the script works or not, reports that it scheduled
  -- nothing, and changes no key.
  pub schedule_task_twice :
      (time later : Time) (priority other : ℤ) (max_age age : Option ℕ) (works : Bool) (db : Db)
      → is_absent (view db marker) ≡ true
      → now_ms later < now_ms time + get_inflight_ttl l max_age * 1000
      → let first = outcome true time priority max_age db in
        let passed = R.pass (now_ms later) first.0 in
        let second = outcome works later other age passed in
        (first.1 ≡ returned true task_id)
        × (second.1 ≡ returned false task_id)
        × ((j : Text) → view second.0 j ≡ view passed j)
  schedule_task_twice time later priority other max_age age works db h early =
      let (done, _, _, _) = schedule_task_fresh true time priority max_age db h refl in
      let marked = passed-marker time later priority max_age db false h (ground arith) in
      let (refused, kept) = schedule_task_taken works later other age _ marked in
      (done, refused, kept)

  -- When the task's marker was absent, and the task has been scheduled: a second call, with nothing
  -- but time between the two, at which the time of the first one's marker is over, and whose script
  -- works, reports that it scheduled the task again, and the buffer holds what it stored, at its
  -- own priority.
  pub schedule_task_again :
      (time later : Time) (priority other : ℤ) (max_age age : Option ℕ) (db : Db)
      → is_absent (view db marker) ≡ true
      → now_ms time + get_inflight_ttl l max_age * 1000 ≤ now_ms later
      → let passed = R.pass (now_ms later) (outcome true time priority max_age db).0 in
        let second = outcome true later other age passed in
        (second.1 ≡ returned true task_id)
        × (score
              (stored_task later
                (get_task_data_str C l task_id func_path payload)
                (script_max_age age))
              (view second.0 (key_of l.id buffer)).zset
            ≡ some other)
  schedule_task_again time later priority other max_age age db h late =
      let absent_again = passed-marker time later priority max_age db true h (ground arith) in
      let (done, _, queued, _) = schedule_task_fresh true later other age _ absent_again refl in
      (done, simp (queued, same_refl))

  -- When the lifecycle of a task whose name is not empty ends, its lease and its marker are gone, no
  -- key but the concurrency set and the marker has changed, the worker is published on the drain
  -- channel, and the local drain loop is woken.
  pub exit_lifecycle_lem :
      (db : Db)
      → same task_id [] ≡ false
      → let (db', released, events) = exit_lifecycle R l task_id db in
        (score task_id (view db' (key_of l.id concurrency)).zset ≡ none)
        × (is_absent (view db' marker) ≡ true)
        × (events ≡ publish (key_of l.id drain_signal) l.worker_id ∷ wake ∷ [])
        × ((j : Text)
            → same marker j ≡ false
            → same (key_of l.id concurrency) j ≡ false
            → view db' j ≡ view db j)
  unfolding exit_lifecycle release_script
  exit_lifecycle_lem db h =
      rw (h, get_inflight_key-eq)
        (
          simp (R.view-del, R.view-zrem, same-key_of, same_refl, score-remove),
          simp (R.view-del, same_refl),
          refl,
          λ j n c. simp (R.view-del, R.view-zrem, n, c),
        )
