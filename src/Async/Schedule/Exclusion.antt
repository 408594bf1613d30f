-- ===== src/Async/Schedule/Exclusion.antt =====
-- How many calls of schedule_task for one task schedule it, however they interleave.
use redis_rate_limiter.Prelude.{
  ℕ, zero, suc, ◌+◌, ◌≤◌, ◌≡◌, refl, ap, subst, List, [], ◌∷◌, arith, map,
}
use redis_rate_limiter.Prelude.Text.{Text}
use redis_rate_limiter.Redis.{Redis}
use redis_rate_limiter.Limiter.Schedule.{Codec, Scheduled}
use redis_rate_limiter.Async.{Co, resume, resume_at}
use redis_rate_limiter.Async.Schedule.{
  Shared, schedule_task_async, enqueue, give_up, command, tell, cleanup_inflight_key,
}
use redis_rate_limiter.Async.Schedule.Holding.{
  Attempt, wins_of, Call, start, Holds, starting, queueing, giving_up, telling, ended, IsExclusive,
  resume-Goes, passed, lapsed, passed-IsExclusive,
}

-- How many of the calls have ended with (True, task_id).
abbrev pub count_scheduled : {S : Type 0} → List (Co S Scheduled) → ℕ
count_scheduled [] = 0
count_scheduled (c ∷ cs) = wins_of c + count_scheduled cs

-- A call runs on up to its next await, or the time of the server goes on to this one.
pub data Turn : Type 0 where
  runs : ℕ → Turn
  passes : ℕ → Turn

module _ (R : Redis) (C : Codec) (id : Text) (func_path : Text) (payload : C.Payload) where
  open R use {Db, view}

  -- Where the calls are, and how many of them hold the marker.
  abbrev AllHold : List (Call R C id func_path payload) → ℕ → Type 0
  AllHold [] n = n ≡ 0
  AllHold (c ∷ cs) n =
      (m : ℕ) × (k : ℕ) × Holds R C id func_path payload c m × AllHold cs k × (n ≡ m + k)

  -- Lets the calls and the time of the server go on in turns, and counts the expiries of the marker.
  unfoldable pub take_turns :
      List Turn
      → List (Call R C id func_path payload)
      → Shared R
      → ℕ × Shared R × List (Call R C id func_path payload)
  take_turns [] cs s = (0, s, cs)
  take_turns (runs i ∷ turns) cs s = take_turns turns (resume_at i cs s).1 (resume_at i cs s).0
  take_turns (passes now ∷ turns) cs s =
      let (expiries, t, ds) = take_turns turns cs (passed R C id func_path payload now s) in
      (expiries + lapsed R C id func_path payload now s, t, ds)

  resume_at-AllHold :
      (i : ℕ) (cs : List (Call R C id func_path payload)) (z n m : ℕ) (s : Shared R)
      → AllHold cs n
      → IsExclusive R C id func_path payload z (n + m) s
      → let (t, ds) = resume_at i cs s in
        (k : ℕ) × AllHold ds k × IsExclusive R C id func_path payload z (k + m) t
  unfolding resume_at
  resume_at-AllHold i [] z n m s h x = (n, h, x)
  resume_at-AllHold zero (c ∷ cs) z n m s (a, b, here, rest, e) x =
      let (k, goes, y) =
        resume-Goes R C id func_path payload c z a (b + m) s here
          (subst (λ j. IsExclusive R C id func_path payload z j s) (omega (arith, e)) x) in
      (
        k + b,
        (k, b, goes, rest, refl),
        subst (λ j. IsExclusive R C id func_path payload z j (resume c s).0) (omega arith) y,
      )
  resume_at-AllHold (suc i) (c ∷ cs) z n m s (a, b, here, rest, e) x =
      let (k, goes, y) =
        resume_at-AllHold i cs z b (a + m) s rest
          (subst (λ j. IsExclusive R C id func_path payload z j s) (omega (arith, e)) x) in
      (
        a + k,
        (a, k, here, goes, refl),
        subst (λ j. IsExclusive R C id func_path payload z j (resume_at i cs s).0) (omega arith) y,
      )

  take_turns-AllHold :
      (turns : List Turn) (cs : List (Call R C id func_path payload)) (z n : ℕ) (s : Shared R)
      → AllHold cs n
      → IsExclusive R C id func_path payload z (n + 0) s
      → let (expiries, t, ds) = take_turns turns cs s in
        (k : ℕ) × AllHold ds k × IsExclusive R C id func_path payload (z + expiries) (k + 0) t
  unfolding take_turns
  take_turns-AllHold [] cs z n s h x =
      (n, h, subst (λ j. IsExclusive R C id func_path payload j (n + 0) s) (omega arith) x)
  take_turns-AllHold (runs i ∷ turns) cs z n s h x =
      let (k, goes, y) = resume_at-AllHold i cs z n 0 s h x in
      take_turns-AllHold turns (resume_at i cs s).1 z k (resume_at i cs s).0 goes y
  take_turns-AllHold (passes now ∷ turns) cs z n s h x =
      let more = lapsed R C id func_path payload now s in
      let t = passed R C id func_path payload now s in
      let (k, goes, y) =
        take_turns-AllHold turns cs (z + more) n t h
          (passed-IsExclusive R C id func_path payload now z (n + 0) s x) in
      (
        k,
        goes,
        subst (λ j. IsExclusive R C id func_path payload j (k + 0) (take_turns turns cs t).1)
            (omega arith) y,
      )

  wins_of-Holds :
      (c : (Call R C id func_path payload)) (n : ℕ)
      → Holds R C id func_path payload c n
      → wins_of c ≤ n
  unfolding schedule_task_async enqueue give_up cleanup_inflight_key command tell
  wins_of-Holds c n (starting a e z) = omega (arith, z, ap wins_of e)
  wins_of-Holds c n (queueing a e z) = omega (arith, z, ap wins_of e)
  wins_of-Holds c n (giving_up a e z) = omega (arith, z, ap wins_of e)
  wins_of-Holds c n (telling _ next h e) = omega (arith, ap wins_of e)
  wins_of-Holds c n (ended r e z) = omega (arith, z, ap wins_of e)

  count_scheduled-AllHold :
      (cs : List (Call R C id func_path payload)) (n : ℕ) → AllHold cs n → count_scheduled cs ≤ n
  count_scheduled-AllHold [] n h = omega arith
  count_scheduled-AllHold (c ∷ cs) n (a, b, here, rest, e) =
      omega (arith, e, wins_of-Holds c a here, count_scheduled-AllHold cs b rest)

  start-AllHold :
      (attempts : List Attempt) → AllHold (map (start R C id func_path payload) attempts) 0
  start-AllHold [] = refl
  start-AllHold (a ∷ attempts) = (0, 0, starting a refl refl, start-AllHold attempts, refl)

  -- However many calls of schedule_task are made for one task, by coroutines of one process or of
  -- several, each with its own limiter object of this name, with whatever priorities, ages and times,
  -- however their steps interleave and the time of the server goes on between them, those of calls whose
  -- script fails included: the calls that return that they scheduled the task are at most one more than
  -- the times that its marker has expired.
  pub interleave-schedule_task_async :
      (attempts : List Attempt) (turns : List Turn) (s : Shared R)
      → let (expiries, t, calls) =
          take_turns turns (map (start R C id func_path payload) attempts) s in
        count_scheduled calls ≤ 1 + expiries
  interleave-schedule_task_async attempts turns s =
      let calls = map (start R C id func_path payload) attempts in
      let (k, held, x) =
        take_turns-AllHold turns calls 0 0 s (start-AllHold attempts)
          (omega arith, λ some. absurd (omega (arith, some))) in
      omega (arith, count_scheduled-AllHold (take_turns turns calls s).2 k held, x.0)
