-- ===== src/Async/Drain/Agreement.antt =====
-- A drain that nothing interrupts does what the synchronous one does.
use redis_rate_limiter.Prelude.{
  ℕ, ◌-◌, ◌*◌, ◌^◌, min, arith, ◌≡◌, refl, ap, ◌∙◌, Bool, true, false, Option, none, some, List, [],
  ◌∷◌, ◌++◌, ltb, leb, if◌then◌else◌, Bool-cases, inl, inr,
}
use mathlib.Core.List.{append_assoc, append-nil}
use redis_rate_limiter.Prelude.Text.{Text}
use redis_rate_limiter.Redis.{Redis}
use redis_rate_limiter.Limiter.{Limiter}
use redis_rate_limiter.Limiter.Consume.{ConsumeResult, consume}
use redis_rate_limiter.Scripts.Clock.{Time}
use redis_rate_limiter.Scripts.Task.{Task, is_marker}
use redis_rate_limiter.Drain.{
  Action, schedule_drain, Drained, Draw, Clocks, dispatch, after_consume, settle, retry_delay,
  backoff_delay, drain_inner, drain_unless_paused, drain,
}
use redis_rate_limiter.Async.{Co, done, ◌>>=◌, complete, complete-bind}
use redis_rate_limiter.Async.Drain.{
  Draining, ask, dispatch_async, conclude, retry_delay_async, stop_actions, after_consume_async,
  after_reply, settle_async, drain_inner_async, drain_unless_paused_async, after_refresh,
  drain_async,
}

-- What a part of a drain has done: its actions are added, and it tells whether it raised.
abbrev asked : {R : Redis} → Draining R → Drained → Draining R × Bool
asked s d = (record s { actions = s.actions ++ d.actions }, d.raised)

complete-dispatch_async :
    {R : Redis} (accepts : Task → Bool) (o : Option Task) (n : ℕ) (s : Draining R)
    → complete (dispatch_async accepts o n) s ≡ asked s (dispatch accepts o n)
unfolding complete dispatch_async dispatch ask
complete-dispatch_async accepts none n s = simp (append-nil)
complete-dispatch_async accepts (some task) n s = elim (Bool-cases (is_marker task)) [
  | inl marker ↦ rw marker refl
  | inr other ↦ elim (Bool-cases (accepts task)) [
    | inl fine ↦ rw (other, fine) (simp (append_assoc))
    | inr broken ↦ rw (other, broken) refl
  ]
]

retry_delay_async-eq :
    (l : Limiter) (draw : Draw) (r : ConsumeResult)
    → retry_delay_async l draw r ≡ retry_delay l draw r
unfolding retry_delay_async retry_delay
retry_delay_async-eq l draw r = elim (Bool-cases (leb r.val_previous 0)) [
  | inl none_before ↦ rw none_before refl
  | inr some_before ↦ rw some_before refl
]

-- Where nothing was admitted and it has not yielded, both ask for the same, and do not raise.
stop_actions-eq :
    (accepts : Task → Bool) (l : Limiter) (draw : Draw) (r : ConsumeResult)
    → r.yielded ≡ false
    → r.success ≡ false
    → after_consume accepts l draw r ≡ record { actions = stop_actions l draw r; raised = false }
unfolding after_consume stop_actions
stop_actions-eq accepts l draw r n lost = rw (n, lost, retry_delay_async-eq) (ground arith)

after_consume_async-conclude :
    {R : Redis} (accepts : Task → Bool) (draw : Draw) (r : ConsumeResult)
    → r.yielded ≡ false
    → r.success ≡ false
    → after_consume_async {R = R} accepts draw r ≡ conclude draw r
unfolding after_consume_async
after_consume_async-conclude accepts draw r n lost = simp (n, lost)

complete-stopped :
    {R : Redis} (accepts : Task → Bool) (draw : Draw) (r : ConsumeResult) (s : Draining R)
    → r.yielded ≡ false
    → r.success ≡ false
    → complete (after_consume_async accepts draw r) s
      ≡ asked s (after_consume accepts s.limiter draw r)
unfolding complete conclude
complete-stopped accepts draw r s n lost =
    rw
      (
        after_consume_async-conclude accepts draw r n lost,
        stop_actions-eq accepts s.limiter draw r n lost,
      )
      refl

complete-after_consume_async :
    {R : Redis} (accepts : Task → Bool) (draw : Draw) (r : ConsumeResult) (s : Draining R)
    → complete (after_consume_async accepts draw r) s
      ≡ asked s (after_consume accepts s.limiter draw r)
unfolding complete after_consume_async conclude after_consume
complete-after_consume_async accepts draw r s = elim (Bool-cases r.yielded) [
  | inl y ↦ rw y refl
  | inr n ↦ elim (Bool-cases r.success) [
    | inl won ↦ rw (n, won) (complete-dispatch_async accepts r.task r.remaining_tasks s)
    | inr lost ↦ complete-stopped accepts draw r s n lost
  ]
]

backoff_delay-eq : (l : Limiter) (n : ℕ) → backoff_delay l n ≡ min l.window_ms (2 ^ (n - 1) * 100)
unfolding backoff_delay
backoff_delay-eq l n = ap (λ (d : ℕ). min l.window_ms d) (omega arith)

complete-settle_async :
    {R : Redis} (d : Drained) (raised : Bool) (s t : Draining R)
    → d.raised ≡ raised
    → t ≡ record s { actions = s.actions ++ d.actions }
    → complete (settle_async raised) t ≡ (
      record s { limiter = (settle s.limiter d).0; actions = s.actions ++ (settle s.limiter d).1 },
      tt,
    )
unfolding complete settle_async settle
complete-settle_async d true s t raised e = rw (e, raised, backoff_delay-eq) (simp (append_assoc))
complete-settle_async d false s t fine e = rw (e, fine) refl

module _ (R : Redis) (loads : Text → Task) (accepts : Task → Bool) where
  complete-drain_inner_async :
      (time : Time) (capacity : Bool) (draw : Draw) (s : Draining R)
      → let (db', d) = drain_inner R loads accepts time capacity draw s.limiter s.db in
        complete (drain_inner_async R loads accepts time capacity draw) s
        ≡ asked (record s { db = db' }) d
  unfolding complete drain_inner drain_inner_async after_reply
  complete-drain_inner_async time false draw s = refl
  complete-drain_inner_async time true draw s =
      elim (consume R loads time s.limiter s.db).1
        as (λ o.
          let d = elim o as (λ _. Drained) [
            | none ↦ record { actions = []; raised = true }
            | some r ↦ after_consume accepts s.limiter draw r
          ] in
          complete (after_reply accepts draw o)
            (record s { db = (consume R loads time s.limiter s.db).0 })
          ≡ asked (record s { db = (consume R loads time s.limiter s.db).0 }) d) [
            | none ↦ simp (append-nil)
            | some r ↦
                complete-after_consume_async accepts draw r
                  (record s { db = (consume R loads time s.limiter s.db).0 })
          ]

  complete-paused :
      (paused : Bool) (clocks : Clocks) (capacity : Bool) (draw : Draw) (s : Draining R)
      → let pause =
          schedule_drain (record { num = s.limiter.drain_paused_until - clocks.wall; den = 1 })
          ∷ [] in
        let (db', d) = drain_inner R loads accepts clocks.server capacity draw s.limiter s.db in
        let (l', actions) = settle s.limiter d in
        let (db'', l'', actions'') =
          if◌then◌else◌ {A = R.Db × Limiter × List Action} paused
            (s.db, s.limiter, pause)
            (db', l', actions) in
        complete
          (if paused
            then ask pause (done tt)
            else drain_inner_async R loads accepts clocks.server capacity draw >>= settle_async)
          s
        ≡ (record { db = db''; limiter = l''; actions = s.actions ++ actions'' }, tt)
  unfolding complete ask
  complete-paused true clocks capacity draw s = refl
  complete-paused false clocks capacity draw s =
      let (db', d) = drain_inner R loads accepts clocks.server capacity draw s.limiter s.db in
      let inner = complete-drain_inner_async clocks.server capacity draw s in
      complete-bind (drain_inner_async R loads accepts clocks.server capacity draw) settle_async s
      ∙ (rw (ap (λ x. x.1) inner)
          (complete-settle_async d d.raised (record s { db = db' }) _ refl (ap (λ x. x.0) inner)))

  complete-drain_unless_paused_async :
      (clocks : Clocks) (capacity : Bool) (draw : Draw) (s : Draining R)
      → let (db', l', actions) =
          drain_unless_paused R loads accepts clocks capacity draw s.limiter s.db in
        complete (drain_unless_paused_async R loads accepts clocks capacity draw) s
        ≡ (record { db = db'; limiter = l'; actions = s.actions ++ actions }, tt)
  unfolding complete drain_unless_paused drain_unless_paused_async
  complete-drain_unless_paused_async clocks capacity draw s =
      complete-paused (ltb clocks.wall s.limiter.drain_paused_until) clocks capacity draw s

  -- The end of a refresh, which raised or gave a limiter.
  complete-after_refresh :
      (o : Option Limiter) (clocks : Clocks) (capacity : Bool) (draw : Draw) (s : Draining R)
      → let failed = settle s.limiter (record { actions = []; raised = true }) in
        let (db', l', actions) = elim o as (λ _. R.Db × Limiter × List Action) [
          | none ↦ (s.db, failed.0, failed.1)
          | some fresh ↦ drain_unless_paused R loads accepts clocks capacity draw fresh s.db
        ] in
        let (t, raised) = elim o as (λ _. Draining R × Bool) [
          | none ↦ (s, true)
          | some l ↦ (record s { limiter = l }, false)
        ] in
        complete (after_refresh R loads accepts clocks capacity draw raised) t
        ≡ (record { db = db'; limiter = l'; actions = s.actions ++ actions }, tt)
  unfolding complete after_refresh settle_async
  complete-after_refresh none clocks capacity draw s =
      complete-settle_async (record { actions = []; raised = true }) true s s refl
        (simp (append-nil))
  complete-after_refresh (some l) clocks capacity draw s =
      complete-drain_unless_paused_async clocks capacity draw (record s { limiter = l })

  module _ (refresh_config : Co (Draining R) Bool) (refresh : Limiter → Option Limiter) where
    -- refresh_config, run alone, does what the synchronous drain takes for it.
    abbrev pub Refreshes : Type 0
    Refreshes =
        (s : Draining R)
        → complete refresh_config s ≡ elim (refresh s.limiter) as (λ _. Draining R × Bool) [
          | none ↦ (s, true)
          | some l ↦ (record s { limiter = l }, false)
        ]

    complete-due :
        Refreshes
        → (due : Bool) (clocks : Clocks) (capacity : Bool) (draw : Draw) (s : Draining R)
        → let stamped = record s.limiter { last_refresh_at = clocks.monotonic } in
          let failed = settle stamped (record { actions = []; raised = true }) in
          let (db', l', actions) =
            if◌then◌else◌ {A = R.Db × Limiter × List Action} due
              (elim (refresh stamped) as (λ _. R.Db × Limiter × List Action) [
                | none ↦ (s.db, failed.0, failed.1)
                | some fresh ↦ drain_unless_paused R loads accepts clocks capacity draw fresh s.db
              ])
              (drain_unless_paused R loads accepts clocks capacity draw s.limiter s.db) in
          complete
            (if due
              then refresh_config >>= after_refresh R loads accepts clocks capacity draw
              else drain_unless_paused_async R loads accepts clocks capacity draw)
            (if due then record s { limiter = stamped } else s)
          ≡ (record { db = db'; limiter = l'; actions = s.actions ++ actions }, tt)
    complete-due agrees false clocks capacity draw s =
        complete-drain_unless_paused_async clocks capacity draw s
    complete-due agrees true clocks capacity draw s =
        let stamped = record s {
          limiter = record s.limiter { last_refresh_at = clocks.monotonic };
        } in
        complete-bind refresh_config (after_refresh R loads accepts clocks capacity draw) stamped
        ∙ rw (agrees stamped)
            (complete-after_refresh (refresh stamped.limiter) clocks capacity draw stamped)

    -- A drain of the asynchronous limiter that no other coroutine interrupts does to the database and
    -- to the limiter what the synchronous one does, and asks for the same, in the same order, if its
    -- refresh_config, run alone, does what the synchronous drain takes for it.
    pub complete-drain_async :
        Refreshes
        → (clocks : Clocks) (capacity : Bool) (draw : Draw) (s : Draining R)
        → let (db', l', actions) =
            drain R loads accepts refresh clocks capacity draw s.limiter s.db in
          complete (drain_async R loads accepts refresh_config clocks capacity draw) s
          ≡ (record { db = db'; limiter = l'; actions = s.actions ++ actions }, tt)
    unfolding complete drain drain_async
    complete-drain_async agrees clocks capacity draw s =
        complete-due agrees (leb 1000 (clocks.monotonic - s.limiter.last_refresh_at)) clocks
          capacity draw s
