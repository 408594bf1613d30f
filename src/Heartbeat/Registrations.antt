-- ===== src/Heartbeat/Registrations.antt =====
-- Registering and deregistering keep the other tasks of the heartbeat covered.
use redis_rate_limiter.Prelude.{
  ℕ, ◌+◌, ◌≡◌, refl, ap, ◌∙◌, sym, subst, inl, inr, true, false, some, [], arith, Bool-cases,
}
use redis_rate_limiter.Prelude.Text.{Text, same, same→eq}
use redis_rate_limiter.Heartbeat.{
  Action, Scheduler, put, heappush, ensure_started, register, deregister,
}
use redis_rate_limiter.Heartbeat.Turns.{awaits-heappush, is_renewing, IsCovered}

started-entries : (s : Scheduler) → (ensure_started s).entries ≡ s.entries
unfolding ensure_started
started-entries s = ground arith

started-heap : (s : Scheduler) → (ensure_started s).heap ≡ s.heap
unfolding ensure_started
started-heap s = ground arith

started_renewing :
    (id : Text) (s : Scheduler) → is_renewing id (ensure_started s).thread ≡ is_renewing id s.thread
unfolding ensure_started
started_renewing id s = ground arith

pub deregister-IsCovered : (id : Text) (s : Scheduler) → IsCovered s → IsCovered (deregister id s)
unfolding deregister
deregister-IsCovered id s c j e n h = ground (arith, c j e n)

-- Registering, but for the start of the thread.
abbrev entered : ℕ → ℕ → Text → Action → Scheduler → Scheduler
entered interval now id action s = record s {
  entries =
      put id (some (record { on_failure = action; is_healthy = true; generation = 0 })) s.entries;
  heap = heappush (record { due = now + interval; task_id = id; generation = 0 }) s.heap;
}

register-named :
    (interval now : ℕ) (id : Text) (action : Action) (s : Scheduler)
    → same id [] ≡ false
    → register interval now id action s ≡ ensure_started (entered interval now id action s)
unfolding register
register-named interval now id action s n = rw n refl

register-unnamed :
    (interval now : ℕ) (id : Text) (action : Action) (s : Scheduler)
    → same id [] ≡ true
    → register interval now id action s ≡ record s {
      entries =
          put id
            (some (record { on_failure = action; is_healthy = true; generation = 0 }))
            s.entries;
    }
unfolding register
register-unnamed interval now id action s n = rw n refl

entered-IsCovered :
    (interval now : ℕ) (id : Text) (action : Action) (s : Scheduler)
    → IsCovered s
    → IsCovered (entered interval now id action s)
entered-IsCovered interval now id action s c j e n h = elim (Bool-cases (same id j)) [
  | inl q ↦
      rw
        (awaits-heappush j e.generation
          (record { due = now + interval; task_id = id; generation = 0 }) s.heap)
        (ground arith)
  | inr q ↦
      rw
        (awaits-heappush j e.generation
          (record { due = now + interval; task_id = id; generation = 0 }) s.heap)
        (ground (arith, c j e n (rw q at h)))
]

started-IsCovered : (s : Scheduler) → IsCovered s → IsCovered (ensure_started s)
started-IsCovered s c j e n h =
    rw (started-heap s, started_renewing j s)
      (c j e n (sym (ap (λ f. f j) (started-entries s)) ∙ h))

pub register-IsCovered :
    (interval now : ℕ) (id : Text) (action : Action) (s : Scheduler)
    → IsCovered s
    → IsCovered (register interval now id action s)
register-IsCovered interval now id action s c = elim (Bool-cases (same id [])) [
  | inr n ↦
      subst IsCovered (sym (register-named interval now id action s n))
        (started-IsCovered _ (entered-IsCovered interval now id action s c))
  | inl n ↦ subst IsCovered (sym (register-unnamed interval now id action s n)) (λ j e m h.
      elim (Bool-cases (same id j)) [
        | inl q ↦ ground (arith, ap (λ x. same x []) (same→eq id j q))
        | inr q ↦ c j e m (rw q at h)
      ])
]
