-- ===== src/Heartbeat/Turns.antt =====
-- What a turn of the heartbeat thread leaves in the heap.
use redis_rate_limiter.Prelude.{
  ℕ, ◌≡◌, refl, ap, ◌∙◌, sym, inl, inr, Bool, true, false, ◌&&◌, ◌||◌, Option, some, List, [], ◌∷◌,
  arith, ◌==◌, Bool-cases, ltb,
}
use redis_rate_limiter.Prelude.Text.{Text, same, same→eq}
use redis_rate_limiter.Heartbeat.{
  Entry, Tuple, Thread, renewing, stopped, looping, Scheduler, heappush, comes_before, take, turn,
}

-- Whether the heap has a tuple of the task at the generation.
abbrev pub is_for : Text → ℕ → Tuple → Bool
is_for id g t = same t.task_id id && t.generation == g

unfoldable pub awaits : Text → ℕ → List Tuple → Bool
awaits id g [] = false
awaits id g (t ∷ heap) = is_for id g t || awaits id g heap

pub awaits-heappush :
    (id : Text) (g : ℕ) (t : Tuple) (heap : List Tuple)
    → awaits id g (heappush t heap) ≡ (is_for id g t || awaits id g heap)
unfolding awaits heappush
awaits-heappush id g t [] = refl
awaits-heappush id g t (u ∷ heap) = elim (Bool-cases (comes_before t u)) [
  | inl e ↦ rw e
  | inr e ↦ rw (e, awaits-heappush id g t heap) (ground arith)
]

-- The thread is renewing the task.
abbrev pub is_renewing : Text → Thread → Bool
is_renewing id stopped = false
is_renewing id looping = false
is_renewing id (renewing j action) = same j id

-- Each registered task with a name has a tuple of its generation in the heap, or is being renewed.
abbrev pub IsCovered : Scheduler → Type 0
IsCovered s =
    (id : Text) (e : Entry)
    → same id [] ≡ false
    → s.entries id ≡ some e
    → (awaits id e.generation s.heap || is_renewing id s.thread) ≡ true

-- The same, for what the entry, the heap and the thread are.
abbrev pub covers : Text → Entry → List Tuple → Thread → Bool
covers id e heap thread = awaits id e.generation heap || is_renewing id thread

take-covers :
    (t : Tuple) (rest : List Tuple) (s : Scheduler) (o : Option Entry)
    → s.entries t.task_id ≡ o
    → (id : Text) (e : Entry) → s.entries id ≡ some e
    → awaits id e.generation (t ∷ rest) ≡ true
    → covers id e (take t rest o s).heap (take t rest o s).thread ≡ true
unfolding take awaits
take-covers t rest s o at id e h c = elim (Bool-cases (same t.task_id id)) [
  | inl q ↦ ground (arith, ap s.entries (same→eq t.task_id id q))
  | inr q ↦ ground arith
]

take-entries :
    (t : Tuple) (rest : List Tuple) (s : Scheduler) (o : Option Entry)
    → (take t rest o s).entries ≡ s.entries
unfolding take
take-entries t rest s o = ground arith

turn-covers :
    (now : ℕ) (s : Scheduler) (heap : List Tuple)
    → s.thread ≡ looping
    → heap ≡ s.heap
    → (id : Text) (e : Entry) → s.entries id ≡ some e
    → awaits id e.generation heap ≡ true
    → covers id e (turn now heap s).heap (turn now heap s).thread ≡ true
unfolding turn awaits
turn-covers now s [] l q id e h c = ground arith
turn-covers now s (t ∷ rest) l q id e h c = elim (Bool-cases (ltb now t.due)) [
  | inl w ↦ rw w (ground (arith, ap (awaits id e.generation) q, c))
  | inr w ↦ rw w (take-covers t rest s (s.entries t.task_id) refl id e h c)
]

turn-entries : (now : ℕ) (heap : List Tuple) (s : Scheduler) → (turn now heap s).entries ≡ s.entries
unfolding turn
turn-entries now [] s = refl
turn-entries now (t ∷ rest) s = elim (Bool-cases (ltb now t.due)) [
  | inl w ↦ rw w refl
  | inr w ↦ rw w (take-entries t rest s (s.entries t.task_id))
]

pub turn-IsCovered :
    (now : ℕ) (s : Scheduler) → s.thread ≡ looping → IsCovered s → IsCovered (turn now s.heap s)
turn-IsCovered now s l c id e n h =
    let found : s.entries id ≡ some e = sym (ap (λ f. f id) (turn-entries now s.heap s)) ∙ h in
    turn-covers now s s.heap l refl id e found (ground (arith, c id e n found))
