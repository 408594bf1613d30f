-- ===== src/Subscriber.antt =====
-- DrainSignalSubscriber of src/redis_rate_limiter/core/limiters.py and AsyncDrainSignalSubscriber of
-- core/async_limiters.py: what the turns of their loops do with what a poll gives.
use redis_rate_limiter.Prelude.{ℕ, ◌+◌, ◌≡◌, refl, Bool, true, not, List, [], ◌∷◌, if◌then◌else◌}
use redis_rate_limiter.Prelude.Text.{Text, same, same_refl}

-- message["data"]: decoded by the client, or raw bytes
pub data SenderId : Type 0 where
  text bytes : Text → SenderId

-- get_message: nothing before its timeout, a message of another type, a published one, or an exception,
-- after which the loop goes on
pub data Poll : Type 0 where
  nothing control failed : Poll
  message : SenderId → Poll

-- sender_id != self._limiter._worker_id; bytes are never equal to a str
unfoldable pub is_foreign : Text → SenderId → Bool
is_foreign worker_id (text sender) = not (same sender worker_id)
is_foreign worker_id (bytes sender) = true

-- The same, with bytes decoded first.
unfoldable pub is_foreign_decoded : (Text → Text) → Text → SenderId → Bool
is_foreign_decoded decode worker_id (text sender) = not (same sender worker_id)
is_foreign_decoded decode worker_id (bytes sender) = not (same (decode sender) worker_id)

-- How often the loop calls _schedule_drain.
unfoldable pub listen : (SenderId → Bool) → List Poll → ℕ
listen foreign [] = 0
listen foreign (nothing ∷ polls) = listen foreign polls
listen foreign (control ∷ polls) = listen foreign polls
listen foreign (failed ∷ polls) = listen foreign polls
listen foreign (message sender ∷ polls) = (if foreign sender then 1 else 0) + listen foreign polls

-- A client that decodes responses gives text.
abbrev IsDecoded : List Poll → Type 0
IsDecoded [] = Unit {0}
IsDecoded (message (bytes sender) ∷ polls) = ⊥
IsDecoded (_ ∷ polls) = IsDecoded polls

-- With a client that decodes responses, both subscribers wake the drain loop as often.
listen-IsDecoded :
    (decode : Text → Text) (worker_id : Text) (polls : List Poll)
    → IsDecoded polls
    → listen (is_foreign worker_id) polls ≡ listen (is_foreign_decoded decode worker_id) polls
unfolding listen is_foreign is_foreign_decoded
listen-IsDecoded decode w [] h = refl
listen-IsDecoded decode w (nothing ∷ polls) h = listen-IsDecoded decode w polls h
listen-IsDecoded decode w (control ∷ polls) h = listen-IsDecoded decode w polls h
listen-IsDecoded decode w (failed ∷ polls) h = listen-IsDecoded decode w polls h
listen-IsDecoded decode w (message (text s) ∷ polls) h = rw (listen-IsDecoded decode w polls h) refl
listen-IsDecoded decode w (message (bytes s) ∷ polls) h = absurd h

-- With a client that does not, the message that a worker has sent itself wakes the synchronous one, and
-- not the asynchronous one.
listen_own :
    (decode : Text → Text) (worker_id raw : Text)
    → decode raw ≡ worker_id
    → (listen (is_foreign worker_id) (message (bytes raw) ∷ []) ≡ 1)
      × (listen (is_foreign_decoded decode worker_id) (message (bytes raw) ∷ []) ≡ 0)
unfolding listen is_foreign is_foreign_decoded
listen_own decode w raw e = rw (e, same_refl) (refl, refl)
