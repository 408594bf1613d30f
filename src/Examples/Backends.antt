-- ===== src/Examples/Backends.antt =====
-- A pool of two workers.
use redis_rate_limiter.Prelude.{[], ◌∷◌, List}
use redis_rate_limiter.Prelude.Text.{codes}
use redis_rate_limiter.Backends.{new_pool, PoolEvent, drains, completes, submitted, submit_error}
use redis_rate_limiter.Backends.Capacity.{thread_all, process_all, IsLeft, all-IsLeft}

abbrev events : List PoolEvent
events =
    drains submitted (codes "a")
    ∷ drains submit_error (codes "b")
    ∷ drains submitted (codes "c")
    ∷ completes 0
    ∷ []

all-IsLeft_example :
    IsLeft 2 (thread_all events (new_pool 2)) × IsLeft 2 (process_all events (new_pool 2))
all-IsLeft_example = all-IsLeft 2 events
