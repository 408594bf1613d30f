-- ===== src/Examples/Shutdown.antt =====
-- The shutdown of an asynchronous limiter.
use redis_rate_limiter.Prelude.{refl, true, List, [], ◌∷◌}
use redis_rate_limiter.Prelude.Text.{codes}
use redis_rate_limiter.Subscriber.{is_foreign, nothing}
use redis_rate_limiter.Async.Lifespan.{
  AsyncBackground, new_background, start_async, AsyncHappening, loop_goes, wake_arrives,
  listener_goes, monitor_goes, drain_asked, proceeds, occur_all_async,
}
use redis_rate_limiter.Async.Lifespan.Parts.{drains_of, heard_by, checks_of}
use redis_rate_limiter.Async.Lifespan.Ending.{the_rest}
use redis_rate_limiter.Async.Lifespan.Over.{IsSilent, shutdown-IsSilent}

-- An asynchronous limiter that has been started.
abbrev started : AsyncBackground
started = start_async (new_background true true)

abbrev async_events : List AsyncHappening
async_events =
    drain_asked 5 0
    ∷ wake_arrives 0
    ∷ loop_goes 6
    ∷ monitor_goes
    ∷ listener_goes 7 nothing
    ∷ proceeds
    ∷ []

abbrev ended : AsyncBackground
ended =
    occur_all_async (is_foreign (codes "w1")) (the_rest 9)
      (occur_all_async (is_foreign (codes "w1")) async_events started)

shutdown-IsSilent_example :
    IsSilent (drains_of ended.drain_loop) (heard_by ended.subscriber) (checks_of ended.monitor) (
      occur_all_async
        (is_foreign (codes "w1"))
        (drain_asked 20 0 ∷ wake_arrives 0 ∷ loop_goes 21 ∷ [])
        ended)
unfolding start_async new_background
shutdown-IsSilent_example =
    shutdown-IsSilent (is_foreign (codes "w1")) async_events
      (drain_asked 20 0 ∷ wake_arrives 0 ∷ loop_goes 21 ∷ []) 9 started refl
