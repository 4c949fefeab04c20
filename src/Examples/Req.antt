-- ===== src/Examples/Req.antt =====
-- Requests of req.cpp.
use redis_agent.Base.{
  ℕ, List, ◌+◌, ◌%◌, if◌then◌else◌, ◌≡◌, ◌==◌, refl, [], ◌∷◌, none, some, true, false, arith,
}
use redis_agent.Base.Int.{pos, ◌-ℤ◌}
use redis_agent.Pool.Links.{blank}
use redis_agent.Req.{
  before_request_pool, broken, timeout_connect_cleanup, pop, cleanup_sub, req_fail, req_done,
  req_cleanup, Req, pool_returned, req_create, req_timeout, req_on_shard_done,
  store_err_service_timeout,
}
use redis_agent.Router.Sort.{Batch}
use redis_agent.Router.Acquire.{set_count, call}
use redis_agent.Req.{queued, run_actions}
use redis_agent.Req.Once.{Once, start}
use redis_agent.Req.Release.{
  Event, handle_event, sized, started, answered, got, timed_out, handle_events,
  req_create-given_back,
}
use redis_agent.Req.Release.Effects.{handed, given_back}
use redis_agent.Req.Release.Held.{held}
use redis_agent.Pool.Links.Segment.{has}
use redis_agent.Req.{
  acquired, freed, req_on_getshards, req_on_acquired, shard_counted, release_handle,
}
use redis_agent.Req.Timeout.{finished, all_given_up, req_timeout-finished}

-- The router starts the one sub request and it gets its connection; its answer ends the request.
abbrev one_answer : Req
one_answer =
    let r =
      run_actions (λ p. acquired true 7) 0
        (set_count 1 ∷ call (record { start = 0; num = 1; shard = some 0 }) ∷ [])
        (req_create true) in
    req_on_shard_done false (some 0) r

-- A request with two sub requests on their way.
abbrev two_shards : Req
two_shards = record (req_create true) { shard_count = pos 2 }

-- Two sub requests: one is answered, the other gets its connection later, and the time is up
-- before its answer.
abbrev two_connections : List Event
two_connections =
    sized 2
    ∷ started (acquired true 7) 0 (record { start = 0; num = 1; shard = some 0 })
    ∷ started (queued 3) 1 (record { start = 1; num = 1; shard = some 1 })
    ∷ answered false 0
    ∷ got true 8 1
    ∷ timed_out 3
    ∷ []

req_create-given_back_example :
    let r = handle_events two_connections (req_create true) in
    handed 7 r.log ≡ given_back 7 r.log + held 7 (λ p. (r.subs p).handle) (1 ∷ [])
unfolding has handle_event req_create req_on_getshards req_on_acquired req_on_shard_done
    shard_counted release_handle ◌-ℤ◌
req_create-given_back_example =
    req_create-given_back true two_connections 7
      (refl, tt, (refl, refl, (refl, refl, (refl, refl, (refl, refl, (refl, tt, tt))))))

-- A request whose sub request 0 is with the backend.
abbrev with_backend : Req
with_backend = record (req_create true) {
  shard_count = pos 1;
  not_done = record { nodes = λ p. blank; head = some 0 };
  subs = λ p. record {
    keys = record { start = 0; num = 1; shard = some 0 };
    handle = some 3;
    state = pool_returned;
    pool_waiting_node = none;
  };
}

req_timeout-finished_example :
    let t = req_timeout 1 with_backend in
    (t.log ≡ finished true (all_given_up with_backend.subs (0 ∷ []) []))
    × (t.life ≡ freed)
    × (t.err_no ≡ store_err_service_timeout)
    × (t.not_done.head ≡ none)
unfolding req_create
req_timeout-finished_example =
    req_timeout-finished 1 with_backend (0 ∷ [])
      (record { head = refl; tail = some 0; links = (refl, refl, refl); distinct = (refl, tt) })
      (refl, tt) (omega arith) refl refl

-- Where the pool refused the sub request, the timeout reads through NULL.
abbrev with_refused : Req
with_refused = record (with_backend) {
  subs = λ p. record {
    keys = record { start = 0; num = 1; shard = some 0 };
    handle = none;
    state = before_request_pool;
    pool_waiting_node = none;
  };
}

refused_test : (req_timeout 1 with_refused).life ≡ broken
unfolding req_timeout timeout_connect_cleanup pop cleanup_sub req_fail req_create
refused_test = refl

-- An answer that comes behind the timeout comes to freed memory.
late_test : (req_on_shard_done true (some 0) (req_timeout 1 with_backend)).life ≡ broken
unfolding req_timeout timeout_connect_cleanup pop cleanup_sub req_fail req_done req_cleanup
    req_create req_on_shard_done ◌-ℤ◌
late_test = refl

-- Three keys, of which the second is of shard 0 and the others are of shard 1.
abbrev three_keys : Batch
three_keys i = record { key = (if i == 1 then 2 else 3) ∷ []; value = i; shard_key = 0 }

abbrev parity : List ℕ → ℕ
parity [] = 0
parity (b ∷ bs) = b % 2
