-- ===== src/Req/Whole.antt =====
-- A request from the grouping of its keys (router.cpp) to its answer (req.cpp).
use redis_agent.Base.{ℕ, ◌≡◌, Bool, true, false}
use redis_agent.Base.Int.{pos}
use redis_agent.Router.Acquire.{Action, set_count, drop_count, call}
use redis_agent.Req.{Req, Fetch, refused, queued, acquired}

abbrev pub is_refused : Fetch → Bool
is_refused refused = true
is_refused (queued w) = false
is_refused (acquired ok h) = false

abbrev sets_count : Action → Bool
sets_count (set_count n) = true
sets_count drop_count = false
sets_count (call c) = false

-- What a sub request that the pool takes leaves alone.
record Taken (r t : Req) : Type 0 where
  count : t.shard_count ≡ r.shard_count
  done : t.req_done_called ≡ r.req_done_called
  timeout : t.timeout ≡ r.timeout
  life : t.life ≡ r.life

-- After the actions of a loop that takes `drops acts` off the count.
record Left (r t : Req) (k : ℕ) : Type 0 where
  count : t.shard_count ≡ pos k
  done : t.req_done_called ≡ r.req_done_called
  timeout : t.timeout ≡ r.timeout
  life : t.life ≡ r.life
