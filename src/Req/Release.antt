-- ===== src/Req/Release.antt =====
-- The connections of a request of req.cpp: each one that it got is given back.
pub mod Effects
pub mod Held
use redis_agent.Req.Release.Held.{without, held_by, held, held-other, held-same, held-without}
use redis_agent.Req.Count.{touch-running}
use redis_agent.Req.Release.Effects.{
  Spared, shard_counted-Spared, req_timeout-Spared, one, handed, given_back,
}
use redis_agent.Base.{
  ℕ, zero, suc, ◌+◌, ◌≡◌, refl, ap, sym, ◌∙◌, inl, inr, Option, none, some, Bool, true, false, List,
  [], ◌∷◌, arith, ◌==◌, Bool-cases, if◌then◌else◌,
}
use redis_agent.Base.Int.{pos, ◌-ℤ◌, eqb_ℤ}
use redis_agent.Pool.Links.{write, blank}
use redis_agent.Pool.Links.Segment.{has}
use redis_agent.Router.Acquire.{Call}
use redis_agent.Req.{
  touch, running, rm, store_err_service_unavailable, Req, SubReq, before_request_pool, set_sub,
  push, Effect, release, backend_call, Fetch, refused, queued, acquired, req_create, req_done,
  req_cleanup, shard_counted, release_handle, req_on_shard_done, req_on_acquired, req_on_getshards,
  req_timeout, req_fail, timeout_connect_cleanup, cleanup_sub, pop, SubState, pool_returned,
  backend_returned, set_err, store_err_internal_error, store_err_service_timeout, store_ok, emit,
  null_read, report, withdraw, backend_timeout,
}

-- What happens to a request while it runs: the router sets or lowers its count, a sub request is started, it gets a connection, the
-- plugin has its answer, or the time is up, with the fuel of the loop of `req_timeout`.
pub data Event : Type 0 where
  sized : ℕ → Event
  dropped : Event
  started : Fetch → ℕ → Call → Event
  got : Bool → ℕ → ℕ → Event
  answered : Bool → ℕ → Event
  timed_out : ℕ → Event

unfoldable pub handle_event : Event → Req → Req
handle_event (sized n) r = touch r (record (r) { shard_count = pos n })
handle_event dropped r = touch r (record (r) { shard_count = r.shard_count -ℤ pos 1 })
handle_event (started f p c) r = req_on_getshards f p c r
handle_event (got ok h p) r = req_on_acquired ok h p r
handle_event (answered failed p) r = req_on_shard_done failed (some p) r
handle_event (timed_out fuel) r = req_timeout fuel r

unfoldable pub handle_events : List Event → Req → Req
handle_events [] r = r
handle_events (e ∷ es) r = handle_events es (handle_event e r)

abbrev pub with_fetched : Fetch → ℕ → List ℕ → List ℕ
with_fetched refused p out = out
with_fetched (queued w) p out = out
with_fetched (acquired ok h) p out = p ∷ out

-- The sub requests that have a connection.
abbrev pub holders : Event → List ℕ → List ℕ
holders (sized n) out = out
holders dropped out = out
holders (started f p c) out = with_fetched f p out
holders (got ok h p) out = p ∷ out
holders (answered failed p) out = without p out
holders (timed_out fuel) out = out

abbrev pub holders_after : List Event → List ℕ → List ℕ
holders_after [] out = out
holders_after (e ∷ es) out = holders_after es (holders e out)

-- A sub request is new when it is started, gets a connection once, and is answered once it has one.
abbrev pub MayCome : Event → List ℕ → Type 0
MayCome (sized n) out = Unit
MayCome dropped out = Unit
MayCome (started f p c) out = has p out ≡ false
MayCome (got ok h p) out = has p out ≡ false
MayCome (answered failed p) out = has p out ≡ true
MayCome (timed_out fuel) out = Unit

-- Each event comes to a request that is in use.
abbrev pub MayComeAll : List Event → Req → List ℕ → Type 0
MayComeAll [] r out = Unit
MayComeAll (e ∷ es) r out =
    (r.life ≡ running) × MayCome e out × MayComeAll es (handle_event e r) (holders e out)

abbrev handles : Req → ℕ → Option ℕ
handles r p = (r.subs p).handle

-- What was handed out is given back or held.
abbrev Balanced : ℕ → Req → List ℕ → Type 0
Balanced h r out = handed h r.log ≡ given_back h r.log + held h (handles r) out

touch-Balanced :
    (h : ℕ) (r t : Req) (out : List ℕ)
    → r.life ≡ running
    → Balanced h t out
    → Balanced h (touch r t) out
touch-Balanced h r t out l b = rw (touch-running r t l) b

-- A sub request that gets connection `k`.
gained-Balanced :
    (h k p : ℕ) (r t : Req) (out : List ℕ)
    → has p out ≡ false
    → handed h t.log ≡ one h k + handed h r.log
    → given_back h t.log ≡ given_back h r.log
    → handles t p ≡ some k
    → ((q : ℕ) → (p == q) ≡ false → handles t q ≡ handles r q)
    → Balanced h r out
    → Balanced h t (p ∷ out)
gained-Balanced h k p r t out n e f own other b =
    let same = held-other h p (handles r) (handles t) out n other in
    rw own (omega (arith, same, e, f))

-- A sub request that gets none.
kept-Balanced :
    (h p : ℕ) (r t : Req) (out : List ℕ)
    → has p out ≡ false
    → handed h t.log ≡ handed h r.log
    → given_back h t.log ≡ given_back h r.log
    → ((q : ℕ) → (p == q) ≡ false → handles t q ≡ handles r q)
    → Balanced h r out
    → Balanced h t out
kept-Balanced h p r t out n e f other b =
    let same = held-other h p (handles r) (handles t) out n other in omega (arith, same, e, f)

got-Balanced :
    (h : ℕ) (ok : Bool) (k p : ℕ) (r : Req) (out : List ℕ)
    → has p out ≡ false
    → r.life ≡ running
    → Balanced h r out
    → Balanced h (req_on_acquired ok k p r) (p ∷ out)
unfolding req_on_acquired
got-Balanced h true k p r out n l b =
    let s = record (r.subs p) { handle = some k; state = pool_returned } in
    let t = emit (backend_call p k) (set_sub p s r) in
    touch-Balanced h r t (p ∷ out) l
      (gained-Balanced h k p r t out n refl refl (ground arith) (λ q e. ground arith) b)
got-Balanced h false k p r out n l b =
    let s = record (r.subs p) { handle = some k; state = pool_returned } in
    let t = emit (backend_call p k) (set_sub p s r) in
    let failed = set_sub p (record (s) { state = backend_returned }) t in
    touch-Balanced h r failed (p ∷ out) l
      (gained-Balanced h k p r failed out n refl refl (ground arith) (λ q e. ground arith) b)

-- A new sub request, before the pool is asked.
abbrev prepared : ℕ → Call → Req → Req
prepared p c r =
    let sr : SubReq = record {
      keys = c;
      handle = none;
      state = before_request_pool;
      pool_waiting_node = none;
    } in
    let s = set_sub p sr r in
    let clean = record (s.not_done) { nodes = write s.not_done.nodes p blank } in
    record (s) { not_done = push clean p }

started-Balanced :
    (h : ℕ) (f : Fetch) (p : ℕ) (c : Call) (r : Req) (out : List ℕ)
    → has p out ≡ false
    → r.life ≡ running
    → Balanced h r out
    → Balanced h (req_on_getshards f p c r) (with_fetched f p out)
unfolding req_on_getshards req_on_shard_done
started-Balanced h refused p c r out n l b =
    let s = set_err store_err_service_unavailable (prepared p c r) in
    let d = shard_counted-Spared s in
    touch-Balanced h r (shard_counted s) out l (
      kept-Balanced h p r (shard_counted s) out n (d.out h) (d.back h)
        (λ q e. ap (λ f. (f q).handle) d.subs ∙ rw e refl) b)
started-Balanced h (queued w) p c r out n l b =
    let sr : SubReq = record {
      keys = c;
      handle = none;
      state = before_request_pool;
      pool_waiting_node = some w;
    } in
    let t = set_sub p sr (prepared p c r) in
    touch-Balanced h r t out l (kept-Balanced h p r t out n refl refl (λ q e. ground arith) b)
started-Balanced h (acquired ok k) p c r out n l b =
    let s = prepared p c r in
    let here : Balanced h s out = kept-Balanced h p r s out n refl refl (λ q e. ground arith) b in
    touch-Balanced h r (req_on_acquired ok k p s) (p ∷ out) l (got-Balanced h ok k p s out n l here)

-- What the release of the connection of a sub request that has the answer gives back.
released-given_back :
    (h : ℕ) (failed : Bool) (o : Option ℕ) (r : Req)
    → given_back h (release_handle o failed r).log ≡ held_by h o + given_back h r.log
unfolding release_handle
released-given_back h failed none r = omega arith
released-given_back h failed (some k) r = refl

released-handed :
    (h : ℕ) (failed : Bool) (o : Option ℕ) (r : Req)
    → handed h (release_handle o failed r).log ≡ handed h r.log
unfolding release_handle
released-handed h failed none r = refl
released-handed h failed (some k) r = refl

released-subs : (failed : Bool) (o : Option ℕ) (r : Req) → (release_handle o failed r).subs ≡ r.subs
unfolding release_handle
released-subs failed none r = refl
released-subs failed (some k) r = refl

answered-Balanced :
    (h : ℕ) (failed : Bool) (p : ℕ) (r : Req) (out : List ℕ)
    → has p out ≡ true
    → r.life ≡ running
    → Balanced h r out
    → Balanced h (req_on_shard_done failed (some p) r) (without p out)
unfolding req_on_shard_done
answered-Balanced h failed p r out n l b =
    let o = handles r p in
    let kept = held-without h p (handles r) out n in
    let s = set_sub p (record (r.subs p) { state = backend_returned }) r in
    let t = record (s) { not_done = rm s.not_done p } in
    let done = shard_counted (release_handle o failed t) in
    let d = shard_counted-Spared (release_handle o failed t) in
    let same =
      held-same h (handles r) (handles done) (without p out)
        (λ q. ap (λ f. (f q).handle) (d.subs ∙ released-subs failed o t) ∙ ground arith) in
    let given = d.out h ∙ released-handed h failed o t in
    let back = d.back h ∙ released-given_back h failed o t in
    touch-Balanced h r done (without p out) l (omega (arith, given, back, same, kept))

handle_event-Balanced :
    (h : ℕ) (e : Event) (r : Req) (out : List ℕ)
    → MayCome e out
    → r.life ≡ running
    → Balanced h r out
    → Balanced h (handle_event e r) (holders e out)
unfolding handle_event
handle_event-Balanced h (sized n) r out m l b = touch-Balanced h r _ out l b
handle_event-Balanced h dropped r out m l b = touch-Balanced h r _ out l b
handle_event-Balanced h (started f p c) r out m l b = started-Balanced h f p c r out m l b
handle_event-Balanced h (got ok k p) r out m l b = got-Balanced h ok k p r out m l b
handle_event-Balanced h (answered failed p) r out m l b = answered-Balanced h failed p r out m l b
handle_event-Balanced h (timed_out fuel) r out m l b =
    let d = req_timeout-Spared fuel r in
    let same =
      held-same h (handles r) (handles (req_timeout fuel r)) out
        (λ q. ap (λ f. (f q).handle) d.subs) in
    omega (arith, d.out h, d.back h, same)

handle_events-Balanced :
    (h : ℕ) (es : List Event) (r : Req) (out : List ℕ)
    → MayComeAll es r out
    → Balanced h r out
    → Balanced h (handle_events es r) (holders_after es out)
unfolding handle_events
handle_events-Balanced h [] r out m b = b
handle_events-Balanced h (e ∷ es) r out m b =
    handle_events-Balanced h es (handle_event e r) (holders e out) m.2
      (handle_event-Balanced h e r out m.1 m.0 b)

-- Over any run of a new request in which each event comes before the request is freed, each sub request
-- is new when it is started, gets a connection at most once and is answered only while it has one:
-- each connection was handed to the backend exactly as often as it was given back or is with a sub
-- request, also where the timeout has freed the request.
pub req_create-given_back :
    (writebuf : Bool) (es : List Event) (h : ℕ)
    → MayComeAll es (req_create writebuf) []
    → let r = handle_events es (req_create writebuf) in
      handed h r.log ≡ given_back h r.log + held h (λ p. (r.subs p).handle) (holders_after es [])
unfolding req_create
req_create-given_back writebuf es h m =
    handle_events-Balanced h es (req_create writebuf) [] m (omega arith)
