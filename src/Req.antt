-- ===== src/Req.antt =====
-- One client request in req.cpp: its sub requests, one for each run of keys of a shard, and the
-- callbacks that complete it. What the code asks of others (the pool, the backend plugin, the client
-- connection) is a log of effects; their answers are later calls, or parameters where the code
-- branches on a value returned at once.
pub mod Once
pub mod Count
pub mod Whole
pub mod Pending
pub mod Timeout
pub mod Release
use redis_agent.Base.{
  ℕ, zero, suc, ◌+◌, Option, none, some, Bool, true, false, not, ◌&&◌, ◌||◌, List, [], ◌∷◌, ◌==◌,
  if◌then◌else◌,
}
use redis_agent.Base.Int.{ℤ, pos, ◌+ℤ◌, ◌-ℤ◌, eqb_ℤ, ltb_ℤ}
use redis_agent.Pool.Links.{Nodes, blank, same, write, set_prev, set_next}
use redis_agent.Router.Acquire.{Call, Action, set_count, drop_count, call}

-- `enum sub_req_state_t`
pub data SubState : Type 0 where
  before_request_pool : SubState
  pool_returned : SubState
  backend_returned : SubState

-- `sub_req_t`, without its links; `keys` are its backend requests.
pub record SubReq : Type 0 where
  pub keys : Call
  pub handle : Option ℕ
  pub state : SubState
  pub pool_waiting_node : Option ℕ

-- The list `sub_req_not_done`.
pub record Subs : Type 0 where
  pub nodes : Nodes
  pub head : Option ℕ

-- `_req_subreq_queue_push` of a node whose links are NULL
pub push : Subs → ℕ → Subs
push q p = elim (q.head) [
  | none ↦ record (q) { head = some p }
  | some h ↦ record {
    nodes = set_prev (write q.nodes p (record { next = some h; prev = none })) (some h) (some p);
    head = some p;
  }
]

-- `_req_subreq_queue_pop`
unfoldable pub pop : Subs → Option ℕ × Subs
pop q = elim (q.head) [
  | none ↦ (none, q)
  | some p ↦
      (some p, record { nodes = set_prev q.nodes (q.nodes p).next none; head = (q.nodes p).next })
]

-- `_req_subreq_queue_rm`
pub rm : Subs → ℕ → Subs
rm q p =
    let m₁ = set_next q.nodes (q.nodes p).prev (q.nodes p).next in
    let m₂ = set_prev m₁ (m₁ p).next (m₁ p).prev in
    record { nodes = m₂; head = if same (some p) q.head then (m₂ p).next else q.head }

-- What is asked of the pool (`withdraw`, `release`, `report`), of the plugin (`backend_call`,
-- `backend_timeout`, `backend_req_done`) and of the server (`reply`, `process_done`), the end of
-- the request's memory, and a read through NULL.
pub data Effect : Type 0 where
  withdraw : ℕ → Effect
  report : Effect
  release : ℕ → Bool → Effect
  backend_call : ℕ → ℕ → Effect
  backend_timeout : ℕ → Effect
  backend_req_done : Effect
  reply : Effect
  process_done : Effect
  cleanup : Effect
  null_read : Effect

-- A request is in use until `efree_all` has freed it with its sub requests. It is broken once the code
-- has read or written freed memory, or read through NULL; nothing is run behind that.
pub data Life : Type 0 where
  running : Life
  freed : Life
  broken : Life

-- `req_t`: the fields its life depends on, its sub requests, and the log, the last effect first.
pub record Req : Type 0 where
  pub shard_count : ℤ
  pub not_done : Subs
  pub subs : ℕ → SubReq
  pub has_writebuf : Bool
  pub is_write : Bool
  pub timeout : Bool
  pub timeout_event : Bool
  pub err_no : ℕ
  pub req_done_called : Bool
  pub life : Life
  pub log : List Effect

-- Code that reads or writes the request `r`, and makes it `t`.
abbrev pub touch : Req → Req → Req
touch r t = elim (r.life) [ running ↦ t | freed ↦ record (r) { life = broken } | broken ↦ r ]

abbrev pub emit : Effect → Req → Req
emit e r = record (r) { log = e ∷ r.log }

abbrev pub set_sub : ℕ → SubReq → Req → Req
set_sub p s r = record (r) { subs = λ q. if p == q then s else r.subs q }

-- The error numbers of store_error.h.
abbrev pub store_ok : ℕ
store_ok = 0

abbrev pub store_err_unauthorized : ℕ
store_err_unauthorized = 401

abbrev pub store_err_internal_error : ℕ
store_err_internal_error = 500

abbrev pub store_err_service_unavailable : ℕ
store_err_service_unavailable = 503

abbrev pub store_err_service_timeout : ℕ
store_err_service_timeout = 504

abbrev pub set_err : ℕ → Req → Req
set_err e r = record (r) { err_no = e }

-- `req_create` and the first half of `req_ready`: a request filled with zeros. Whether the plugin
-- will have left an answer in `writebuf` is given.
unfoldable pub req_create : Bool → Req
req_create writebuf = record {
  shard_count = pos 0;
  not_done = record { nodes = λ p. blank; head = none };
  subs = λ p. record {
    keys = record { start = 0; num = 0; shard = none };
    handle = none;
    state = before_request_pool;
    pool_waiting_node = none;
  };
  has_writebuf = writebuf;
  is_write = false;
  timeout = false;
  timeout_event = false;
  err_no = store_ok;
  req_done_called = false;
  life = running;
  log = [];
}

-- `req_cleanup`
unfoldable pub req_cleanup : Req → Req
req_cleanup r = emit cleanup (record (r) { timeout_event = false; life = freed })

-- `req_done`
unfoldable pub req_done : Req → Req
req_done r =
    let s = emit backend_req_done (record (r) { req_done_called = true }) in
    let t = if s.has_writebuf then emit reply s else s in
    touch r (if r.req_done_called then r else req_cleanup (emit process_done t))

-- `req_fail`
unfoldable pub req_fail : Req → Req
req_fail r =
    touch r (req_done (if r.err_no == store_ok then set_err store_err_internal_error r else r))

-- The tail of `req_on_shard_done`, behind the release of the connection.
unfoldable pub shard_counted : Req → Req
shard_counted r =
    let s = record (r) { shard_count = r.shard_count -ℤ pos 1 } in
    touch r (if eqb_ℤ s.shard_count (pos 0) then (if s.timeout then s else req_done s) else s)

-- `pool_release_connect` of the handle of a sub request, if it has one.
unfoldable pub release_handle : Option ℕ → Bool → Req → Req
release_handle none failed r = r
release_handle (some h) failed r = emit (release h failed) r

-- `req_on_shard_done`; `failed` is `err_no`, and `none` is `priv == NULL`.
unfoldable pub req_on_shard_done : Bool → Option ℕ → Req → Req
req_on_shard_done failed none r = shard_counted r
req_on_shard_done failed (some p) r =
    let s = set_sub p (record (r.subs p) { state = backend_returned }) r in
    let t = record (s) { not_done = rm s.not_done p } in
    touch r (shard_counted (release_handle (r.subs p).handle failed t))

-- `req_on_acquired`; `ok` is that `backend_call` returned 0.
unfoldable pub req_on_acquired : Bool → ℕ → ℕ → Req → Req
req_on_acquired ok h p r =
    let s = record (r.subs p) { handle = some h; state = pool_returned } in
    let t = emit (backend_call p h) (set_sub p s r) in
    touch r (if ok then t else set_sub p (record (s) { state = backend_returned }) t)

-- What `pool_fetch_connect` does for a sub request: it refuses it, queues it at a node of the
-- waiting queue, or calls `req_on_acquired` at once.
pub data Fetch : Type 0 where
  refused : Fetch
  queued : ℕ → Fetch
  acquired : Bool → ℕ → Fetch

-- `req_on_getshards`; `p` is the address of the new sub request.
unfoldable pub req_on_getshards : Fetch → ℕ → Call → Req → Req
req_on_getshards fetch p c r =
    let sr : SubReq = record {
      keys = c;
      handle = none;
      state = before_request_pool;
      pool_waiting_node = none;
    } in
    let s = set_sub p sr r in
    let clean = record (s.not_done) { nodes = write s.not_done.nodes p blank } in
    let t = record (s) { not_done = push clean p } in
    touch r (elim fetch [
      | refused ↦ req_on_shard_done true none (set_err store_err_service_unavailable t)
      | queued w ↦ set_sub p (record (sr) { pool_waiting_node = some w }) t
      | acquired ok h ↦ req_on_acquired ok h p t
    ])

-- `router_acquire_shards` at work on the request: its actions in order. The sub requests get the
-- addresses `p`, `p + 1`, ..., and `fetch` tells what the pool does for each.
pub run_actions : (ℕ → Fetch) → ℕ → List Action → Req → Req
run_actions fetch p [] r = r
run_actions fetch p (set_count n ∷ acts) r =
    run_actions fetch p acts (touch r (record (r) { shard_count = pos n }))
run_actions fetch p (drop_count ∷ acts) r =
    run_actions fetch p acts (touch r (record (r) { shard_count = r.shard_count -ℤ pos 1 }))
run_actions fetch p (call c ∷ acts) r =
    run_actions fetch (p + 1) acts (req_on_getshards (fetch p) p c r)

-- `req_process`, with what the plugin's parser and `meta_auth_check` return, and `AUTH_READ_ONLY`.
-- True is the return value 0; `is_write` is
-- what the parser finds.
pub req_process : Bool → Bool → ℤ → ℤ → (ℕ → Fetch) → List Action → Bool → Req → Bool × Req
req_process init_ok parse_ok auth read_only fetch actions is_write r₀ =
    let timed = record (r₀) { timeout_event = true } in
    let r = record (timed) { is_write = is_write } in
    let barred = ltb_ℤ auth (pos 1) || (eqb_ℤ auth read_only && is_write) in
    let started = record (r) {
      shard_count = pos 0;
      not_done = record { nodes = r.not_done.nodes; head = none };
    } in
    if not init_ok
    then (false, timed)
    else (if not parse_ok || barred
        then (false, if parse_ok then set_err store_err_unauthorized r else r)
        else (true, run_actions fetch 0 actions started))

-- `req_ready`
pub req_ready : Bool → Bool → ℤ → ℤ → (ℕ → Fetch) → List Action → Bool → Bool → Req
req_ready init_ok parse_ok auth read_only fetch actions is_write writebuf =
    let r = req_create writebuf in
    let done = req_process init_ok parse_ok auth read_only fetch actions is_write r in
    if done.0 then done.1 else req_fail done.1

-- One round of the loop of `req_timeout_connect_cleanup`. `_pool_waiting_queue_rm` takes NULL, but the
-- next line reads the `server` of the node.
unfoldable pub cleanup_sub : ℕ → Req → Req
cleanup_sub p r = elim ((r.subs p).state) [
  | before_request_pool ↦ elim ((r.subs p).pool_waiting_node) [
    | none ↦ emit null_read (record (r) { life = broken })
    | some w ↦ emit report (emit (withdraw w) (record (r) { shard_count = r.shard_count -ℤ pos 1 }))
  ]
  | pool_returned ↦ emit (backend_timeout p) (record (r) { shard_count = r.shard_count -ℤ pos 1 })
  | backend_returned ↦ r
]

-- `req_timeout_connect_cleanup`, on fuel.
unfoldable pub timeout_connect_cleanup : ℕ → Req → Req
timeout_connect_cleanup zero r = r
timeout_connect_cleanup (suc fuel) r =
    let popped = pop r.not_done in
    elim (popped.0) [
      | none ↦ record (r) { not_done = popped.1 }
      | some p ↦
          let s = cleanup_sub p (record (r) { not_done = popped.1 }) in
          let rest = timeout_connect_cleanup fuel s in touch s rest
    ]

-- `req_timeout`
unfoldable pub req_timeout : ℕ → Req → Req
req_timeout fuel r =
    let s = set_err store_err_service_timeout (record (r) { timeout = true }) in
    touch r (req_fail (timeout_connect_cleanup fuel s))
