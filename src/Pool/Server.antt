-- ===== src/Pool/Server.antt =====
-- One server of a pool in pool.cpp: its connections, its three queues, and what is asked of the
-- backend plugin. The plugin is outside this code: a call of `m_createCb` or `m_destroyCb` is an
-- entry of the log, and its answer comes later, as a call of `on_connect_created` or
-- `on_connect_destroyed`.
pub mod Invariant
pub mod Drop
pub mod Ledger
pub mod Serve
pub mod Teardown
use redis_agent.Base.{
  ℕ, zero, suc, ◌+◌, ◌%◌, Option, none, some, Bool, true, false, not, ◌&&◌, List, [], ◌∷◌, ◌==◌,
  ltb, if◌then◌else◌,
}
use redis_agent.Base.Int.{ℤ, pos, ◌+ℤ◌, ◌-ℤ◌, ltb_ℤ, eqb_ℤ}
use redis_agent.Pool.Links.{Nodes, Queue, get, put, rm}
use redis_agent.Pool.Waiting.{Waiting, waiting_get, waiting_put, waiting_rm}

-- `struct connect_info`: the flags, and whether it has a handle.
pub record ConnectInfo : Type 0 where
  pub handle : Bool
  pub in_use : Bool
  pub to_be_destroyed : Bool

-- What the code does to the world outside the pool. `connected`, `unconnected` and `talked` are the
-- reports to the balance strategy.
pub data Effect : Type 0 where
  create : ℕ → Effect
  destroy : ℕ → Effect
  deliver : ℕ → ℕ → Effect
  connected : Effect
  unconnected : Effect
  talked : ℕ → Effect
  freed_early : ℕ → Effect
  server_freed : Effect
  pool_destroyed : Effect

-- `struct server_info`, with `m_serverCount` of its pool and the log, the last effect first.
pub record Server : Type 0 where
  pub nodes : Nodes
  pub free : Queue
  pub unconnect : Queue
  pub waiting : Waiting
  pub conns : ℕ → ConnectInfo
  pub connect_count : ℤ
  pub destroy_flag : Bool
  pub server_count : ℤ
  pub log : List Effect

abbrev pub emit : Effect → Server → Server
emit e s = record (s) { log = e ∷ s.log }

abbrev pub set_conn : ℕ → ConnectInfo → Server → Server
set_conn c i s = record (s) { conns = λ d. if c == d then i else s.conns d }

-- `_pool_unconnect_queue_put` and `_pool_connect_queue_put` of connection `c`, and
-- `_pool_connect_queue_rm`.
pub unconnect_put : ℕ → Server → Server
unconnect_put c s = let r = put s.nodes s.unconnect c in record (s) { nodes = r.0; unconnect = r.1 }

pub free_put : ℕ → Server → Server
free_put c s = let r = put s.nodes s.free c in record (s) { nodes = r.0; free = r.1 }

pub free_rm : ℕ → Server → Server
free_rm c s = let r = rm s.nodes s.free c in record (s) { nodes = r.0; free = r.1 }

pub free_get : Server → Option ℕ × Server
free_get s = let r = get s.nodes s.free in (r.0, record (s) { nodes = r.1; free = r.2 })

pub unconnect_get : Server → Option ℕ × Server
unconnect_get s =
    let r = get s.nodes s.unconnect in (r.0, record (s) { nodes = r.1; unconnect = r.2 })

-- `m_freeConnectCount + m_unconnectCount == m_connectPerServer`: no connection is on its way.
pub at_rest : ℕ → Server → Bool
at_rest per s = eqb_ℤ (s.free.count +ℤ s.unconnect.count) (pos per)

-- `_pool_server_destroyed`; the last server takes the pool with it.
pub server_destroyed : Server → Server
server_destroyed s =
    let left = emit server_freed (record (s) { server_count = s.server_count -ℤ pos 1 }) in
    if eqb_ℤ left.server_count (pos 0) then emit pool_destroyed left else left

-- The loop of `_pool_server_destroy`, on fuel: each round takes a connection off the free list.
pub destroy_free : ℕ → Server → Server
destroy_free zero s = s
destroy_free (suc fuel) s = elim ((free_get s).0) [
  | none ↦ (free_get s).1
  | some c ↦ destroy_free fuel (emit (destroy c) (free_get s).1)
]

-- `_pool_server_destroy`; `per` connections at most are free, so that `per` rounds are enough.
pub server_destroy : ℕ → Server → Server
server_destroy per s = elim ((free_get s).0) [
  | none ↦ server_destroyed (free_get s).1
  | some c ↦ destroy_free per (emit (destroy c) (free_get s).1)
]

-- `_pool_create_new_connect`
pub create_new_connect : Server → Server
create_new_connect s = elim ((unconnect_get s).0) [
  | none ↦ (unconnect_get s).1
  | some c ↦
      let t = (unconnect_get s).1 in
      emit (create c) (set_conn c (record (t.conns c) { handle = true }) t)
]

-- `_server_connect_monitor`, with `m_lowConnectPerServer`.
pub connect_monitor : ℕ → Server → Server
connect_monitor low s = if ltb_ℤ s.connect_count (pos low) then create_new_connect s else s

-- `_pool_fetch_connect_from_connectqueue`; its caller has seen that the free list is not empty, so
-- that the index -1 is not read.
pub fetch_connect_from_connectqueue : ℕ → Server → Server
fetch_connect_from_connectqueue req s = elim ((free_get s).0) [
  | none ↦ (free_get s).1
  | some c ↦
      let t = (free_get s).1 in
      emit (deliver c req) (set_conn c (record (t.conns c) { in_use = true }) t)
]

-- `_pool_add_req_into_waitingqueue`; `p` is the address that `malloc` gives.
pub add_req_into_waitingqueue : ℕ → ℕ → Server → Server
add_req_into_waitingqueue p req s = record (s) { waiting = waiting_put s.waiting p req }

-- `_pool_put_back_connect`: the connection goes to the request that has waited longest, or to the
-- free list.
pub put_back_connect : ℕ → ℕ → Server → Server
put_back_connect per c s₀ =
    let s = emit connected s₀ in
    let r = waiting_get s.waiting in
    let t = record (s) { waiting = r.1 } in
    let u = free_put c t in
    elim (r.0) [
      | some req ↦ emit (deliver c req) (set_conn c (record (t.conns c) { in_use = true }) t)
      | none ↦ if u.destroy_flag && at_rest per u then server_destroy per u else u
    ]

-- `_pool_on_connect_created`
pub on_connect_created : ℕ → ℕ → Bool → Server → Server
on_connect_created per c ok s₀ =
    let s = set_conn c (record (s₀.conns c) { in_use = false; to_be_destroyed = false }) s₀ in
    let t = unconnect_put c s in
    let u = set_conn c (record (t.conns c) { handle = false }) t in
    if ok
    then put_back_connect per c (record (s) { connect_count = s.connect_count +ℤ pos 1 })
    else (if u.destroy_flag && at_rest per u then server_destroy per u else u)

-- What `_pool_on_connect_destroyed` does behind its tests.
pub connect_destroyed : ℕ → Server → Server
connect_destroyed c s =
    let t = unconnect_put c (set_conn c (record (s.conns c) { handle = false }) s) in
    let u = record (t) { connect_count = t.connect_count -ℤ pos 1 } in
    if u.destroy_flag && eqb_ℤ u.connect_count (pos 0) then server_destroyed u else u

-- `_pool_on_connect_destroyed`
pub on_connect_destroyed : ℕ → Server → Server
on_connect_destroyed c s₀ =
    let s = emit unconnected s₀ in
    let marked =
      emit (freed_early c) (set_conn c (record (s.conns c) { to_be_destroyed = true }) s) in
    if not (s.conns c).in_use
    then connect_destroyed c (free_rm c s)
    else (if not (s.conns c).to_be_destroyed then marked else connect_destroyed c s)

-- `pool_release_connect`; `failed` is `errclose`, `cost` the measured time.
pub release_connect : ℕ → ℕ → Bool → ℕ → Server → Server
release_connect per c failed cost s₀ =
    let s = emit (talked cost) (set_conn c (record (s₀.conns c) { in_use = false }) s₀) in
    if not failed && not (s.conns c).to_be_destroyed
    then put_back_connect per c s
    else emit (destroy c) s

-- `_pool_waiting_queue_rm` of the node at `p`; NULL is `none`.
pub waiting_queue_rm : ℕ → Option ℕ → Server → Server
waiting_queue_rm per none s = s
waiting_queue_rm per (some p) s =
    let t = record (s) { waiting = waiting_rm s.waiting p } in
    if t.destroy_flag && eqb_ℤ t.waiting.queue.count (pos 0) && at_rest per t
    then server_destroy per t
    else t

-- The part of `pool_fetch_connect` behind the choice of the server.
pub fetch_connect : ℕ → ℕ → ℕ → Server → Server
fetch_connect per p req s = elim (s.free.head) [
  | some c ↦ fetch_connect_from_connectqueue req s
  | none ↦
      add_req_into_waitingqueue p req
        (if ltb_ℤ s.connect_count (pos per) then create_new_connect s else s)
]

-- The body of the loop of `pool_destroy`.
pub destroy_one : ℕ → Server → Server
destroy_one per s =
    let t = record (s) { destroy_flag = true } in
    if eqb_ℤ s.connect_count s.free.count && at_rest per s && eqb_ℤ s.waiting.queue.count (pos 0)
    then server_destroy per t
    else t
