-- ===== src/Pool/Build.antt =====
-- `pool_build`, `pool_destroy` and `pool_fetch_connect` of pool.cpp, for a pool of several servers.
pub mod Begin
pub mod Calls
pub mod Ending
use redis_agent.Base.{ℕ, zero, suc, ◌/◌, none, false, List, [], ◌==◌, ltb, if◌then◌else◌}
use redis_agent.Base.Int.{ℤ, pos, pos_part, ltb_ℤ}
use redis_agent.Pool.Links.{Queue, blank}
use redis_agent.Pool.Server.{Server, unconnect_put, destroy_one, fetch_connect}
use redis_agent.Pool.Balance.{get_balance_server}

-- `struct pool_info`; `m_serverCount` is `server_count`.
pub record PoolInfo : Type 0 where
  pub pool_idx : ℤ
  pub servers : ℕ → Server
  pub server_count : ℤ
  pub connect_per_server : ℕ
  pub low_connect_per_server : ℕ
  pub connect_retry : ℤ

abbrev pub no_queue : Queue
no_queue = record { head = none; tail = none; count = pos 0 }

-- A server after `calloc` and the resets, before its connections are made.
abbrev pub zeroed : ℤ → Server
zeroed n = record {
  nodes = λ c. blank;
  free = no_queue;
  unconnect = no_queue;
  waiting = record { nodes = λ c. blank; queue = no_queue; sub_req = λ c. 0 };
  conns = λ c. record { handle = false; in_use = false; to_be_destroyed = false };
  connect_count = pos 0;
  destroy_flag = false;
  server_count = n;
  log = [];
}

-- The inner loop of `pool_build`: the connections `0`, `1`, ... are put on the unconnected list.
unfoldable pub add_connects : ℕ → Server → Server
add_connects zero s = s
add_connects (suc n) s = unconnect_put n (add_connects n s)

-- `LOW_CONNECT_THRESHOLD` is 10.
pub low_connect : ℕ → ℕ
low_connect per = if ltb 0 (per / 10) then per / 10 else 1

unfoldable pub pool_build : ℤ → ℕ → ℕ → ℤ → PoolInfo
pool_build idx server_count per retry = record {
  pool_idx = idx;
  servers = λ i. add_connects per (zeroed (pos server_count));
  server_count = pos server_count;
  connect_per_server = per;
  low_connect_per_server = low_connect per;
  connect_retry = retry;
}

-- A step of one server; the count of servers is that of the pool, before it and after it.
pub at_server : ℕ → (Server → Server) → PoolInfo → PoolInfo
at_server i f p =
    let t = f (record (p.servers i) { server_count = p.server_count }) in
    record (p) { servers = λ j. if i == j then t else p.servers j; server_count = t.server_count }

-- The loop of `pool_destroy`, over the count of servers read before it.
pub destroy_servers : ℕ → PoolInfo → PoolInfo
destroy_servers zero p = p
destroy_servers (suc n) p = at_server n (destroy_one p.connect_per_server) (destroy_servers n p)

pub pool_destroy : PoolInfo → PoolInfo
pool_destroy p = destroy_servers (pos_part p.server_count) p

-- What `pool_fetch_connect` ends in: -1, a read of `serverid` that was never written, or 0.
pub data Fetched : Type 0 where
  refused : Fetched
  undefined : Fetched
  fetched : PoolInfo → Fetched

-- `pool_fetch_connect`: the first answer of the balance is never negative, so that the loop ends in
-- its first round, if it has one.
pub pool_fetch_connect : ℕ → (List ℕ → ℤ) → ℤ → ℕ → ℕ → PoolInfo → Fetched
pool_fetch_connect rand fetch key p req pool =
    let per = pool.connect_per_server in
    let id =
      get_balance_server per (pos_part pool.server_count) (λ i. (pool.servers i).connect_count) rand
        fetch key in
    if ltb_ℤ (pos 0) pool.server_count
    then (if ltb_ℤ pool.connect_retry (pos 0)
        then undefined
        else fetched (at_server id (fetch_connect per p req) pool))
    else refused
