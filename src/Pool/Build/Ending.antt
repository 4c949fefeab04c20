-- ===== src/Pool/Build/Ending.antt =====
-- When the pool of pool.cpp tells the router that it is gone.
use redis_agent.Base.{ℕ, zero, suc, ◌≡◌, refl, List, [], ◌∷◌, ◌++◌}
use redis_agent.Base.Int.{pos_part}
use redis_agent.Pool.Server.{Server, destroy_one}
use redis_agent.Pool.Server.Ledger.{Ledger, ServerCall, teardown, handle_call}
use redis_agent.Pool.Server.Ledger.Places.{IsTally}
use redis_agent.Pool.Server.Ledger.Touch.{Keeps}
use redis_agent.Pool.Server.Ledger.History.{is_freed, pool_ends}
use redis_agent.Pool.Build.{PoolInfo, at_server, destroy_servers, pool_destroy}
use redis_agent.Pool.Build.Calls.{pool_call, pool_calls, Ledgers, with_left, total, alive}

-- The servers of a pool with their ledgers.
record FollowsPool (per low : ℕ) (p : PoolInfo) (l : Ledgers) : Type 0 where
  per_is : p.connect_per_server ≡ per
  low_is : p.low_connect_per_server ≡ low
  count : p.server_count ≡ l.left
  keeps :
      (i : ℕ) → Keeps 0 (record (p.servers i) { server_count = l.left }) (with_left (l.at i) l.left)
  tally : (i : ℕ) → IsTally per (l.at i)

-- How many servers have not been freed, and how often the pool was reported destroyed.
abbrev pub servers_left : ℕ → PoolInfo → ℕ
servers_left n p = total (λ s. alive (is_freed s.log)) n p.servers

abbrev pub reports : ℕ → PoolInfo → ℕ
reports n p = total (λ s. pool_ends s.log) n p.servers

-- `pool_destroy` is a teardown of each server in turn.
abbrev pub teardowns : ℕ → List (ℕ × ServerCall)
teardowns zero = []
teardowns (suc n) = teardowns n ++ (n, teardown) ∷ []

pool_calls-append :
    (cs ds : List (ℕ × ServerCall)) (p : PoolInfo)
    → pool_calls (cs ++ ds) p ≡ pool_calls ds (pool_calls cs p)
unfolding pool_calls
pool_calls-append [] ds p = refl
pool_calls-append ((i, c) ∷ cs) ds p = pool_calls-append cs ds (pool_call i c p)

pool_calls-per :
    (cs : List (ℕ × ServerCall)) (p : PoolInfo)
    → (pool_calls cs p).connect_per_server ≡ p.connect_per_server
unfolding pool_calls pool_call at_server
pool_calls-per [] p = refl
pool_calls-per ((i, c) ∷ cs) p = pool_calls-per cs (pool_call i c p)

destroy_servers-teardowns :
    (n : ℕ) (p : PoolInfo) → destroy_servers n p ≡ pool_calls (teardowns n) p
unfolding destroy_servers
destroy_servers-teardowns zero p = unfold pool_calls in refl
destroy_servers-teardowns (suc n) p =
    rw (pool_calls-append (teardowns n) ((n, teardown) ∷ []) p, destroy_servers-teardowns n p)
      (torn (pool_calls (teardowns n) p) (pool_calls-per (teardowns n) p))
  where
    torn :
        (q : PoolInfo)
        → q.connect_per_server ≡ p.connect_per_server
        → at_server n (destroy_one p.connect_per_server) q ≡ pool_calls ((n, teardown) ∷ []) q
    torn q e = unfold pool_calls pool_call handle_call in rw (← e) refl

pub pool_destroy-teardowns :
    (p : PoolInfo) → pool_destroy p ≡ pool_calls (teardowns (pos_part p.server_count)) p
unfolding pool_destroy
pool_destroy-teardowns p = destroy_servers-teardowns (pos_part p.server_count) p
