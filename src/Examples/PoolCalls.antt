-- ===== src/Examples/PoolCalls.antt =====
-- A pool of pool.cpp with two servers.
use redis_agent.Base.{ℕ, true, false, List, [], ◌∷◌}
use redis_agent.Pool.Server.Ledger.{ServerCall, fetch, created, release, destroyed, teardown}

-- Two servers: the second is freed at once, the first when its connection has been destroyed.
abbrev two_servers : List (ℕ × ServerCall)
two_servers =
    (0, fetch 7 42)
    ∷ (0, created 0 true)
    ∷ (0, release 0 false 3)
    ∷ (0, teardown)
    ∷ (1, teardown)
    ∷ (0, destroyed 0)
    ∷ []
