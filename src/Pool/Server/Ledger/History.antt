-- ===== src/Pool/Server/Ledger/History.antt =====
-- What the log of a server of pool.cpp says: its end, the end of the pool, and who got a connection.
use redis_agent.Base.{ℕ, suc, ◌≡◌, refl, Bool, true, false, List, [], ◌∷◌}
use redis_agent.Pool.Server.{Effect, server_freed, destroy}
use redis_agent.Pool.Server.Teardown.{destroys}

-- Whether the server has been freed.
abbrev pub is_freed : List Effect → Bool
is_freed [] = false
is_freed (server_freed ∷ log) = true
is_freed (Effect.create c ∷ log) = is_freed log
is_freed (Effect.destroy c ∷ log) = is_freed log
is_freed (Effect.deliver c r ∷ log) = is_freed log
is_freed (Effect.connected ∷ log) = is_freed log
is_freed (Effect.unconnected ∷ log) = is_freed log
is_freed (Effect.talked n ∷ log) = is_freed log
is_freed (Effect.freed_early c ∷ log) = is_freed log
is_freed (Effect.pool_destroyed ∷ log) = is_freed log

-- Which connection was handed to which request, the last first.
abbrev pub delivered : List Effect → List (ℕ × ℕ)
delivered [] = []
delivered (Effect.deliver c r ∷ log) = (c, r) ∷ delivered log
delivered (server_freed ∷ log) = delivered log
delivered (Effect.create c ∷ log) = delivered log
delivered (Effect.destroy c ∷ log) = delivered log
delivered (Effect.connected ∷ log) = delivered log
delivered (Effect.unconnected ∷ log) = delivered log
delivered (Effect.talked n ∷ log) = delivered log
delivered (Effect.freed_early c ∷ log) = delivered log
delivered (Effect.pool_destroyed ∷ log) = delivered log

-- How often the pool was reported destroyed.
abbrev pub pool_ends : List Effect → ℕ
pool_ends [] = 0
pool_ends (Effect.pool_destroyed ∷ log) = suc (pool_ends log)
pool_ends (Effect.deliver c r ∷ log) = pool_ends log
pool_ends (server_freed ∷ log) = pool_ends log
pool_ends (Effect.create c ∷ log) = pool_ends log
pool_ends (Effect.destroy c ∷ log) = pool_ends log
pool_ends (Effect.connected ∷ log) = pool_ends log
pool_ends (Effect.unconnected ∷ log) = pool_ends log
pool_ends (Effect.talked n ∷ log) = pool_ends log
pool_ends (Effect.freed_early c ∷ log) = pool_ends log

pub is_freed-destroys :
    (xs : List ℕ) (log : List Effect) → is_freed (destroys xs log) ≡ is_freed log
is_freed-destroys [] log = refl
is_freed-destroys (x ∷ xs) log = is_freed-destroys xs (destroy x ∷ log)

pub delivered-destroys :
    (xs : List ℕ) (log : List Effect) → delivered (destroys xs log) ≡ delivered log
delivered-destroys [] log = refl
delivered-destroys (x ∷ xs) log = delivered-destroys xs (destroy x ∷ log)

pub pool_ends-destroys :
    (xs : List ℕ) (log : List Effect) → pool_ends (destroys xs log) ≡ pool_ends log
pool_ends-destroys [] log = refl
pool_ends-destroys (x ∷ xs) log = pool_ends-destroys xs (destroy x ∷ log)
