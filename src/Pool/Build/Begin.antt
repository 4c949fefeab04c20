-- ===== src/Pool/Build/Begin.antt =====
-- The state that `pool_build` of pool.cpp leaves a server in.
use redis_agent.Base.{ℕ, zero, suc, ◌≤◌, ◌≡◌, refl, List, [], ◌∷◌, ◌++◌, false, arith}
use redis_agent.Base.Int.{ℤ, pos, ◌+ℤ◌}
use redis_agent.Pool.Links.Segment.{has, has-append}
use redis_agent.Pool.Server.Invariant.{IsServer, unconnect_put-append}
use redis_agent.Pool.Build.{zeroed, add_connects, pool_build}

-- The numbers below `n`, in order.
abbrev pub below : ℕ → List ℕ
below zero = []
below (suc n) = below n ++ n ∷ []

has-below : (n c : ℕ) → n ≤ c → has c (below n) ≡ false
has-below zero c h = refl
has-below (suc n) c h =
    ground (arith, has-append c (below n) (n ∷ []), has-below n c (ground arith))

zeroed-IsServer : (n : ℤ) → IsServer 0 (zeroed n) [] [] []
unfolding ◌+ℤ◌
zeroed-IsServer n = record {
  free = record { head = refl; links = refl; distinct = tt };
  unconnect = record { head = refl; links = refl; distinct = tt };
  waiting = record { head = refl; links = refl; distinct = tt };
  apart = λ c e. refl;
  alone = λ c e o. refl;
  free_count = refl;
  unconnect_count = refl;
  waiting_count = refl;
}

add_connects-IsServer : (k : ℕ) (n : ℤ) → IsServer 0 (add_connects k (zeroed n)) [] (below k) []
unfolding add_connects
add_connects-IsServer zero n = zeroed-IsServer n
add_connects-IsServer (suc k) n =
    unconnect_put-append 0 (add_connects k (zeroed n)) k (below k) [] [] (add_connects-IsServer k n)
      refl (has-below k k (ground arith))

-- Each server that `pool_build` makes is well formed: all its connections, in order, are unconnected,
-- none is free, and no request waits.
pub pool_build-IsServer :
    (idx : ℤ) (server_count per : ℕ) (retry : ℤ) (i : ℕ)
    → IsServer 0 ((pool_build idx server_count per retry).servers i) [] (below per) []
unfolding pool_build
pool_build-IsServer idx server_count per retry i = add_connects-IsServer per (pos server_count)
