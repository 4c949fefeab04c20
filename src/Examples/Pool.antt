-- ===== src/Examples/Pool.antt =====
-- Servers with a few connections for pool.cpp.
use redis_agent.Base.{
  ℕ, ◌<◌, ◌≡◌, refl, [], ◌∷◌, none, some, Bool, true, false, arith, ◌==◌, if◌then◌else◌,
}
use redis_agent.Base.Int.{ℤ, pos, negsuc, ◌+ℤ◌}
use redis_agent.Pool.Links.{Nodes, Queue, blank}
use redis_agent.Pool.Links.Segment.{IsQueue}
use redis_agent.Pool.Waiting.{Waiting}
use redis_agent.Pool.Waiting.Laws.{IsWaiting}
use redis_agent.Pool.Server.{Server, ConnectInfo}
use redis_agent.Pool.Server.Invariant.{IsServer}
use redis_agent.Pool.Balance.{available, chosen, get_balance_server}
use redis_agent.Pool.Balance.Choice.{get_balance_server-bound}

-- The nodes 0 and 1 are linked, every other node is alone.
abbrev nodes : Nodes
nodes c =
    if c == 0
    then record { next = some 1; prev = none }
    else (if c == 1 then record { next = none; prev = some 0 } else blank)

abbrev pair : Queue
pair = record { head = some 0; tail = some 1; count = pos 2 }

abbrev nothing : Queue
nothing = record { head = none; tail = none; count = pos 0 }

abbrev single : ℕ → Queue
single c = record { head = some c; tail = some c; count = pos 1 }

pair-IsQueue : IsQueue nodes pair (0 ∷ 1 ∷ [])
pair-IsQueue = record {
  head = refl;
  links = (refl, refl, (refl, refl, refl));
  distinct = (refl, (refl, tt));
}

nothing-IsQueue : IsQueue (λ c. blank) nothing []
nothing-IsQueue = record { head = refl; links = refl; distinct = tt }

single-IsQueue : (m : Nodes) → m 2 ≡ blank → IsQueue m (single 2) (2 ∷ [])
single-IsQueue m e = record { head = refl; links = (rw e, rw e, refl); distinct = (refl, tt) }

-- One request, 42, waits at the node 7.
abbrev one_waits : Waiting
one_waits = record { nodes = λ p. blank; queue = single 7; sub_req = λ p. 42 }

abbrev nobody_waits : Waiting
nobody_waits = record { nodes = λ p. blank; queue = nothing; sub_req = λ p. 0 }

one_waits-IsWaiting : IsWaiting one_waits (7 ∷ [])
one_waits-IsWaiting = record { head = refl; links = (refl, refl, refl); distinct = (refl, tt) }

nobody_waits-IsWaiting : IsWaiting nobody_waits []
nobody_waits-IsWaiting = record { head = refl; links = refl; distinct = tt }

abbrev idle : ConnectInfo
idle = record { handle = true; in_use = false; to_be_destroyed = false }

-- A server with the given free list and waiting queue; the connection 2 has no handle.
abbrev server : Queue → Waiting → Bool → Server
server free waiting flag = record {
  nodes = elim (free.head) [ none ↦ λ c. blank | some h ↦ nodes ];
  free = free;
  unconnect = single 2;
  waiting = waiting;
  conns = λ c. idle;
  connect_count = pos 2;
  destroy_flag = flag;
  server_count = pos 1;
  log = [];
}

free_IsServer : (flag : Bool) → IsServer 0 (server pair nobody_waits flag) (0 ∷ 1 ∷ []) (2 ∷ []) []
unfolding ◌+ℤ◌
free_IsServer flag = record {
  free = pair-IsQueue;
  unconnect = single-IsQueue nodes refl;
  waiting = nobody_waits-IsWaiting;
  apart = λ c e. ground arith;
  alone = λ c e o. ground arith;
  free_count = refl;
  unconnect_count = refl;
  waiting_count = refl;
}

busy_IsServer : IsServer 0 (server nothing one_waits false) [] (2 ∷ []) (7 ∷ [])
unfolding ◌+ℤ◌
busy_IsServer = record {
  free = nothing-IsQueue;
  unconnect = single-IsQueue (λ c. blank) refl;
  waiting = one_waits-IsWaiting;
  apart = λ c e. cc;
  alone = λ c e o. ground arith;
  free_count = refl;
  unconnect_count = refl;
  waiting_count = refl;
}

-- Three servers with 0, 2 and 4 connections, of which 4 are allowed.
abbrev counts : ℕ → ℤ
counts i = if i == 0 then pos 0 else (if i == 1 then pos 2 else pos 4)

get_balance_server-bound_example : get_balance_server 4 3 counts 5 (λ l. pos 9) (negsuc 0) < 3
get_balance_server-bound_example =
    get_balance_server-bound 4 3 counts 5 (λ l. pos 9) (negsuc 0) (omega arith)

-- Without the second server, none has room and a connection.
abbrev uneven : ℕ → ℤ
uneven i = if i == 2 then pos 4 else pos 0

none_offered : available 4 uneven 0 3 ≡ []
unfolding available
none_offered = refl

one_offered : available 4 counts 0 3 ≡ 1 ∷ []
unfolding available
one_offered = refl

first_picked : chosen (1 ∷ []) (pos 0) ≡ some 1
unfolding chosen
first_picked = refl
