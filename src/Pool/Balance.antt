-- ===== src/Pool/Balance.antt =====
-- The choice of a server in pool.cpp: `_pool_get_balance_server`, `_pool_get_random_server` and the
-- first half of `pool_fetch_connect`. The super strategy (forum::slb) and `rand` are parameters.
pub mod Choice
use redis_agent.Base.{
  ℕ, zero, suc, ◌+◌, ◌%◌, Option, none, some, ◌&&◌, ◌||◌, List, [], ◌∷◌, ltb, if◌then◌else◌,
  get_elem?,
}
use redis_agent.Base.Int.{ℤ, pos, negsuc, eqb_ℤ}

-- `_pool_get_random_server`
pub get_random_server : ℕ → ℤ → ℕ
get_random_server server_num (pos key) =
    if ltb 0 key && ltb 0 server_num then key % server_num else 0
get_random_server server_num (negsuc k) = 0

-- The first loop: the servers with a connection, and with room for a further one. `i` is the
-- index, `n` rounds are left; `counts` are the `m_connectCount` of the servers.
unfoldable pub available : ℕ → (ℕ → ℤ) → ℕ → ℕ → List ℕ
available per counts i zero = []
available per counts i (suc n) =
    let rest = available per counts (i + 1) n in
    if eqb_ℤ (counts i) (pos 0) || eqb_ℤ (counts i) (pos per) then rest else i ∷ rest

-- The second loop: from `index` on, round the array, to the first server with a connection.
pub skip_empty : (ℕ → ℤ) → ℕ → ℕ → ℕ → ℕ
skip_empty counts n index zero = index
skip_empty counts n index (suc rounds) =
    let rest = skip_empty counts n ((index + 1) % n) rounds in
    if eqb_ℤ (counts index) (pos 0) then rest else index

-- What `fetchServer` returns is used as an index into the servers it was offered, when it is one.
unfoldable pub chosen : List ℕ → ℤ → Option ℕ
chosen offered (pos id) = get_elem? offered id
chosen offered (negsuc k) = none

-- `_pool_get_balance_server`, with the answer of `rand` and that of `fetchServer` to the servers it
-- is offered.
pub get_balance_server : ℕ → ℕ → (ℕ → ℤ) → ℕ → (List ℕ → ℤ) → ℤ → ℕ
get_balance_server per n counts rand fetch key = elim (available per counts 0 n) [
  | [] ↦ skip_empty counts n (rand % n) n
  | i ∷ is ↦ elim (chosen (i ∷ is) (fetch (i ∷ is))) [
    | none ↦ get_random_server n key
    | some id ↦ if ltb id n then id else get_random_server n key
  ]
]
