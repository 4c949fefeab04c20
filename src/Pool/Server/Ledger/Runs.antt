-- ===== src/Pool/Server/Ledger/Runs.antt =====
-- The whole life of a server of pool.cpp, from `pool_build` on.
use redis_agent.Base.{
  ℕ, zero, suc, ◌≡◌, refl, ap, ◌∙◌, false, List, [], ◌∷◌, arith, ltb, length, length-append,
  if◌then◌else◌,
}
use redis_agent.Base.Int.{ℤ, pos}
use redis_agent.Pool.Server.{Server, unconnect_put}
use redis_agent.Pool.Server.Ledger.{Ledger, ServerCall, May, note_call, handle_call}
use redis_agent.Pool.Server.Ledger.Lists.{one, count, count-append}
use redis_agent.Pool.Server.Ledger.Places.{IsTally, note_call-IsTally}
use redis_agent.Pool.Server.Ledger.Touch.{Keeps}
use redis_agent.Pool.Server.Ledger.History.{is_freed, delivered, pool_ends}
use redis_agent.Pool.Server.Ledger.Refines.{handle_call-Keeps}
use redis_agent.Pool.Build.{pool_build, zeroed, add_connects}
use redis_agent.Pool.Build.Begin.{below, pool_build-IsServer}

unfoldable pub handle_calls : ℕ → ℕ → List ServerCall → Server → Server
handle_calls per low [] s = s
handle_calls per low (c ∷ cs) s = handle_calls per low cs (handle_call per low c s)

unfoldable pub note_calls : ℕ → ℕ → List ServerCall → Ledger → Ledger
note_calls per low [] a = a
note_calls per low (c ∷ cs) a = note_calls per low cs (note_call per low c a)

-- Each call may come, and none comes after the server has been freed.
abbrev pub MayAll : ℕ → ℕ → List ServerCall → Ledger → Type 0
MayAll per low [] a = Unit
MayAll per low (c ∷ cs) a = (a.gone ≡ false) × May c a × MayAll per low cs (note_call per low c a)

-- The ledger of a new server.
abbrev pub fresh : ℕ → ℤ → Ledger
fresh per left = record {
  free = [];
  unconnect = below per;
  creating = [];
  using = [];
  dying = [];
  waiting = [];
  reqs = λ p. 0;
  handed = [];
  marked = λ c. false;
  drift = 0;
  flag = false;
  gone = false;
  left = left;
  ended = 0;
}

abbrev pub Follows : ℕ → Server → Ledger → Type 0
Follows per s a = Keeps 0 s a × IsTally per a

pub calls-Follows :
    (per low : ℕ) (cs : List ServerCall) (s : Server) (a : Ledger)
    → Follows per s a
    → MayAll per low cs a
    → Follows per (handle_calls per low cs s) (note_calls per low cs a)
unfolding handle_calls note_calls
calls-Follows per low [] s a f m = f
calls-Follows per low (c ∷ cs) s a (k, t) (g, m, ms) =
    calls-Follows per low cs (handle_call per low c s) (note_call per low c a)
      (handle_call-Keeps per low c s a k t m, note_call-IsTally per low c a m t) ms

-- A new server.
count-below : (n c : ℕ) → count c (below n) ≡ (if ltb c n then 1 else 0)
unfolding one
count-below zero c = ground arith
count-below (suc n) c = ground (arith, count-append c (below n) (n ∷ []), count-below n c)

length-below : (n : ℕ) → length (below n) ≡ n
length-below zero = refl
length-below (suc n) = omega (arith, length-append (below n) (n ∷ []), length-below n)

-- What `unconnect_put` leaves of a zeroed server.
record Zeroed (n : ℤ) (s : Server) : Type 0 where
  left : s.server_count ≡ n
  count : s.connect_count ≡ pos 0
  used : (c : ℕ) → (s.conns c).in_use ≡ false
  marks : (c : ℕ) → (s.conns c).to_be_destroyed ≡ false
  flag : s.destroy_flag ≡ false
  log : s.log ≡ []

add_connects-Zeroed : (k : ℕ) (n : ℤ) → Zeroed n (add_connects k (zeroed n))
unfolding add_connects unconnect_put
add_connects-Zeroed zero n = record {
  left = refl;
  count = refl;
  used = λ c. refl;
  marks = λ c. refl;
  flag = refl;
  log = refl;
}
add_connects-Zeroed (suc k) n =
    let z = add_connects-Zeroed k n in
    record {
      left = z.left;
      count = z.count;
      used = z.used;
      marks = z.marks;
      flag = z.flag;
      log = z.log;
    }

pub pool_build-Follows :
    (idx : ℤ) (server_count per : ℕ) (retry : ℤ) (i : ℕ)
    → Follows per ((pool_build idx server_count per retry).servers i) (fresh per (pos server_count))
unfolding pool_build
pool_build-Follows idx server_count per retry i =
    let z = add_connects-Zeroed per (pos server_count) in
    (
      record {
        held = pool_build-IsServer idx server_count per retry i;
        count = z.count ∙ ap pos (omega arith);
        used = z.used;
        marks = z.marks;
        flag = z.flag;
        over = ap is_freed z.log;
        left = z.left;
        ended = ap pool_ends z.log;
        handed = ap delivered z.log;
        reqs = λ p i. cc;
      },
      record {
        once = λ c. omega (arith, count-below per c);
        total = omega (arith, length-below per);
      },
    )

-- Whatever happens to a server that `pool_build` made, in any order the plugin and the requests may
-- choose, its lists, counts and flags are those of its ledger, in which each of its connections is at
-- one place and no other connection is at any.
pub handle_calls-Follows :
    (idx : ℤ) (server_count per low : ℕ) (retry : ℤ) (i : ℕ) (cs : List ServerCall)
    → MayAll per low cs (fresh per (pos server_count))
    → Follows per
        (handle_calls per low cs ((pool_build idx server_count per retry).servers i))
        (note_calls per low cs (fresh per (pos server_count)))
handle_calls-Follows idx server_count per low retry i cs m =
    calls-Follows per low cs ((pool_build idx server_count per retry).servers i)
      (fresh per (pos server_count)) (pool_build-Follows idx server_count per retry i) m
