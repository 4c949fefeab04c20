-- ===== src/Examples/Ledger.antt =====
-- Servers with two connections, for the life of a server of pool.cpp.
use redis_agent.Base.{ℕ, ◌≡◌, refl, true, false, List, [], ◌∷◌, ◌++◌, ◌∙◌, ◌==◌, arith, length, map}
use redis_agent.Base.Int.{pos}
use redis_agent.Pool.Server
use redis_agent.Pool.Server.{Server}
use redis_agent.Pool.Server.Ledger.{
  Ledger, ServerCall, fetch, created, release, destroyed, tick, teardown, note_call, handle_call,
  May, give, sweep, ask, lost, lose,
}
use redis_agent.Pool.Links.Segment.{has}
use redis_agent.Pool.Server.Ledger.History.{is_freed, delivered}
use redis_agent.Pool.Server.Ledger.Runs.{
  handle_calls, note_calls, MayAll, fresh, Follows, pool_build-Follows, calls-Follows,
  handle_calls-Follows,
}
use redis_agent.Pool.Server.Ledger.End.{destroyed-freed}
use redis_agent.Pool.Server.Ledger.Stuck.{destroyed-kept}
use redis_agent.Pool.Server.Ledger.Order.{served, brought}
use redis_agent.Pool.Server.Ledger.Served.{handle_calls-served}
use redis_agent.Pool.Server.Ledger.Exclusive.{turns, handle_call-turns}
use redis_agent.Pool.Waiting.Laws.{IsWaiting}
use redis_agent.Pool.Build.{pool_build}

abbrev new_server : Server
new_server = (pool_build (pos 5) 1 2 (pos 1)).servers 0

-- Two requests on one connection, which breaks.
abbrev broken : List ServerCall
broken =
    fetch 7 42
    ∷ created 0 true
    ∷ tick
    ∷ fetch 8 43
    ∷ created 1 false
    ∷ release 0 false 3
    ∷ destroyed 0
    ∷ release 0 false 1
    ∷ destroyed 0
    ∷ teardown
    ∷ []

broken-MayAll : MayAll 2 1 broken (fresh 2 (pos 1))
unfolding note_call give sweep ask lost lose
broken-MayAll = (
  refl,
  refl,
  (
    refl,
    refl,
    (
      refl,
      refl,
      (
        refl,
        refl,
        (refl, refl, (refl, refl, (refl, refl, (refl, refl, (refl, refl, (refl, refl, tt)))))),
      ),
    ),
  ),
)

handle_calls-Follows_example :
    Follows 2 (handle_calls 2 1 broken new_server) (note_calls 2 1 broken (fresh 2 (pos 1)))
handle_calls-Follows_example = handle_calls-Follows (pos 5) 1 2 1 (pos 1) 0 broken broken-MayAll

-- A connection that was released after an error.
abbrev failed : List ServerCall
failed = fetch 7 42 ∷ created 0 true ∷ release 0 true 3 ∷ []

failed-MayAll : MayAll 2 1 failed (fresh 2 (pos 1))
unfolding note_call give sweep ask
failed-MayAll = (refl, refl, (refl, refl, (refl, refl, tt)))

failed_ledger : Ledger
failed_ledger = note_calls 2 1 failed (fresh 2 (pos 1))

failed-Follows : Follows 2 (handle_calls 2 1 failed new_server) failed_ledger
unfolding failed_ledger
failed-Follows =
    calls-Follows 2 1 failed new_server (fresh 2 (pos 1)) (pool_build-Follows (pos 5) 1 2 (pos 1) 0)
      failed-MayAll

-- Later the other connection is used and comes back.
abbrev later : List ServerCall
later = fetch 9 44 ∷ created 1 true ∷ release 1 false 3 ∷ []

later-MayAll : MayAll 2 1 (destroyed 0 ∷ later) failed_ledger
unfolding failed_ledger note_calls note_call give sweep ask lost lose
later-MayAll = (refl, refl, (refl, refl, (refl, refl, (refl, refl, tt))))

free_later : has 1 (note_calls 2 1 (destroyed 0 ∷ later) failed_ledger).free ≡ true
unfolding failed_ledger note_calls note_call give sweep ask lost lose
free_later = refl

no_teardown : (note_calls 2 1 (destroyed 0 ∷ later) failed_ledger).flag ≡ false
unfolding failed_ledger note_calls note_call give sweep ask lost lose
no_teardown = refl

failed_dies : has 0 failed_ledger.dying ≡ true
unfolding failed_ledger note_calls note_call give sweep ask
failed_dies = refl

destroyed-kept_example :
    let b = note_calls 2 1 (destroyed 0 ∷ later) failed_ledger in
    let t = handle_calls 2 1 (destroyed 0 ∷ later) (handle_calls 2 1 failed new_server) in
    (Server.at_rest 2 t ≡ false)
    × Follows 2 (handle_call 2 1 teardown t) (note_call 2 1 teardown b)
    × (has 1 (note_call 2 1 teardown b).free ≡ true)
destroyed-kept_example =
    destroyed-kept 2 1 0 1 later teardown (handle_calls 2 1 failed new_server) failed_ledger
      failed-Follows failed_dies later-MayAll no_teardown free_later refl

-- Two connections come back, and the server is torn down.
abbrev used_well : List ServerCall
used_well =
    fetch 7 42
    ∷ fetch 8 43
    ∷ created 0 true
    ∷ created 1 true
    ∷ release 0 false 3
    ∷ release 1 false 4
    ∷ teardown
    ∷ []

used_well-MayAll : MayAll 2 1 used_well (fresh 2 (pos 1))
unfolding note_call give sweep ask
used_well-MayAll = (
  refl,
  refl,
  (refl, refl, (refl, refl, (refl, refl, (refl, refl, (refl, refl, (refl, refl, tt)))))),
)

torn_down : Ledger
torn_down = note_calls 2 1 used_well (fresh 2 (pos 1))

torn_down-Follows : Follows 2 (handle_calls 2 1 used_well new_server) torn_down
unfolding torn_down
torn_down-Follows =
    calls-Follows 2 1 used_well new_server (fresh 2 (pos 1))
      (pool_build-Follows (pos 5) 1 2 (pos 1) 0) used_well-MayAll

abbrev IsTorn : Ledger → Type 0
IsTorn a =
    (a.flag ≡ true) × (a.gone ≡ false) × (a.free ≡ []) × (a.using ≡ []) × (length a.dying ≡ 2)

torn_down-IsTorn : IsTorn torn_down
unfolding torn_down note_calls note_call give sweep ask
torn_down-IsTorn = (refl, refl, refl, refl, refl)

reports-MayAll : MayAll 2 1 (map destroyed (1 ∷ 0 ∷ [])) torn_down
unfolding torn_down note_calls note_call give sweep ask lost lose
reports-MayAll = (refl, refl, (refl, refl, tt))

destroyed-freed_example :
    is_freed
      (handle_calls 2 1 (map destroyed (1 ∷ 0 ∷ [])) (handle_calls 2 1 used_well new_server)).log
    ≡ (length torn_down.dying == 2)
destroyed-freed_example =
    destroyed-freed 2 1 (1 ∷ 0 ∷ []) (handle_calls 2 1 used_well new_server) torn_down
      torn_down-Follows torn_down-IsTorn.0 torn_down-IsTorn.1 torn_down-IsTorn.2 torn_down-IsTorn.3
      (omega (arith, torn_down-IsTorn.4)) reports-MayAll

-- Three requests for one connection: two are served, one still waits.
abbrev three : List ServerCall
three = fetch 7 42 ∷ fetch 8 43 ∷ fetch 9 44 ∷ created 0 true ∷ release 0 false 3 ∷ []

three-MayAll : MayAll 2 1 three (fresh 2 (pos 1))
unfolding note_call give sweep ask
three-MayAll = (refl, refl, (refl, refl, (refl, refl, (refl, refl, (refl, refl, tt)))))

handle_calls-served_example :
    let s = handle_calls 2 1 three new_server in
    (ws : List ℕ) × IsWaiting s.waiting ws
    × (served (delivered s.log) ++ map s.waiting.sub_req ws ≡ brought three)
handle_calls-served_example =
    handle_calls-served (pos 5) 1 2 1 (pos 1) 0 three three-MayAll
      (refl, (refl, (refl, (refl, (refl, tt)))))

one_waits_on :
    map
      (note_calls 2 1 three (fresh 2 (pos 1))).reqs
      (note_calls 2 1 three (fresh 2 (pos 1))).waiting
    ≡ 44 ∷ []
unfolding note_calls note_call give sweep ask
one_waits_on = refl

three_ledger : Ledger
three_ledger = note_calls 2 1 three (fresh 2 (pos 1))

three-Follows : Follows 2 (handle_calls 2 1 three new_server) three_ledger
unfolding three_ledger
three-Follows =
    calls-Follows 2 1 three new_server (fresh 2 (pos 1)) (pool_build-Follows (pos 5) 1 2 (pos 1) 0)
      three-MayAll

fourth-May : May (fetch 7 45) three_ledger
unfolding three_ledger note_calls note_call give sweep ask
fourth-May = refl

first_busy : has 0 three_ledger.using ≡ true
unfolding three_ledger note_calls note_call give sweep ask
first_busy = refl

handle_call-turns_example :
    let s = handle_calls 2 1 three new_server in
    turns 0 (delivered (handle_call 2 1 (fetch 7 45) s).log) ≡ turns 0 (delivered s.log)
handle_call-turns_example =
    handle_call-turns 2 1 0 (fetch 7 45) (handle_calls 2 1 three new_server) three_ledger
      three-Follows fourth-May (three-Follows.0.used 0 ∙ first_busy) refl
