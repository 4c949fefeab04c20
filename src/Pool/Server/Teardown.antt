-- ===== src/Pool/Server/Teardown.antt =====
-- How a server of pool.cpp is taken down.
use redis_agent.Base.{
  ℕ, zero, suc, ◌+◌, ◌≤◌, ◌≡◌, refl, sym, ◌∙◌, ap, List, [], ◌∷◌, ◌++◌, none, Bool, true, false,
  arith, length, length-append, ◌&&◌,
}
use redis_agent.Base.Int.{short_zero, pos, ◌+ℤ◌, ◌-ℤ◌}
use redis_agent.Pool.Links.{blank}
use redis_agent.Pool.Links.Segment.{has, IsQueue}
use redis_agent.Pool.Waiting.{waiting_get}
use redis_agent.Pool.Waiting.Laws.{waiting_get-nil}
use redis_agent.Pool.Links.Remove.{rm-blank}
use redis_agent.Pool.Server.{
  Server, Effect, destroy, emit, free_get, unconnect_put, free_put, free_rm, server_destroy,
  server_destroyed, destroy_free, at_rest, put_back_connect, on_connect_destroyed,
  connect_destroyed, connected, unconnected,
}
use redis_agent.Pool.Server.Invariant.{
  IsServer, free_get-cons, free_get-nil, free_get-keeps, free_put-append, free_put-keeps,
}

-- The calls that destroy the connections `xs`, first one first, before those of `log`; the log has
-- the last first.
abbrev pub destroys : List ℕ → List Effect → List Effect
destroys [] log = log
destroys (x ∷ xs) log = destroys xs (destroy x ∷ log)

destroy_free_lem :
    (k fuel : ℕ) (s : Server) (xs ys ws : List ℕ)
    → IsServer k s xs ys ws
    → length xs ≤ fuel
    → IsServer k (destroy_free fuel s) [] ys ws × ((destroy_free fuel s).log ≡ destroys xs s.log)
unfolding destroy_free
destroy_free_lem k zero s [] ys ws is h = (is, refl)
destroy_free_lem k zero s (x ∷ xs) ys ws is h = absurd (omega arith)
destroy_free_lem k (suc fuel) s [] ys ws is h =
    let e = free_get-nil k s ys ws is in
    rw (destroy_free, ap (λ k. k.0) e, ap (λ k. k.1) e) (is, refl)
destroy_free_lem k (suc fuel) s (x ∷ xs) ys ws is h =
    let (found, rest) = free_get-cons k s x xs ys ws is in
    let (empty, log) =
      destroy_free_lem k fuel (emit (destroy x) (free_get s).1) xs ys ws rest (omega arith) in
    rw (destroy_free, found)
      (empty, log ∙ ap (λ l. destroys xs (destroy x ∷ l)) (free_get-keeps s).0)

-- `_pool_server_destroy` on a server with free connections asks the plugin to destroy each of them
-- once, oldest first, and leaves the free list empty; the loop needs no more rounds than
-- `m_connectPerServer`.
pub server_destroy-drain :
    (k per : ℕ) (s : Server) (x : ℕ) (xs ys ws : List ℕ)
    → IsServer k s (x ∷ xs) ys ws
    → length xs ≤ per
    → IsServer k (server_destroy per s) [] ys ws
      × ((server_destroy per s).log ≡ destroys (x ∷ xs) s.log)
unfolding server_destroy
server_destroy-drain k per s x xs ys ws is h =
    let (found, rest) = free_get-cons k s x xs ys ws is in
    let (empty, log) = destroy_free_lem k per (emit (destroy x) (free_get s).1) xs ys ws rest h in
    rw (server_destroy, found)
      (empty, log ∙ ap (λ l. destroys xs (destroy x ∷ l)) (free_get-keeps s).0)

at_rest-counts :
    (per : ℕ) (s : Server) (xs ys ws : List ℕ)
    → IsServer 0 s xs ys ws
    → length xs + length ys ≡ per
    → at_rest per s ≡ true
unfolding at_rest ◌+ℤ◌
at_rest-counts per s xs ys ws is e =
    let free : s.free.count ≡ pos (length xs) = sym (short_zero s.free.count) ∙ is.free_count in
    rw (free, is.unconnect_count) (ground arith)

drain :
    (k per : ℕ) (s : Server) (xs : List ℕ) (c : ℕ) (ys ws : List ℕ)
    → IsServer k s (xs ++ c ∷ []) ys ws
    → length xs ≤ per
    → IsServer k (server_destroy per s) [] ys ws
      × ((server_destroy per s).log ≡ destroys (xs ++ c ∷ []) s.log)
drain k per s [] c ys ws is h = server_destroy-drain k per s c [] ys ws is h
drain k per s (x ∷ xs) c ys ws is h =
    server_destroy-drain k per s x (xs ++ c ∷ []) ys ws is
      (rw (length-append xs (c ∷ [])) (omega arith))

and_true : (a b : Bool) → a ≡ true → b ≡ true → (a && b) ≡ true
and_true a b e f = ground arith

-- The branch of `_pool_put_back_connect` with nobody waiting.
put_back_idle :
    (per c : ℕ) (s : Server)
    → let u = free_put c (record (emit connected s) { waiting = (waiting_get s.waiting).1 }) in
      (waiting_get s.waiting).0 ≡ none
      → (u.destroy_flag && at_rest per u) ≡ true
      → put_back_connect per c s ≡ server_destroy per u
unfolding put_back_connect
put_back_idle per c s e h = rw (put_back_connect, e, h) refl

-- During a teardown, when the last connection comes back and nobody waits, every free connection,
-- this one last, is destroyed, in the order of the free list.
pub put_back_connect-teardown :
    (per c : ℕ) (s : Server) (xs ys : List ℕ)
    → IsServer 0 s xs ys []
    → has c xs ≡ false
    → has c ys ≡ false
    → s.destroy_flag ≡ true
    → length xs + 1 + length ys ≡ per
    → IsServer 0 (put_back_connect per c s) [] ys []
      × ((put_back_connect per c s).log ≡ destroys (xs ++ c ∷ []) (connected ∷ s.log))
put_back_connect-teardown per c s xs ys is out out' flag full =
    let r = waiting_get s.waiting in
    let e = waiting_get-nil s.waiting is.waiting in
    let t = record (emit connected s) { waiting = r.1 } in
    let alike : IsServer 0 t xs ys [] = rw e is in
    let put = free_put-append 0 t c xs ys [] alike out out' in
    let u = free_put c t in
    let rest : at_rest per u ≡ true =
      at_rest-counts per u (xs ++ c ∷ []) ys [] put
        (rw (length-append xs (c ∷ [])) (omega arith)) in
    let (empty, log) = drain 0 per u xs c ys [] put (omega arith) in
    let down = and_true u.destroy_flag (at_rest per u) ((free_put-keeps c t).1 ∙ flag) rest in
    rw (put_back_idle per c s (ap (λ k. k.0) e) down)
      (empty, log ∙ ap (λ l. destroys (xs ++ c ∷ []) l) ((free_put-keeps c t).0))

connect_destroyed-free : (c : ℕ) (s : Server) → (connect_destroyed c s).free ≡ s.free
unfolding connect_destroyed unconnect_put server_destroyed
connect_destroyed-free c s = ground arith

-- A connection that is neither in use nor in the free list, as `pool_release_connect` leaves it after
-- an error, is taken off the count of free connections when it is destroyed, though the free list
-- itself stays as it was.
pub on_connect_destroyed-drift :
    (c : ℕ) (s : Server) (xs : List ℕ)
    → IsQueue s.nodes s.free xs
    → s.nodes c ≡ blank
    → has c xs ≡ false
    → (s.conns c).in_use ≡ false
    → (on_connect_destroyed c s).free ≡ record (s.free) { count = s.free.count -ℤ pos 1 }
unfolding on_connect_destroyed free_rm
on_connect_destroyed-drift c s xs is alone out idle =
    let (q, _) = rm-blank s.nodes s.free xs c is alone out in
    rw (on_connect_destroyed, idle) (connect_destroyed-free c (free_rm c (emit unconnected s)) ∙ q)
