-- ===== src/Pool/Server/Serve.antt =====
-- Who gets a connection: `pool_fetch_connect` and `_pool_put_back_connect` of pool.cpp.
use redis_agent.Base.{
  ℕ, ◌≡◌, refl, ◌∙◌, List, [], ◌∷◌, ◌++◌, Option, none, some, true, false, arith, Bool, ap,
  if◌then◌else◌, Bool-cases, inl, inr, length, length-append, sym,
}
use redis_agent.Base.Int.{one_less, one_more, pos, ltb_ℤ, ◌+ℤ◌, ◌-ℤ◌}
use redis_agent.Pool.Links.Segment.{has}
use redis_agent.Pool.Waiting.Laws.{waiting_get-nil, waiting_get-cons, waiting_put-append}
use redis_agent.Pool.Waiting.{waiting_get}
use redis_agent.Pool.Server.{
  Server, Effect, deliver, create, connected, emit, free_put, fetch_connect,
  fetch_connect_from_connectqueue, create_new_connect, add_req_into_waitingqueue, put_back_connect,
}
use redis_agent.Pool.Server.Invariant.{
  IsServer, free_get-cons, unconnect_get-cons, unconnect_get-nil, free_get-keeps,
  unconnect_get-keeps, free_put-append,
}

-- A request is handed to connection `c`, which is then in use; nothing else is asked of the world.
pub record Delivered (c req : ℕ) (log : List Effect) (t : Server) : Type 0 where
  pub effect : t.log ≡ deliver c req ∷ log
  pub busy : (t.conns c).in_use ≡ true

pub enqueue :
    (k p req : ℕ) (s : Server) (ys ws : List ℕ)
    → IsServer k s [] ys ws
    → has p ws ≡ false
    → (log : List Effect) → s.log ≡ log
    → let t = add_req_into_waitingqueue p req s in
      IsServer k t [] ys (ws ++ p ∷ []) × (t.waiting.sub_req p ≡ req) × (t.log ≡ log)
unfolding add_req_into_waitingqueue
enqueue k p req s ys ws is out log e =
    let put = waiting_put-append s.waiting ws p req is.waiting out in
    (
      record {
        free = is.free;
        unconnect = is.unconnect;
        waiting = put.whole;
        apart = is.apart;
        alone = is.alone;
        free_count = is.free_count;
        unconnect_count = is.unconnect_count;
        waiting_count =
            put.count
            ∙ ap (λ k. k +ℤ pos 1) is.waiting_count
            ∙ one_more (length ws)
            ∙ ap pos (sym (length-append ws (p ∷ [])));
      },
      put.request,
      e,
    )

-- The two ways of `pool_fetch_connect`.
pub fetch_some :
    (per p req : ℕ) (s : Server) (x : ℕ)
    → s.free.head ≡ some x
    → fetch_connect per p req s ≡ fetch_connect_from_connectqueue req s
unfolding fetch_connect
fetch_some per p req s x e = go s.free.head e
  where
    go :
        (o : Option ℕ)
        → o ≡ some x
        → elim o [
          | some c ↦ fetch_connect_from_connectqueue req s
          | none ↦
              add_req_into_waitingqueue p req
                (if ltb_ℤ s.connect_count (pos per) then create_new_connect s else s)
        ]
          ≡ fetch_connect_from_connectqueue req s
    go none h = cc
    go (some c) h = refl

pub fetch_none :
    (per p req : ℕ) (s : Server)
    → s.free.head ≡ none
    → fetch_connect per p req s
      ≡ add_req_into_waitingqueue p req
          (if ltb_ℤ s.connect_count (pos per) then create_new_connect s else s)
unfolding fetch_connect
fetch_none per p req s e = go s.free.head e
  where
    go :
        (o : Option ℕ)
        → o ≡ none
        → elim o [
          | some c ↦ fetch_connect_from_connectqueue req s
          | none ↦
              add_req_into_waitingqueue p req
                (if ltb_ℤ s.connect_count (pos per) then create_new_connect s else s)
        ]
          ≡ add_req_into_waitingqueue p req
              (if ltb_ℤ s.connect_count (pos per) then create_new_connect s else s)
    go none h = refl
    go (some c) h = cc

-- When a connection is free, `pool_fetch_connect` hands the oldest free one to the request at once,
-- takes just that one off the free list, and keeps the server well formed.
pub fetch_connect-free :
    (k per p req : ℕ) (s : Server) (x : ℕ) (xs ys ws : List ℕ)
    → IsServer k s (x ∷ xs) ys ws
    → Delivered x req s.log (fetch_connect per p req s)
      × IsServer k (fetch_connect per p req s) xs ys ws
unfolding fetch_connect_from_connectqueue
fetch_connect-free k per p req s x xs ys ws is =
    let (found, rest) = free_get-cons k s x xs ys ws is in
    rw (fetch_some per p req s x is.free.head, fetch_connect_from_connectqueue, found)
      (
        record { effect = ap (λ l. deliver x req ∷ l) ((free_get-keeps s).0); busy = ground arith },
        rest,
      )

-- What `_pool_create_new_connect` leaves of the connections without a handle, and the call it adds.
abbrev pub rest_of : List ℕ → List ℕ
rest_of [] = []
rest_of (y ∷ ys) = ys

abbrev pub asked : List ℕ → List Effect → List Effect
asked [] log = log
asked (y ∷ ys) log = create y ∷ log

-- `_pool_create_new_connect` asks the plugin for the connection that was unconnected longest, once,
-- and asks for nothing when every connection has a handle; the server stays well formed.
pub create_new_connect_lem :
    (k : ℕ) (s : Server) (xs ys ws : List ℕ)
    → IsServer k s xs ys ws
    → IsServer k (create_new_connect s) xs (rest_of ys) ws
      × ((create_new_connect s).log ≡ asked ys s.log)
      × ((create_new_connect s).connect_count ≡ s.connect_count)
unfolding create_new_connect
create_new_connect_lem k s xs [] ws is =
    let e = unconnect_get-nil k s xs ws is in
    rw (create_new_connect, ap (λ k. k.0) e, ap (λ k. k.1) e) (is, refl, refl)
create_new_connect_lem k s xs (y ∷ ys) ws is =
    let (found, rest) = unconnect_get-cons k s y ys xs ws is in
    rw (create_new_connect, found)
      (rest, ap (λ l. create y ∷ l) (unconnect_get-keeps s).0, (unconnect_get-keeps s).1)

-- Whether `pool_fetch_connect` may open a further connection.
abbrev pub may_grow : ℕ → Server → Bool
may_grow per s = ltb_ℤ s.connect_count (pos per)

-- When no connection is free, `pool_fetch_connect` puts the request at the end of the waiting queue,
-- behind all those that wait, and asks the plugin for one more connection just if fewer than
-- `m_connectPerServer` are open and one is unconnected.
pub fetch_connect-queue :
    (k per p req : ℕ) (s : Server) (ys ws : List ℕ)
    → IsServer k s [] ys ws
    → has p ws ≡ false
    → let t = fetch_connect per p req s in
      IsServer k t [] (if may_grow per s then rest_of ys else ys) (ws ++ p ∷ [])
      × (t.waiting.sub_req p ≡ req)
      × (t.log ≡ (if may_grow per s then asked ys s.log else s.log))
unfolding add_req_into_waitingqueue
fetch_connect-queue k per p req s ys ws is out =
    rw (fetch_none per p req s is.free.head) (elim (Bool-cases (may_grow per s)) [
      | inl e ↦
          let (made, log, _) = create_new_connect_lem k s [] ys ws is in
          rw e
            (enqueue k p req (create_new_connect s) (rest_of ys) ws made out (asked ys s.log) log)
      | inr e ↦ rw e (enqueue k p req s ys ws is out s.log refl)
    ])

-- A connection that is put back while requests wait goes to the one that has waited longest: that
-- request leaves the queue, the free list is not touched, and the server stays well formed.
pub put_back_connect-serve :
    (k per c : ℕ) (s : Server) (xs ys : List ℕ) (p : ℕ) (ws : List ℕ)
    → IsServer k s xs ys (p ∷ ws)
    → Delivered c (s.waiting.sub_req p) (connected ∷ s.log) (put_back_connect per c s)
      × IsServer k (put_back_connect per c s) xs ys ws
unfolding put_back_connect
put_back_connect-serve k per c s xs ys p ws is =
    let got = waiting_get-cons s.waiting p ws is.waiting in
    rw (put_back_connect, got.found)
      (
        record { effect = refl; busy = ground arith },
        record {
          free = is.free;
          unconnect = is.unconnect;
          waiting = got.rest;
          apart = is.apart;
          alone = is.alone;
          free_count = is.free_count;
          unconnect_count = is.unconnect_count;
          waiting_count = got.count ∙ ap (λ k. k -ℤ pos 1) is.waiting_count ∙ one_less (length ws);
        },
      )

-- With nobody waiting and no teardown, the connection joins the free list at its end.
pub put_back_connect-idle :
    (k per c : ℕ) (s : Server) (xs ys : List ℕ)
    → IsServer k s xs ys []
    → has c xs ≡ false
    → has c ys ≡ false
    → s.destroy_flag ≡ false
    → IsServer k (put_back_connect per c s) (xs ++ c ∷ []) ys []
      × ((put_back_connect per c s).log ≡ connected ∷ s.log)
unfolding put_back_connect free_put
put_back_connect-idle k per c s xs ys is out out' flag =
    let r = waiting_get s.waiting in
    let e = waiting_get-nil s.waiting is.waiting in
    let t = record (emit connected s) { waiting = r.1 } in
    let alike : IsServer k t xs ys [] = rw e is in
    let put = free_put-append k t c xs ys [] alike out out' in
    rw (put_back_connect, ap (λ k. k.0) e, flag) (put, refl)
