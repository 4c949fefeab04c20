-- ===== src/Pool/Server/Ledger/Give.antt =====
-- A connection of pool.cpp that is on its way: it is put back, or it is gone.
use redis_agent.Base.{
  ℕ, suc, ◌+◌, ◌≤◌, ◌≡◌, refl, ap, ◌∙◌, inl, inr, true, false, ◌&&◌, List, [], ◌∷◌, ◌++◌, arith,
  ◌==◌, Bool-cases, length, length-append,
}
use redis_agent.Base.Int.{pos, ◌-ℤ◌, eqb_ℤ, one_less}
use redis_agent.Pool.Links.Segment.{has, has_head, has_tail}
use redis_agent.Pool.Waiting.{waiting_get}
use redis_agent.Pool.Waiting.Laws.{waiting_get-nil, waiting_get-cons}
use redis_agent.Pool.Server.{
  Server, connected, emit, set_conn, free_put, unconnect_put, put_back_connect, connect_destroyed,
}
use redis_agent.Pool.Server.Invariant.{IsServer, free_put-append, unconnect_put-append}
use redis_agent.Pool.Server.Ledger.{Ledger, made, given, give, lose}
use redis_agent.Pool.Server.Ledger.Touch.{Keeps, both, sweep-Keeps, server_destroyed-Keeps}

-- Nowhere in the lists that have pointers.
pub record IsLoose (per c : ℕ) (a : Ledger) : Type 0 where
  pub not_free : has c a.free ≡ false
  pub not_unconnect : has c a.unconnect ≡ false
  pub room : suc (length a.free + length a.unconnect) ≤ per

one_back : (n : ℕ) → pos (1 + n) -ℤ pos 1 ≡ pos (0 + n)
unfolding ◌-ℤ◌
one_back n = ground arith

none_more : (n : ℕ) → pos (0 + n) ≡ pos n
none_more n = ap pos (omega arith)

module _ (per c : ℕ) (s : Server) (a : Ledger) (k : Keeps 1 s a) (loose : IsLoose per c a) where
  put_free : a.waiting ≡ [] → Keeps 0 (put_back_connect per c s) (given per c a [])
  unfolding put_back_connect free_put
  put_free none_wait =
      let idle : IsServer a.drift s a.free a.unconnect [] = rw (← none_wait) k.held in
      let e = waiting_get-nil s.waiting idle.waiting in
      let t = record (emit connected s) { waiting = (waiting_get s.waiting).1 } in
      let alike : IsServer a.drift t a.free a.unconnect a.waiting = rw e k.held in
      let whole =
        free_put-append a.drift t c a.free a.unconnect a.waiting alike loose.not_free
          loose.not_unconnect in
      let longer = length-append a.free (c ∷ []) in
      let kept : Keeps 0 (free_put c t) (record (a) { free = a.free ++ c ∷ [] }) = record {
        held = whole;
        count = k.count ∙ ap pos (omega (arith, longer));
        used = k.used;
        marks = k.marks;
        flag = k.flag;
        over = k.over;
        left = k.left;
        ended = k.ended;
        handed = k.handed;
        reqs = λ p i. rw e (k.reqs p i);
      } in
      let fits : length (a.free ++ c ∷ []) + length a.unconnect ≤ per =
        let l = loose.room in omega (arith, longer) in
      rw (put_back_connect, ap (λ r. r.0) e)
        (sweep-Keeps per (free_put c t) (record (a) { free = a.free ++ c ∷ [] }) kept fits)

  serve_waiting :
      (w : ℕ) (ws : List ℕ)
      → a.waiting ≡ w ∷ ws
      → Keeps 0 (put_back_connect per c s) (given per c a (w ∷ ws))
  unfolding put_back_connect
  serve_waiting w ws some_wait =
      let busy : IsServer a.drift s a.free a.unconnect (w ∷ ws) = rw (← some_wait) k.held in
      let got = waiting_get-cons s.waiting w ws busy.waiting in
      let first_waits : has w a.waiting ≡ true = rw some_wait (has_head w ws) in
      rw (put_back_connect, got.found)
        (record {
          held = record {
            free = busy.free;
            unconnect = busy.unconnect;
            waiting = got.rest;
            apart = busy.apart;
            alone = busy.alone;
            free_count = busy.free_count;
            unconnect_count = busy.unconnect_count;
            waiting_count =
                got.count ∙ ap (λ n. n -ℤ pos 1) busy.waiting_count ∙ one_less (length ws);
          };
          count = k.count ∙ ap pos (omega arith);
          used = λ d. ground (arith, k.used d);
          marks = λ d. ground (arith, k.marks d, k.marks c);
          flag = k.flag;
          over = k.over;
          left = k.left;
          ended = k.ended;
          handed = ground (arith, k.handed, k.reqs w first_waits);
          reqs = λ p i. rw (got.reqs) (k.reqs p (rw some_wait (has_tail p w ws i)));
        })

  -- `_pool_put_back_connect`
  pub give-Keeps : Keeps 0 (put_back_connect per c s) (give per c a)
  unfolding give
  give-Keeps = go a.waiting refl
    where
      go : (ws : List ℕ) → a.waiting ≡ ws → Keeps 0 (put_back_connect per c s) (given per c a ws)
      go [] e = put_free e
      go (w ∷ ws) e = serve_waiting w ws e

  unhandled : Server
  unhandled =
      let t = unconnect_put c (set_conn c (record (s.conns c) { handle = false }) s) in
      record (t) { connect_count = t.connect_count -ℤ pos 1 }

  abbrev unlisted : Ledger
  unlisted = record (a) { unconnect = a.unconnect ++ c ∷ [] }

  unhandled-Keeps : Keeps 0 unhandled unlisted
  unfolding unhandled unconnect_put
  unhandled-Keeps = record {
    held =
        unconnect_put-append a.drift (set_conn c (record (s.conns c) { handle = false }) s) c
          a.unconnect a.free a.waiting k.held loose.not_free loose.not_unconnect;
    count = ap (λ n. n -ℤ pos 1) k.count ∙ one_back (made a);
    used = λ d. ground (arith, k.used d, k.used c);
    marks = λ d. ground (arith, k.marks d, k.marks c);
    flag = k.flag;
    over = k.over;
    left = k.left;
    ended = k.ended;
    handed = k.handed;
    reqs = k.reqs;
  }

  -- The end of `_pool_on_connect_destroyed`
  pub lose-Keeps : Keeps 0 (connect_destroyed c s) (lose c a)
  unfolding lose connect_destroyed unhandled
  lose-Keeps =
      let kept = unhandled-Keeps in
      let same : (unhandled.destroy_flag && eqb_ℤ unhandled.connect_count (pos 0))
          ≡ (a.flag && (made a == 0)) =
        both unhandled.destroy_flag a.flag _ _ kept.flag
          (ap (λ n. eqb_ℤ n (pos 0)) (kept.count ∙ none_more (made a))) in
      elim (Bool-cases (a.flag && (made a == 0))) [
        | inl e ↦ rw (same ∙ e, e) (server_destroyed-Keeps 0 unhandled unlisted kept)
        | inr e ↦ rw (same ∙ e, e) kept
      ]
