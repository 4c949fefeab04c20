-- ===== src/Pool/Server/Ledger/Answers.antt =====
-- The calls of pool.cpp that are about one connection: its creation, its release, its end.
use redis_agent.Base.{
  ℕ, ◌≡◌, ap, ◌∙◌, inl, inr, true, false, Bool, not, ◌&&◌, [], ◌∷◌, ◌++◌, arith, Bool-cases,
  length-append,
}
use redis_agent.Base.Int.{pos, ◌+ℤ◌}
use redis_agent.Pool.Links.Segment.{has}
use redis_agent.Pool.Server.{
  Server, emit, set_conn, unconnect_put, on_connect_created, release_connect, talked,
}
use redis_agent.Pool.Server.Invariant.{unconnect_put-append}
use redis_agent.Pool.Server.Ledger.{
  Ledger, created, release, erase, made, mark, give, sweep, note_call,
}
use redis_agent.Pool.Server.Ledger.Lists.{length-erase}
use redis_agent.Pool.Server.Ledger.Places.{IsTally}
use redis_agent.Pool.Server.Ledger.Touch.{Keeps, sweep-Keeps}
use redis_agent.Pool.Server.Ledger.Give.{give-Keeps}
use redis_agent.Pool.Server.Ledger.Loose.{
  creating-IsLoose, using-IsLoose, has-erase, one_onto, unset,
}

module _ (per low c : ℕ) (s : Server) (a : Ledger) (k : Keeps 0 s a) (t : IsTally per a) where
  -- The connection is marked neither as in use nor as broken.
  reset : Server
  reset = set_conn c (record (s.conns c) { in_use = false; to_be_destroyed = false }) s

  abbrev answered : Ledger
  answered = record (a) { creating = erase c a.creating; marked = mark c false a.marked }

  created_good :
      has c a.creating ≡ true → Keeps 0 (on_connect_created per c true s) (give per c answered)
  unfolding on_connect_created reset
  created_good h =
      let (loose, out) = creating-IsLoose per c a t h in
      give-Keeps per c (record (reset) { connect_count = s.connect_count +ℤ pos 1 }) answered
        (record {
          held = k.held;
          count = ap (λ n. n +ℤ pos 1) k.count ∙ one_onto (made a);
          used = λ d. let e = unset c d a.using (s.conns d).in_use out (k.used d) in ground arith;
          marks = λ d. ground (arith, k.marks d);
          flag = k.flag;
          over = k.over;
          left = k.left;
          ended = k.ended;
          handed = k.handed;
          reqs = k.reqs;
        })
        (record {
          not_free = loose.not_free;
          not_unconnect = loose.not_unconnect;
          room = loose.room;
        })

  created_bad :
      has c a.creating ≡ true
      → Keeps 0
          (on_connect_created per c false s)
          (sweep per (record (answered) { unconnect = a.unconnect ++ c ∷ [] }))
  unfolding on_connect_created reset unconnect_put
  created_bad h =
      let (loose, out) = creating-IsLoose per c a t h in
      let u = unconnect_put c reset in
      let longer = length-append a.unconnect (c ∷ []) in
      let room = loose.room in
      sweep-Keeps per (set_conn c (record (u.conns c) { handle = false }) u)
        (record (answered) { unconnect = a.unconnect ++ c ∷ [] })
        (record {
          held =
              unconnect_put-append a.drift reset c a.unconnect a.free a.waiting k.held
                loose.not_free loose.not_unconnect;
          count = k.count;
          used = λ d. let e = unset c d a.using (s.conns d).in_use out (k.used d) in ground arith;
          marks = λ d. ground (arith, k.marks d);
          flag = k.flag;
          over = k.over;
          left = k.left;
          ended = k.ended;
          handed = k.handed;
          reqs = k.reqs;
        })
        (omega arith)

  -- The request has left the connection.
  idle : ℕ → Server
  idle cost = emit (talked cost) (set_conn c (record (s.conns c) { in_use = false }) s)

  abbrev left : Ledger
  left = record (a) { using = erase c a.using }

  idle-Keeps : (cost : ℕ) → has c a.using ≡ true → Keeps 1 (idle cost) left
  unfolding idle
  idle-Keeps cost h =
      let (loose, out, few) = using-IsLoose per c a t h in
      record {
        held = k.held;
        count = k.count ∙ ap pos (omega (arith, length-erase c a.using h));
        used = λ d. let e = has-erase d c a.using few in ground (arith, k.used d);
        marks = λ d. ground (arith, k.marks d, k.marks c);
        flag = k.flag;
        over = k.over;
        left = k.left;
        ended = k.ended;
        handed = k.handed;
        reqs = k.reqs;
      }

  pub release-Keeps :
      (failed : Bool) (cost : ℕ)
      → has c a.using ≡ true
      → Keeps 0 (release_connect per c failed cost s) (note_call per low (release c failed cost) a)
  unfolding release_connect note_call idle
  release-Keeps failed cost h =
      let (loose, out, few) = using-IsLoose per c a t h in
      let kept = idle-Keeps cost h in
      let same : (not failed && not ((idle cost).conns c).to_be_destroyed)
          ≡ (not failed && not (a.marked c)) =
        ap (λ b. not failed && not b) (kept.marks c) in
      elim (Bool-cases (not failed && not (a.marked c))) [
        | inl e ↦
            rw (same ∙ e, e)
              (give-Keeps per c (idle cost) left kept (record {
                not_free = loose.not_free;
                not_unconnect = loose.not_unconnect;
                room = loose.room;
              }))
        | inr e ↦
            rw (same ∙ e, e)
              (record {
                held = k.held;
                count = kept.count ∙ ap pos (omega arith);
                used = kept.used;
                marks = kept.marks;
                flag = k.flag;
                over = k.over;
                left = k.left;
                ended = k.ended;
                handed = k.handed;
                reqs = k.reqs;
              })
      ]

  pub created-Keeps :
      (ok : Bool)
      → has c a.creating ≡ true
      → Keeps 0 (on_connect_created per c ok s) (note_call per low (created c ok) a)
  unfolding note_call
  created-Keeps true h = created_good h
  created-Keeps false h = created_bad h
