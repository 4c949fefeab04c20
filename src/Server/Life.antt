-- ===== src/Server/Life.antt =====
-- The phases of a client of server.cpp, and the steps between them.
use redis_agent.Base.{
  ℕ, ◌≡◌, ◌⊎◌, inl, inr, ◌≤◌, refl, Bool, true, false, Option, none, some, List, arith, Bool-cases,
}
use redis_agent.Connection.{
  Wire, Conn, Status, failed, unfinished, finished, crashed, nshead_conn_read, nshead_conn_write,
}
use redis_agent.Connection.Flags.{nshead_conn_read-flags}
use redis_agent.Server.{
  Client, What, connected, eof, error, other, with_conn, connection_call_error_cb,
  connection_event_cb, connection_read_cb, server_write, server_process_done, new_client,
  start_reading, after_read, read_done_cb, same_text, monitor,
}
use redis_agent.Server.Steps.{
  Step, Steps, arrive, read, event, answer, done, stop, then_, IsReachable,
}

-- Waiting for a request, serving one, answered as a monitor, closed.
pub data Phase : Type 0 where
  waiting : Phase
  serving : Phase
  watched : Phase
  closed : Phase

abbrev pub IsPhase : Phase → Client → Type 0
IsPhase waiting k =
    (k.freed ≡ 0)
    × (k.in_flight ≡ false)
    × (k.conn.is_processing ≡ false)
    × (k.conn.has_error ≡ false)
    × (k.conn.read_enabled ≡ true)
IsPhase serving k =
    (k.freed ≡ 0)
    × (k.in_flight ≡ true)
    × (k.conn.is_processing ≡ true)
    × (k.conn.read_enabled ≡ false)
IsPhase watched k =
    (k.freed ≡ 0)
    × (k.in_flight ≡ false)
    × (k.conn.is_processing ≡ true)
    × (k.conn.read_enabled ≡ false)
IsPhase closed k = (k.freed ≡ 1) × (k.in_flight ≡ false)

-- The phases that may follow.
abbrev pub follows : Phase → Phase → Bool
follows waiting p = true
follows serving waiting = true
follows serving serving = true
follows serving watched = false
follows serving closed = true
follows watched waiting = false
follows watched serving = false
follows watched watched = true
follows watched closed = false
follows closed p = false

module _ (w : Wire) where
  -- One phase after the other.
  Goes : Phase → Client → Type 0
  Goes p k = (q : Phase) × (follows p q ≡ true) × IsPhase q k

  read_done_cb-IsPhase :
      (now : ℕ) (k : Client)
      → k.freed ≡ 0
      → k.in_flight ≡ false
      → IsPhase serving (read_done_cb w now k) ⊎ IsPhase watched (read_done_cb w now k)
  unfolding read_done_cb nshead_conn_write
  read_done_cb-IsPhase now k f i = elim (Bool-cases (same_text k.conn.provider monitor)) [
    | inl e ↦ inr (rw e (ground arith))
    | inr e ↦ inl (rw e (ground arith))
  ]

  after_read-IsPhase :
      (now : ℕ) (r : Option Status × Conn) (k : Client)
      → IsPhase waiting (with_conn r.1 k)
      → k.dead ≡ false
      → Goes waiting (after_read w now r k)
  unfolding Goes
  after_read-IsPhase now (none, c) k h d = (waiting, refl, h)
  after_read-IsPhase now (some unfinished, c) k h d = (waiting, refl, h)
  after_read-IsPhase now (some crashed, c) k h d = (waiting, refl, h)
  after_read-IsPhase now (some failed, c) k h d = (closed, refl, ground arith)
  after_read-IsPhase now (some finished, c) k h d =
      elim (read_done_cb-IsPhase now (with_conn c k) h.0 h.1) [
        | inl s ↦ (serving, refl, s)
        | inr m ↦ (watched, refl, m)
      ]

  connection_read_cb-IsPhase :
      (now : ℕ) (k : Client)
      → IsPhase waiting k
      → k.dead ≡ false
      → Goes waiting (connection_read_cb w now k)
  unfolding connection_read_cb
  connection_read_cb-IsPhase now k h d =
      let f = nshead_conn_read-flags w (start_reading now k.conn) in
      after_read-IsPhase now (nshead_conn_read w (start_reading now k.conn)) k (ground arith) d

  stay : (p : Phase) (k : Client) → k.freed ≡ 0 → IsPhase p k → Goes p k
  unfolding Goes
  stay waiting k f h = (waiting, refl, h)
  stay serving k f h = (serving, refl, h)
  stay watched k f h = (watched, refl, h)
  stay closed k f h = absurd (ground arith)

  connection_call_error_cb-IsPhase :
      (p : Phase) (k : Client) → k.freed ≡ 0 → IsPhase p k → Goes p (connection_call_error_cb k)
  unfolding Goes
  connection_call_error_cb-IsPhase waiting k f h = (closed, refl, ground arith)
  connection_call_error_cb-IsPhase serving k f h = (serving, refl, ground arith)
  connection_call_error_cb-IsPhase watched k f h = (watched, refl, ground arith)
  connection_call_error_cb-IsPhase closed k f h = absurd (ground arith)

  connection_event_cb-IsPhase :
      (what : What) (p : Phase) (k : Client)
      → k.freed ≡ 0
      → IsPhase p k
      → Goes p (connection_event_cb what k)
  connection_event_cb-IsPhase connected p k f h = stay p k f h
  connection_event_cb-IsPhase eof p k f h = connection_call_error_cb-IsPhase p k f h
  connection_event_cb-IsPhase error p k f h = connection_call_error_cb-IsPhase p k f h
  connection_event_cb-IsPhase other p k f h = stay p k f h

  server_process_done-IsPhase :
      (k : Client) → IsPhase serving k → Goes serving (server_process_done w k)
  unfolding Goes server_process_done
  server_process_done-IsPhase k h = elim (Bool-cases (k.conn.has_error)) [
    | inl e ↦ (closed, refl, rw e (ground arith))
    | inr e ↦ (waiting, refl, rw e (ground arith))
  ]

  server_write-IsPhase :
      (buffer : List ℕ) (k : Client) → IsPhase serving k → Goes serving (server_write w buffer k)
  unfolding Goes nshead_conn_write
  server_write-IsPhase buffer k h = (serving, refl, ground arith)

  -- Every step goes from a phase to one that may follow it.
  pub Step-IsPhase :
      {k l : Client}
      → Step w k l
      → (p : Phase) → IsPhase p k
      → (q : Phase) × (follows p q ≡ true) × IsPhase q l
  unfolding Goes
  Step-IsPhase (arrive bytes k f d r) waiting h = (waiting, refl, h)
  Step-IsPhase (arrive bytes k f d r) serving h = absurd (ground arith)
  Step-IsPhase (arrive bytes k f d r) watched h = absurd (ground arith)
  Step-IsPhase (arrive bytes k f d r) closed h = absurd (ground arith)
  Step-IsPhase (read now k f d r) waiting h = connection_read_cb-IsPhase now k h d
  Step-IsPhase (read now k f d r) serving h = absurd (ground arith)
  Step-IsPhase (read now k f d r) watched h = absurd (ground arith)
  Step-IsPhase (read now k f d r) closed h = absurd (ground arith)
  Step-IsPhase (event what k f d) p h = connection_event_cb-IsPhase what p k f h
  Step-IsPhase (answer buffer k i d) serving h = server_write-IsPhase buffer k h
  Step-IsPhase (answer buffer k i d) waiting h = absurd (ground arith)
  Step-IsPhase (answer buffer k i d) watched h = absurd (ground arith)
  Step-IsPhase (answer buffer k i d) closed h = absurd (ground arith)
  Step-IsPhase (done k i d) serving h = server_process_done-IsPhase k h
  Step-IsPhase (done k i d) waiting h = absurd (ground arith)
  Step-IsPhase (done k i d) watched h = absurd (ground arith)
  Step-IsPhase (done k i d) closed h = absurd (ground arith)

  Steps-IsPhase :
      {k l : Client} → Steps w k l → (p : Phase) → IsPhase p k → (q : Phase) × IsPhase q l
  Steps-IsPhase (stop k) p h = (p, h)
  Steps-IsPhase (then_ s r) p h = let (q, e, h') = Step-IsPhase s p h in Steps-IsPhase r q h'

  -- Whatever happens to an accepted client: its connection is freed at most once, and not while a
  -- request holds it; while it is not freed, nothing is read as long as a request is in flight, and an error is
  -- waiting for the end of a request.
  pub IsReachable-safe :
      (k : Client)
      → IsReachable w k
      → (k.freed ≤ 1)
        × (k.in_flight ≡ true → k.freed ≡ 0)
        × (k.freed ≡ 0 → k.in_flight ≡ true → k.conn.read_enabled ≡ false)
        × (k.freed ≡ 0 → k.conn.has_error ≡ true → k.conn.is_processing ≡ true)
  IsReachable-safe k (addr, now, run) =
      let start : IsPhase waiting (new_client w addr now) = (refl, refl, refl, refl, refl) in
      let (q, h) = Steps-IsPhase run waiting start in of_phase q h
    where
      of_phase :
          (q : Phase)
          → IsPhase q k
          → (k.freed ≤ 1)
            × (k.in_flight ≡ true → k.freed ≡ 0)
            × (k.freed ≡ 0 → k.in_flight ≡ true → k.conn.read_enabled ≡ false)
            × (k.freed ≡ 0 → k.conn.has_error ≡ true → k.conn.is_processing ≡ true)
      of_phase waiting h = ground arith
      of_phase serving h = ground arith
      of_phase watched h = ground arith
      of_phase closed h = ground arith

  -- A client in the phase of a monitor is read from no more, and never freed, whatever comes.
  watched-Steps :
      {k l : Client}
      → Steps w k l
      → IsPhase watched k
      → (l.freed ≡ 0) × (l.conn.read_enabled ≡ false) × (l.in_flight ≡ false)
  watched-Steps (stop k) h = ground arith
  watched-Steps (then_ s r) h = by_phase _ (Step-IsPhase s watched h) (λ i. watched-Steps r i)
    where
      by_phase :
          {k : Client} (P : Type 0)
          → (q : Phase) × (follows watched q ≡ true) × IsPhase q k
          → (IsPhase watched k → P)
          → P
      by_phase P (waiting, e, i) go = absurd (ground arith)
      by_phase P (serving, e, i) go = absurd (ground arith)
      by_phase P (watched, e, i) go = go i
      by_phase P (closed, e, i) go = absurd (ground arith)

  monitor-watched :
      (now : ℕ) (k : Client)
      → k.freed ≡ 0
      → k.in_flight ≡ false
      → same_text k.conn.provider monitor ≡ true
      → IsPhase watched (read_done_cb w now k)
  unfolding read_done_cb nshead_conn_write
  monitor-watched now k f i e = rw e (ground arith)

  -- When a client that waits for a request has sent a whole one whose provider is "__MONITOR__", then
  -- from the callback that reads it on, whatever comes, the client is never freed, nothing is read
  -- from it any more, and no request of it is in flight.
  pub monitored-Steps :
      (now : ℕ) (k l : Client)
      → IsPhase waiting k
      → (nshead_conn_read w (start_reading now k.conn)).0 ≡ some finished
      → same_text (nshead_conn_read w (start_reading now k.conn)).1.provider monitor ≡ true
      → Steps w (connection_read_cb w now k) l
      → (l.freed ≡ 0) × (l.conn.read_enabled ≡ false) × (l.in_flight ≡ false)
  unfolding connection_read_cb
  monitored-Steps now k l h whole asks run =
      let c = (nshead_conn_read w (start_reading now k.conn)).1 in
      let at = monitor-watched now (with_conn c k) h.0 h.1 asks in watched-Steps run (rw whole at)
