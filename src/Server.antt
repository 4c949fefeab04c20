-- ===== src/Server.antt =====
-- The clients of the proxy, of server.cpp with the callbacks of connection.cpp: a connection is
-- accepted, its requests are read and answered one after the other, and it is freed after an error. The answers
-- of the system calls and of the white list are arguments.
pub mod Steps
pub mod Life
use redis_agent.Base.{
  ℕ, suc, ◌+◌, ◌≡◌, refl, Bool, true, false, not, ◌&&◌, Option, none, some, List, [], ◌∷◌, ◌==◌,
  if◌then◌else◌,
}
use redis_agent.Base.Int.{pos}
use redis_agent.Connection.{
  Wire, Conn, Times, Status, failed, unfinished, finished, crashed, c_string, copy_text,
  connection_new, nshead_conn_read, connection_write, connection_prepare_read,
}

-- A connection with what happens to it: the calls of `connection_free` on it, the calls of `req_ready`,
-- whether a request that it made ready is not done yet, and whether the process has crashed.
pub record Client : Type 0 where
  pub conn : Conn
  pub freed : ℕ
  pub ready : ℕ
  pub in_flight : Bool
  pub dead : Bool

abbrev pub with_conn : Conn → Client → Client
with_conn c k = record (k) { conn = c }

-- `connection_free`
abbrev pub connection_free : Client → Client
connection_free k = record (k) {
  freed = suc k.freed;
  conn = record (k.conn) { readbuf = none; readbuf_size = pos 0 };
}

-- `error_cb`
abbrev pub error_cb : Client → Client
error_cb k = if k.conn.is_processing then k else connection_free k

-- `connection_call_error_cb`
abbrev pub connection_call_error_cb : Client → Client
connection_call_error_cb k = error_cb (with_conn (record (k.conn) { has_error = true }) k)

-- What libevent tells `connection_event_cb`; `connect_cb` of a client is NULL.
pub data What : Type 0 where
  connected : What
  eof : What
  error : What
  other : What

abbrev pub connection_event_cb : What → Client → Client
connection_event_cb connected k = k
connection_event_cb eof k = connection_call_error_cb k
connection_event_cb error k = connection_call_error_cb k
connection_event_cb other k = k

-- `strcmp(s, t) == 0`
abbrev pub same_text : List ℕ → List ℕ → Bool
same_text [] [] = true
same_text [] (y ∷ ys) = false
same_text (x ∷ xs) [] = false
same_text (x ∷ xs) (y ∷ ys) = (x == y) && same_text xs ys

-- "__MONITOR__"
abbrev pub monitor : List ℕ
monitor = 95 ∷ 95 ∷ 77 ∷ 79 ∷ 78 ∷ 73 ∷ 84 ∷ 79 ∷ 82 ∷ 95 ∷ 95 ∷ []

-- `connection_set_processing` and `connection_disable_read` in `read_done_cb`, with the time.
abbrev pub begin_processing : ℕ → Conn → Conn
begin_processing now c = record (c) {
  is_processing = true;
  read_enabled = false;
  times = record (c.times) { read_done = now };
}

-- `connection_reset_time` of the five times.
abbrev pub times_reset : Times
times_reset = record {
  read_begin = 0;
  read_done = 0;
  backend_request = 0;
  backend_reply = 0;
  write_done = 0;
}

-- The time at which the first bytes of a request are read.
abbrev pub start_reading : ℕ → Conn → Conn
start_reading now c =
    if c.times.read_begin == 0
    then record (c) { times = record (c.times) { read_begin = now } }
    else c

module _ (w : Wire) where
  -- `server_write`
  abbrev pub server_write : List ℕ → Client → Client
  server_write buffer k = with_conn (connection_write w buffer k.conn) k

  -- `read_done_cb`
  unfoldable pub read_done_cb : ℕ → Client → Client
  read_done_cb now k =
      let k₁ = with_conn (begin_processing now k.conn) k in
      if same_text k.conn.provider monitor
      then server_write [] k₁
      else record (k₁) { ready = suc k.ready; in_flight = true }

  -- `connection_read_cb`; a crash ends the process.
  abbrev pub after_read : ℕ → Option Status × Conn → Client → Client
  after_read now r k = elim (r.0) [
    | some s ↦ elim s [
      | finished ↦ read_done_cb now (with_conn r.1 k)
      | failed ↦ connection_call_error_cb (with_conn r.1 k)
      | unfinished ↦ with_conn r.1 k
      | crashed ↦ record (k) { conn = r.1; dead = true }
    ]
    | none ↦ with_conn r.1 k
  ]

  unfoldable pub connection_read_cb : ℕ → Client → Client
  connection_read_cb now k = after_read now (nshead_conn_read w (start_reading now k.conn)) k

  -- `server_process_done`; it ends the request.
  unfoldable pub server_process_done : Client → Client
  server_process_done k =
      let c = record (k.conn) { is_processing = false; times = times_reset } in
      let k₁ = record (k) { conn = c; in_flight = false } in
      if c.has_error then connection_free k₁ else with_conn (connection_prepare_read w c) k₁

  -- The connection that `accept_cb` makes.
  abbrev pub new_client : List ℕ → ℕ → Client
  new_client reqip now = record {
    conn = connection_prepare_read w (record (connection_new) { accept_time = now; reqip = reqip });
    freed = 0;
    ready = 0;
    in_flight = false;
    dead = false;
  }

-- The listening socket: its event is added, the timer that will add it again is set, and the process
-- has called exit.
pub record Listener : Type 0 where
  pub listening : Bool
  pub enable_timer : Bool
  pub exited : Bool

-- What `accept` gives: a descriptor with the address of the client, or -1 with errno.
pub data Accept : Type 0 where
  accepted : List ℕ → Accept
  interrupted : Accept
  no_files : Accept
  broken : Accept

-- What `accept_cb` makes of it.
pub data Taken : Type 0 where
  nothing : Taken
  refused : Taken
  client : Client → Taken

-- `enable_accept`, with the results of `listen` and `event_add`.
pub enable_accept : Bool → Bool → Listener → Listener
enable_accept listen_ok add_ok l =
    if listen_ok && add_ok
    then record { listening = true; enable_timer = false; exited = l.exited }
    else record (l) { exited = true }

-- `accept_cb`, with the answer of `in_whitelist` and the result of `listen(listenfd, 0)`.
pub accept_cb : Wire → (List ℕ → Bool) → Bool → ℕ → Accept → Listener → Taken × Listener
accept_cb w in_whitelist listen_ok now (accepted addr) l =
    if in_whitelist addr then (client (new_client w addr now), l) else (refused, l)
accept_cb w in_whitelist listen_ok now interrupted l = (nothing, l)
accept_cb w in_whitelist listen_ok now no_files l =
    if listen_ok
    then (nothing, record (l) { listening = false; enable_timer = true })
    else (nothing, record (l) { exited = true })
accept_cb w in_whitelist listen_ok now broken l = (nothing, record (l) { exited = true })
