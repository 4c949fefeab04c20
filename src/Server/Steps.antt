-- ===== src/Server/Steps.antt =====
-- What can happen to a client of server.cpp, as steps: bytes arrive while the reading is enabled,
-- libevent calls back until the connection is freed, and the request that is in flight writes and ends.
use redis_agent.Base.{ℕ, ◌≡◌, true, false, List}
use redis_agent.Connection.{Wire, receive}
use redis_agent.Server.{
  Client, What, with_conn, connection_event_cb, connection_read_cb, server_write,
  server_process_done, new_client,
}

pub data Step (w : Wire) : Client → Client → Type 0 where
  arrive :
      (bytes : List ℕ) (k : Client)
      → k.freed ≡ 0
      → k.dead ≡ false
      → k.conn.read_enabled ≡ true
      → Step w k (with_conn (receive bytes k.conn) k)
  read :
      (now : ℕ) (k : Client)
      → k.freed ≡ 0
      → k.dead ≡ false
      → k.conn.read_enabled ≡ true
      → Step w k (connection_read_cb w now k)
  event :
      (what : What) (k : Client)
      → k.freed ≡ 0
      → k.dead ≡ false
      → Step w k (connection_event_cb what k)
  answer :
      (buffer : List ℕ) (k : Client)
      → k.in_flight ≡ true
      → k.dead ≡ false
      → Step w k (server_write w buffer k)
  done : (k : Client) → k.in_flight ≡ true → k.dead ≡ false → Step w k (server_process_done w k)

pub data Steps (w : Wire) : Client → Client → Type 0 where
  stop : (k : Client) → Steps w k k
  then_ : {j k l : Client} → Step w j k → Steps w k l → Steps w j l

-- The states of a client from its accept on.
abbrev pub IsReachable : Wire → Client → Type 0
IsReachable w k = (addr : List ℕ) × (now : ℕ) × Steps w (new_client w addr now) k
