-- ===== src/Examples/Server.antt =====
-- Clients of server.cpp.
use redis_agent.Base.{◌≤◌, ◌≡◌, refl, [], ◌∷◌, true, false}
use redis_agent.Connection.{
  connection_new, frame_head, receive, nshead_conn_read, read_loop, read_step, read_head, read_body,
  accept_head,
}
use redis_agent.Server.{
  monitor, Client, new_client, with_conn, error, connection_event_cb, connection_read_cb,
  read_done_cb,
}
use redis_agent.Server.Steps.{arrive, read, event, stop, then_, IsReachable}
use redis_agent.Server.Life.{serving, IsPhase, IsReachable-safe, monitored-Steps}
use redis_agent.Examples.Connection.{wire, frame_bytes}

abbrev accepted_client : Client
accepted_client = new_client wire (1 ∷ []) 100

abbrev with_bytes : Client
with_bytes = with_conn (receive frame_bytes accepted_client.conn) accepted_client

abbrev busy : Client
busy = connection_read_cb wire 101 with_bytes

busy_serving : IsPhase serving busy
unfolding connection_read_cb read_done_cb nshead_conn_read read_loop read_step read_head read_body
    accept_head
busy_serving = (refl, refl, refl, refl)

-- An error while the request is served.
abbrev busy_broken : Client
busy_broken = connection_event_cb error busy

busy_broken-IsReachable : IsReachable wire busy_broken
unfolding connection_read_cb read_done_cb nshead_conn_read read_loop read_step read_head read_body
    accept_head
busy_broken-IsReachable = (
  1 ∷ [],
  100,
  then_ (arrive frame_bytes accepted_client refl refl refl) (
      then_ (read 101 with_bytes refl refl refl)
        (then_ (event error busy refl refl) (stop busy_broken))),
)

IsReachable-safe_example :
    (busy_broken.freed ≤ 1)
    × (busy_broken.in_flight ≡ true → busy_broken.freed ≡ 0)
    × (busy_broken.freed ≡ 0 → busy_broken.in_flight ≡ true → busy_broken.conn.read_enabled ≡ false)
    × (busy_broken.freed ≡ 0
        → busy_broken.conn.has_error ≡ true
        → busy_broken.conn.is_processing ≡ true)
IsReachable-safe_example = IsReachable-safe wire busy_broken busy_broken-IsReachable

-- A client that sends a frame as a monitor, and then an error.
abbrev asking : Client
asking =
    let frame = wire.encode (frame_head wire [] (record (connection_new) { provider = monitor })) in
    with_conn (receive frame accepted_client.conn) accepted_client

abbrev asked : Client
asked = connection_read_cb wire 101 asking

monitored-Steps_example :
    let k = connection_event_cb error asked in
    (k.freed ≡ 0) × (k.conn.read_enabled ≡ false) × (k.in_flight ≡ false)
unfolding connection_read_cb read_done_cb nshead_conn_read read_loop read_step read_head read_body
    accept_head
monitored-Steps_example =
    monitored-Steps wire 101 asking (connection_event_cb error asked) (refl, refl, refl, refl, refl)
      refl refl (then_ (event error asked refl refl) (stop (connection_event_cb error asked)))
