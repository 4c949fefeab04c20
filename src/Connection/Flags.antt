-- ===== src/Connection/Flags.antt =====
-- What the loop of `nshead_conn_read` of connection.cpp leaves alone.
use Prim.Native.Nat.{zero, suc}
use redis_agent.Base.{ℕ, ◌≡◌, refl, Option, arith}
use redis_agent.Connection.{
  Wire, Conn, Status, NsheadState, idle, head, body, processing, read_head, accept_head, read_body,
  read_step, read_loop, nshead_conn_read,
}

-- The reading of a frame does not touch the flags of the connection.
abbrev pub SameFlags : Conn → Conn → Type 0
SameFlags c d =
    (d.is_processing ≡ c.is_processing)
    × (d.has_error ≡ c.has_error)
    × (d.read_enabled ≡ c.read_enabled)

module _ (w : Wire) where
  read_head-flags : (c : Conn) → SameFlags c (read_head w c).1
  unfolding read_head accept_head
  read_head-flags c = ground arith

  read_body-flags : (c : Conn) → SameFlags c (read_body w c).1
  unfolding read_body
  read_body-flags c = ground arith

  read_step-flags : (c : Conn) → SameFlags c (read_step w c).1
  unfolding read_step
  read_step-flags c = by_state c.state (read_head-flags c) (read_body-flags c)
    where
      by_state :
          (s : NsheadState)
          → SameFlags c (read_head w c).1
          → SameFlags c (read_body w c).1
          → SameFlags c
              (elim s as (λ _. Option Status × Conn) [ head ↦ read_head w c | _ ↦ read_body w c ]).1
      by_state idle h b = b
      by_state head h b = h
      by_state body h b = b
      by_state processing h b = b

  read_loop-flags : (n : ℕ) (c : Conn) → SameFlags c (read_loop w n c).1
  unfolding read_loop
  read_loop-flags zero c = (refl, refl, refl)
  read_loop-flags (suc n) c =
      let f = read_step-flags c in let g = read_loop-flags n (read_step w c).1 in ground arith

  pub nshead_conn_read-flags : (c : Conn) → SameFlags c (nshead_conn_read w c).1
  unfolding nshead_conn_read
  nshead_conn_read-flags c = read_loop-flags 2 c
