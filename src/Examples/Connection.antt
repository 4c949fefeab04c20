-- ===== src/Examples/Connection.antt =====
-- Frames for connection.cpp, with a layout of the head in nineteen places.
use Prim.Native.Nat.{zero, suc}
use redis_agent.Base.{
  ℕ, ◌≤◌, ◌≡◌, refl, ap, inl, inr, List, [], ◌∷◌, ◌++◌, some, arith, length, take, drop,
}
use redis_agent.Base.Int.{pos, pos_part}
use redis_agent.Connection.{
  Wire, WireLaws, Head, Conn, Status, finished, connection_new, connection_prepare_read,
  nshead_conn_read, nshead_conn_write, frame_head, copy_text, receive, read_loop, read_head,
  read_body, accept_head, read_step,
}
use redis_agent.Connection.Frame.{IsWaiting}
use redis_agent.Connection.Loop.{nshead_conn_read-total}
use redis_agent.Connection.Chunks.{ReadsAs, read_chunks, nshead_conn_read-read_chunks}
use redis_agent.Connection.RoundTrip.{
  AfterFrame, nshead_conn_read-connection_write, nshead_conn_read-reused,
}

abbrev pad : ℕ → List ℕ → List ℕ
pad zero xs = []
pad (suc n) [] = 0 ∷ pad n []
pad (suc n) (x ∷ xs) = x ∷ pad n xs

abbrev zeros : ℕ → List ℕ
zeros n = pad n []

abbrev decoded : List ℕ → Head
decoded (l ∷ m ∷ k ∷ n ∷ cells) = record {
  log_id = l;
  provider = take k cells;
  magic_num = m;
  body_len = pos n;
}
decoded xs = record { log_id = 0; provider = []; magic_num = 0; body_len = pos 0 }

abbrev pub wire : Wire
wire = record {
  head_size = 19;
  magicnum = 7;
  encode =
      λ h. h.log_id ∷ h.magic_num ∷ length h.provider ∷ pos_part h.body_len ∷ pad 15 h.provider;
  decode = decoded;
  malloc = λ n. some (zeros n);
}

length-pad : (n : ℕ) (xs : List ℕ) → length (pad n xs) ≡ n
length-pad zero xs = refl
length-pad (suc n) [] = ap suc (length-pad n [])
length-pad (suc n) (x ∷ xs) = ap suc (length-pad n xs)

take-pad : (n : ℕ) (xs : List ℕ) → length xs ≤ n → take (length xs) (pad n xs) ≡ xs
take-pad zero [] h = refl
take-pad zero (x ∷ xs) h = absurd (omega arith)
take-pad (suc n) [] h = refl
take-pad (suc n) (x ∷ xs) h = ap (λ z. x ∷ z) (take-pad n xs (omega arith))

pub wire-laws : WireLaws wire
wire-laws = record {
  decode-encode = λ h n f. rw (take-pad 15 h.provider f.short, f.len) refl;
  length-encode = λ h n f. let cells = length-pad 15 h.provider in omega (arith, cells);
  magicnum = omega arith;
  malloc-some = λ n small. (zeros n, refl, length-pad n []);
}

abbrev pub idle_conn : Conn
idle_conn = connection_prepare_read wire connection_new

abbrev writer : Conn
writer = record (connection_new) { provider = 112 ∷ 104 ∷ 112 ∷ []; log_id = 42 }

-- The body `3, 4`, written and read.
abbrev body_bytes : List ℕ
body_bytes = 3 ∷ 4 ∷ []

abbrev pub frame_bytes : List ℕ
frame_bytes = wire.encode (frame_head wire body_bytes writer) ++ body_bytes

abbrev reader : Conn
reader = receive frame_bytes idle_conn

reader_waits : IsWaiting wire reader
reader_waits = record { state_head = refl; expected = refl; buffer = inl refl }

nshead_conn_read-connection_write_example :
    let r = nshead_conn_read wire reader in
    (r.0 ≡ some finished)
    × ((b : List ℕ) × (r.1.readbuf ≡ some b) × (take 2 b ≡ body_bytes))
    × (r.1.provider ≡ copy_text 16 (112 ∷ 104 ∷ 112 ∷ []))
    × (r.1.log_id ≡ 42)
unfolding nshead_conn_write
nshead_conn_read-connection_write_example =
    nshead_conn_read-connection_write wire wire-laws writer reader body_bytes refl refl
      (omega arith) (omega arith) reader_waits refl

-- The frame in three pieces.
nshead_conn_read-read_chunks_example :
    ReadsAs wire idle_conn
      (take 5 frame_bytes ++ (drop 5 frame_bytes ++ ([] ++ [])))
      (read_chunks wire (take 5 frame_bytes) (drop 5 frame_bytes ∷ [] ∷ []) idle_conn)
nshead_conn_read-read_chunks_example =
    nshead_conn_read-read_chunks wire (take 5 frame_bytes) (drop 5 frame_bytes ∷ [] ∷ []) idle_conn

pieces_finished :
    (read_chunks wire (take 5 frame_bytes) (drop 5 frame_bytes ∷ [] ∷ []) idle_conn).0
    ≡ some finished
unfolding read_chunks nshead_conn_read read_loop read_step read_head read_body accept_head
pieces_finished = refl

nshead_conn_read-total_example :
    (read_loop wire 5 reader ≡ nshead_conn_read wire reader)
    × ((s : Status) × ((nshead_conn_read wire reader).0 ≡ some s))
nshead_conn_read-total_example = nshead_conn_read-total wire 3 reader

-- A buffer of four bytes takes the first two bytes of the next request with the body.
abbrev used_conn : Conn
used_conn = record (idle_conn) {
  readbuf = some (9 ∷ 9 ∷ 9 ∷ 9 ∷ []);
  readbuf_size = pos 4;
  input = wire.encode (frame_head wire body_bytes writer) ++ (3 ∷ 4 ∷ 5 ∷ 6 ∷ 7 ∷ []);
}

nshead_conn_read-reused_example :
    AfterFrame
      (frame_head wire body_bytes writer)
      (3 ∷ 4 ∷ 5 ∷ 6 ∷ 7 ∷ [])
      (9 ∷ 9 ∷ 9 ∷ 9 ∷ [])
      4
      (nshead_conn_read wire used_conn)
nshead_conn_read-reused_example =
    nshead_conn_read-reused wire wire-laws used_conn (frame_head wire body_bytes writer)
      (3 ∷ 4 ∷ 5 ∷ 6 ∷ 7 ∷ []) (9 ∷ 9 ∷ 9 ∷ 9 ∷ []) 2 4
      (record {
        state_head = refl;
        expected = refl;
        buffer = inr (9 ∷ 9 ∷ 9 ∷ 9 ∷ [], 4, (refl, refl, refl));
      })
      (refl, refl, refl)
      (record {
        magic = refl;
        head = record {
          log_id = omega arith;
          magic_num = omega arith;
          short = omega arith;
          text = refl;
          len = refl;
          small = omega arith;
        };
      })
      refl (omega arith) (omega arith)
