-- ===== src/Connection.antt =====
-- The connections of clients, of connection.cpp and connection.h: a frame is a head of fixed size and a
-- body whose length the head has, and it is read by a state machine from what libevent has buffered.
-- The layout of the head (`nshead_t`), its magic number and the memory that malloc gives are
-- the fields of `Wire`; lengths of the input and the body's length are ints of the source.
pub mod Frame
pub mod Loop
pub mod Chunks
pub mod Flags
pub mod RoundTrip
use Prim.Native.Nat.{zero, suc}
use redis_agent.Base.{
  ℕ, ◌-◌, ◌*◌, ◌^◌, ◌%◌, ◌<◌, ◌≤◌, ◌≡◌, Bool, true, false, Option, none, some, List, [], ◌∷◌, ◌++◌,
  ltb, ◌==◌, if◌then◌else◌, length, take, drop,
}
use redis_agent.Base.Int.{ℤ, pos, negsuc, ltb_ℤ}

-- The fields of `nshead_t` that the code uses; the others are zero.
pub record Head : Type 0 where
  pub log_id : ℕ
  pub provider : List ℕ
  pub magic_num : ℕ
  pub body_len : ℤ

pub record Wire : Type 0 where
  pub head_size : ℕ
  pub magicnum : ℕ
  pub encode : Head → List ℕ
  pub decode : List ℕ → Head
  pub malloc : ℕ → Option (List ℕ)

-- `nshead_state_t`
pub data NsheadState : Type 0 where
  idle : NsheadState
  head : NsheadState
  body : NsheadState
  processing : NsheadState

-- The times of a connection that are set back after each request; 0 is a time not set.
pub record Times : Type 0 where
  pub read_begin : ℕ
  pub read_done : ℕ
  pub backend_request : ℕ
  pub backend_reply : ℕ
  pub write_done : ℕ

-- `nshead_conn_t` with its `connection_t`. `input` and `output` are the buffers of the event, `watermark` and
-- `read_enabled` what it was told.
pub record Conn : Type 0 where
  pub input : List ℕ
  pub output : List ℕ
  pub watermark : ℤ × ℤ
  pub read_enabled : Bool
  pub readbuf : Option (List ℕ)
  pub readbuf_size : ℤ
  pub is_processing : Bool
  pub has_error : Bool
  pub reqip : List ℕ
  pub provider : List ℕ
  pub log_id : ℕ
  pub accept_time : ℕ
  pub times : Times
  pub state : NsheadState
  pub expected_input_len : ℤ

-- A text in an array of characters: up to its first NUL.
abbrev pub c_string : List ℕ → List ℕ
c_string [] = []
c_string (x ∷ xs) = if x == 0 then [] else x ∷ c_string xs

-- A head that its layout can hold, with a body of `n` bytes.
pub record IsHead (h : Head) (n : ℕ) : Type 0 where
  pub log_id : h.log_id < 2 ^ 32
  pub magic_num : h.magic_num < 2 ^ 32
  pub short : length h.provider ≤ 15
  pub text : c_string h.provider ≡ h.provider
  pub len : h.body_len ≡ pos n
  pub small : n < 2 ^ 31

-- What the code relies on: such a head survives its copy to bytes and back, and memory of less than
-- 2 ^ 31 bytes is there.
pub record WireLaws (w : Wire) : Type 0 where
  pub decode-encode : (h : Head) (n : ℕ) → IsHead h n → w.decode (w.encode h) ≡ h
  pub length-encode : (h : Head) (n : ℕ) → IsHead h n → length (w.encode h) ≡ w.head_size
  pub magicnum : w.magicnum < 2 ^ 32
  pub malloc-some : (n : ℕ) → n < 2 ^ 31 → (b : List ℕ) × (w.malloc n ≡ some b) × (length b ≡ n)

-- `snprintf(to, size, "%s", from)`
abbrev pub copy_text : ℕ → List ℕ → List ℕ
copy_text size xs = take (size - 1) (c_string xs)

-- An int from its 32 bits, and the wrap-around of `size * 10`.
abbrev pub int32 : ℕ → ℤ
int32 n = if ltb n (2 ^ 31) then pos n else negsuc (2 ^ 32 - 1 - n)

abbrev pub ten_times : ℤ → ℤ
ten_times (pos n) = int32 ((n * 10) % 2 ^ 32)
ten_times (negsuc n) = int32 ((2 ^ 32 - (suc n * 10) % 2 ^ 32) % 2 ^ 32)

-- The conversion of an int to a size_t.
abbrev pub to_size : ℤ → ℕ
to_size (pos n) = n
to_size (negsuc n) = 2 ^ 64 - suc n

-- `nshead_conn_set_expected_input_len`
abbrev pub set_expected_input_len : ℤ → Conn → Conn
set_expected_input_len size c = record (c) {
  expected_input_len = size;
  watermark = (size, ten_times size);
}

-- What `nshead_conn_read` returns: -1, 0 or 1; `crashed` is a write through a NULL buffer.
pub data Status : Type 0 where
  failed : Status
  unfinished : Status
  finished : Status
  crashed : Status

-- More bytes from the client, as libevent appends them to its buffer.
abbrev pub receive : List ℕ → Conn → Conn
receive bytes c = record (c) { input = c.input ++ bytes }

-- `connection_new`, with `nshead_conn_t` all zero.
abbrev pub connection_new : Conn
connection_new = record {
  input = [];
  output = [];
  watermark = (pos 0, pos 0);
  read_enabled = false;
  readbuf = none;
  readbuf_size = pos 0;
  is_processing = false;
  has_error = false;
  reqip = [];
  provider = [];
  log_id = 0;
  accept_time = 0;
  times = record {
    read_begin = 0;
    read_done = 0;
    backend_request = 0;
    backend_reply = 0;
    write_done = 0;
  };
  state = idle;
  expected_input_len = pos 0;
}

module _ (w : Wire) where
  -- `nshead_conn_prepare_read`
  abbrev pub nshead_conn_prepare_read : Conn → Conn
  nshead_conn_prepare_read c =
      set_expected_input_len (pos (w.head_size)) (record (c) { state = head })

  -- The buffer is kept when it is large enough.
  abbrev pub grow_readbuf : ℤ → Conn → Conn
  grow_readbuf len c = elim (c.readbuf) [
    | none ↦ record (c) { readbuf = w.malloc (to_size len); readbuf_size = len }
    | some b ↦
        if ltb_ℤ c.readbuf_size len
        then record (c) { readbuf = w.malloc (to_size len); readbuf_size = len }
        else c
  ]

  -- The fields that the head sets.
  abbrev pub head_fields : Head → Conn → Conn
  head_fields h c = grow_readbuf h.body_len (
      set_expected_input_len h.body_len
        (record (c) { state = body; provider = copy_text 16 h.provider; log_id = h.log_id }))

  -- The branch of the loop that reads a head, and the one that reads a body; `none` is to go on.
  unfoldable pub accept_head : Head → Conn → Option Status × Conn
  accept_head h c = if h.magic_num == w.magicnum then (none, head_fields h c) else (some failed, c)

  unfoldable pub read_head : Conn → Option Status × Conn
  read_head c =
      let bytes = take (w.head_size) c.input in
      let c₁ = record (c) { input = drop (w.head_size) c.input } in
      if ltb (length bytes) (w.head_size)
      then (some failed, c₁)
      else accept_head (w.decode bytes) c₁

  unfoldable pub read_body : Conn → Option Status × Conn
  read_body c =
      let bytes = take (to_size c.readbuf_size) c.input in
      let c₁ = record (c) { input = drop (to_size c.readbuf_size) c.input } in
      elim (c.readbuf) [
        | none ↦
            if length bytes == 0
            then (if ltb_ℤ (pos 0) c.expected_input_len
                then (some failed, c₁)
                else (some finished, record (c₁) { state = processing }))
            else (some crashed, c₁)
        | some b ↦
            (let c₂ = record (c₁) { readbuf = some (bytes ++ drop (length bytes) b) } in
              if ltb_ℤ (pos (length bytes)) c.expected_input_len
              then (some failed, c₂)
              else (some finished, record (c₂) { state = processing }))
      ]

  unfoldable pub read_step : Conn → Option Status × Conn
  read_step c = elim (c.state) [ head ↦ read_head c | _ ↦ read_body c ]

  -- The loop of `nshead_conn_read`, on fuel; `none` is out of fuel.
  unfoldable pub read_loop : ℕ → Conn → Option Status × Conn
  read_loop zero c = (none, c)
  read_loop (suc fuel) c =
      let rest = read_loop fuel (read_step c).1 in
      if ltb_ℤ (pos (length c.input)) c.expected_input_len
      then (some unfinished, c)
      else (elim ((read_step c).0) [ none ↦ rest | some s ↦ (some s, (read_step c).1) ])

  unfoldable pub nshead_conn_read : Conn → Option Status × Conn
  nshead_conn_read c = read_loop 2 c

  -- `nshead_conn_write`
  abbrev pub frame_head : List ℕ → Conn → Head
  frame_head buffer c = record {
    log_id = c.log_id;
    provider = copy_text 16 c.provider;
    magic_num = w.magicnum;
    body_len = pos (length buffer);
  }

  unfoldable pub nshead_conn_write : List ℕ → Conn → Conn
  nshead_conn_write buffer c = record (c) {
    output = c.output ++ (w.encode (frame_head buffer c) ++ buffer);
  }

  -- `connection_write`
  abbrev pub connection_write : List ℕ → Conn → Conn
  connection_write buffer c = if c.has_error then c else nshead_conn_write buffer c

  -- `connection_prepare_read`
  abbrev pub connection_prepare_read : Conn → Conn
  connection_prepare_read c = record (nshead_conn_prepare_read c) { read_enabled = true }
