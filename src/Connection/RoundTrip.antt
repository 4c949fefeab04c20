-- ===== src/Connection/RoundTrip.antt =====
-- What one end writes with `nshead_conn_write` of connection.cpp, the other reads with `nshead_conn_read`.
use Prim.Native.Nat.{zero, suc}
use redis_agent.Base.{
  ℕ, ◌-◌, ◌^◌, ◌<◌, ◌≤◌, ◌≡◌, ◌∙◌, ap, refl, inl, inr, false, Option, some, List, [], ◌∷◌, ◌++◌,
  ◌==◌, Bool-cases, arith, length, take, drop, length-append, take_all, take_zero, length-take_cap,
  take-take-append,
}
use redis_agent.Base.Int.{ℤ, pos, ltb_ℤ}
use redis_agent.Connection.{
  Wire, WireLaws, Head, IsHead, Conn, Status, finished, head, body, processing, read_loop,
  nshead_conn_read, head_fields, grow_readbuf, c_string, copy_text, set_expected_input_len,
  nshead_conn_write, frame_head, connection_write,
}
use redis_agent.Connection.Frame.{
  IsBuffered, IsWaiting, IsFrame, read_head-encode, grow-room, read_body-buffered,
}
use redis_agent.Connection.Loop.{head_first, loop_ends, step-body}

-- A text survives a second copy.
c_string-take : (n : ℕ) (xs : List ℕ) → c_string (take n (c_string xs)) ≡ take n (c_string xs)
c_string-take n [] = refl
c_string-take zero (x ∷ xs) = rw (take_zero (c_string (x ∷ xs))) refl
c_string-take (suc n) (x ∷ xs) = elim (Bool-cases (x == 0)) [
  | inl e ↦ rw e refl
  | inr e ↦ rw e (rw (e, c_string-take n xs) refl)
]

copy_text-copy_text : (n : ℕ) (xs : List ℕ) → copy_text n (copy_text n xs) ≡ copy_text n xs
copy_text-copy_text n xs =
    rw (c_string-take (n - 1) xs)
      (take_all (n - 1) (take (n - 1) (c_string xs)) (length-take_cap (n - 1) (c_string xs)))

-- A frame with the given body and what follows it was read into a buffer of `k` bytes that held `b`.
abbrev pub AfterFrame : Head → List ℕ → List ℕ → ℕ → Option Status × Conn → Type 0
AfterFrame h rest b k r =
    (r.0 ≡ some finished)
    × (r.1.readbuf ≡ some (take k rest ++ drop (length (take k rest)) b))
    × (r.1.readbuf_size ≡ pos k)
    × (r.1.input ≡ drop k rest)
    × (r.1.provider ≡ copy_text 16 h.provider)
    × (r.1.log_id ≡ h.log_id)

module _ (w : Wire) (laws : WireLaws w) where
  -- The buffer apart, allocating changes nothing.
  grow-frame :
      (len : ℤ) (c : Conn)
      → ((grow_readbuf w len c).input ≡ c.input)
        × ((grow_readbuf w len c).provider ≡ c.provider)
        × ((grow_readbuf w len c).log_id ≡ c.log_id)
        × ((grow_readbuf w len c).state ≡ c.state)
        × ((grow_readbuf w len c).expected_input_len ≡ c.expected_input_len)
  grow-frame len c = ground arith

  -- The connection after a head, with the bytes that follow it.
  abbrev with_head : Head → List ℕ → Conn → Conn
  with_head h rest c = head_fields w h (record (c) { input = rest })

  -- A body that is there as a whole, from the state that waits for it.
  body_core :
      (v : Conn) (b : List ℕ) (k n : ℕ)
      → v.state ≡ body
      → v.expected_input_len ≡ pos n
      → IsBuffered v b k
      → n ≤ k
      → n ≤ length v.input
      → read_loop w 1 v ≡ (
        some finished,
        record (v) {
          input = drop k v.input;
          readbuf = some (take k v.input ++ drop (length (take k v.input)) b);
          state = processing;
        },
      )
  body_core v b k n st x buf hk hr =
      let step = step-body w v (ground arith) ∙ read_body-buffered w laws v b k n buf x hk hr in
      let long : ltb_ℤ (pos (length v.input)) v.expected_input_len ≡ false = rw x (ground arith) in
      loop_ends w 0 v finished long (ap (λ r. r.0) step)
      ∙ ap (λ (r : Option Status × Conn). (some finished, r.1)) step

  head_long :
      (c : Conn) (h : Head) (n : ℕ) (rest : List ℕ)
      → IsHead h n
      → c.expected_input_len ≡ pos (w.head_size)
      → c.input ≡ w.encode h ++ rest
      → ltb_ℤ (pos (length c.input)) c.expected_input_len ≡ false
  head_long c h n rest f x e =
      rw (e, x, length-append (w.encode h) rest, laws.length-encode h n f) (ground arith)

  frame_core :
      (c : Conn) (h : Head) (rest b : List ℕ) (n k : ℕ)
      → c.state ≡ head
      → c.expected_input_len ≡ pos (w.head_size)
      → IsFrame w h n
      → c.input ≡ w.encode h ++ rest
      → n ≤ length rest
      → n ≤ k
      → IsBuffered (with_head h rest c) b k
      → AfterFrame h rest b k (nshead_conn_read w c)
  unfolding nshead_conn_read
  frame_core c h rest b n k st ex f e hr hk buf =
      let read = read_head-encode w laws c h n rest f e in
      let v = with_head h rest c in
      let (i, p, l, s, x) = grow-frame h.body_len (
        set_expected_input_len h.body_len (record (c) {
          input = rest;
          state = body;
          provider = copy_text 16 h.provider;
          log_id = h.log_id;
        })) in
      let done = body_core v b k n s (x ∙ f.head.len) buf hk (rw i hr) in
      let all =
        head_first w 1 c st (head_long c h n rest f.head ex e) (ap (λ r. r.0) read)
        ∙ ap (λ r. read_loop w 1 r.1) read
        ∙ done in
      rw all (refl, rw i refl, buf.1, rw i refl, p, l)

  -- A frame is read as a whole, into a buffer with room for its body.
  pub nshead_conn_read-frame :
      (c : Conn) (h : Head) (rest : List ℕ) (n : ℕ)
      → IsWaiting w c
      → IsFrame w h n
      → c.input ≡ w.encode h ++ rest
      → n ≤ length rest
      → (b : List ℕ) × (k : ℕ) × (n ≤ k) × AfterFrame h rest b k (nshead_conn_read w c)
  nshead_conn_read-frame c h rest n wait f e hr =
      let (b, k, hk, buf) =
        grow-room w laws
          (set_expected_input_len h.body_len (record (c) {
            input = rest;
            state = body;
            provider = copy_text 16 h.provider;
            log_id = h.log_id;
          }))
          h n f wait.buffer in
      (b, k, hk, frame_core c h rest b n k wait.state_head wait.expected f e hr hk buf)

  -- On a connection whose buffer of `k` bytes is large enough, the next frame's bytes up to `k` go with
  -- the body, and past the body the buffer has what an earlier request left.
  pub nshead_conn_read-reused :
      (c : Conn) (h : Head) (rest b : List ℕ) (n k : ℕ)
      → IsWaiting w c
      → IsBuffered c b k
      → IsFrame w h n
      → c.input ≡ w.encode h ++ rest
      → n ≤ length rest
      → n ≤ k
      → AfterFrame h rest b k (nshead_conn_read w c)
  nshead_conn_read-reused c h rest b n k wait (e₁, e₂, e₃) f e hr hk =
      frame_core c h rest b n k wait.state_head wait.expected f e hr hk
        (rw (f.head.len) (ground (arith, e₁, e₂, e₃, hk)))

  -- What `connection_write` sends over an idle connection without an error, the reader gets: the body at the start of
  -- its buffer, the provider's first 15 characters, and the log id.
  pub nshead_conn_read-connection_write :
      (c d : Conn) (buffer : List ℕ)
      → c.has_error ≡ false
      → c.output ≡ []
      → length buffer < 2 ^ 31
      → c.log_id < 2 ^ 32
      → IsWaiting w d
      → d.input ≡ (connection_write w buffer c).output
      → let r = nshead_conn_read w d in
        (r.0 ≡ some finished)
        × ((b : List ℕ) × (r.1.readbuf ≡ some b) × (take (length buffer) b ≡ buffer))
        × (r.1.provider ≡ copy_text 16 c.provider)
        × (r.1.log_id ≡ c.log_id)
  unfolding nshead_conn_write
  nshead_conn_read-connection_write c d buffer ok out small log wait e =
      let h = frame_head w buffer c in
      let sent : d.input ≡ w.encode h ++ buffer = e ∙ rw (ok, out) refl in
      let is_head : IsHead h (length buffer) = record {
        log_id = log;
        magic_num = laws.magicnum;
        short = length-take_cap 15 (c_string c.provider);
        text = c_string-take 15 c.provider;
        len = refl;
        small = small;
      } in
      let frame : IsFrame w h (length buffer) = record { magic = refl; head = is_head } in
      let (b, k, hk, after) =
        nshead_conn_read-frame d h buffer (length buffer) wait frame sent (omega arith) in
      let start =
        take-take-append (length buffer) k buffer (drop (length (take k buffer)) b) hk
          (omega arith) in
      (
        after.0,
        (_, after.1, start ∙ take_all (length buffer) buffer (omega arith)),
        after.4 ∙ copy_text-copy_text 16 c.provider,
        after.5,
      )
