-- ===== src/Connection/Frame.antt =====
-- The reading of one whole frame by `nshead_conn_read` of connection.cpp, step by step.
use redis_agent.Base.{
  ℕ, ◌≤◌, ◌≡◌, sym, refl, ◌⊎◌, inl, inr, none, some, List, ◌++◌, ltb, Bool-cases, arith, length,
  take, drop, take-append_seam, drop-append_seam, length-take_bound,
}
use redis_agent.Base.Int.{pos}
use redis_agent.Connection.{
  Wire, WireLaws, Head, IsHead, Conn, finished, head, processing, read_head, accept_head, read_body,
  head_fields, grow_readbuf,
}

-- The read buffer is allocated with its size.
abbrev pub IsBuffered : Conn → List ℕ → ℕ → Type 0
IsBuffered c b k = (c.readbuf ≡ some b) × (c.readbuf_size ≡ pos k) × (length b ≡ k)

-- As a connection is between two requests.
pub record IsWaiting (w : Wire) (c : Conn) : Type 0 where
  pub state_head : c.state ≡ head
  pub expected : c.expected_input_len ≡ pos (w.head_size)
  pub buffer : (c.readbuf ≡ none) ⊎ ((b : List ℕ) × (k : ℕ) × IsBuffered c b k)

-- A frame as `nshead_conn_read` accepts it, its body of `n` bytes.
pub record IsFrame (w : Wire) (h : Head) (n : ℕ) : Type 0 where
  pub magic : h.magic_num ≡ w.magicnum
  pub head : IsHead h n

module _ (w : Wire) (laws : WireLaws w) where
  head_bytes :
      (h : Head) (n : ℕ) (rest : List ℕ)
      → IsHead h n
      → take (w.head_size) (w.encode h ++ rest) ≡ w.encode h
  head_bytes h n rest f =
      take-append_seam (w.head_size) (w.encode h) rest (sym (laws.length-encode h n f))

  accept_head-magic :
      (c : Conn) (h : Head)
      → h.magic_num ≡ w.magicnum
      → accept_head w h c ≡ (none, head_fields w h c)
  unfolding accept_head
  accept_head-magic c h e = rw e (ground arith)

  pub read_head-encode :
      (c : Conn) (h : Head) (n : ℕ) (rest : List ℕ)
      → IsFrame w h n
      → c.input ≡ w.encode h ++ rest
      → read_head w c ≡ (none, head_fields w h (record (c) { input = rest }))
  unfolding read_head
  read_head-encode c h n rest f e =
      let bytes = head_bytes h n rest f.head in
      let left =
        drop-append_seam (w.head_size) (w.encode h) rest (sym (laws.length-encode h n f.head)) in
      let accepted = accept_head-magic (record (c) { input = rest }) h f.magic in
      rw (e, bytes, left, laws.decode-encode h n f.head, laws.length-encode h n f.head, accepted)
        (ground arith)

  -- After the head there is room for the body: the old buffer, when it is large enough, or a new one.
  pub grow-room :
      (c : Conn) (h : Head) (n : ℕ)
      → IsFrame w h n
      → (c.readbuf ≡ none) ⊎ ((b : List ℕ) × (k : ℕ) × IsBuffered c b k)
      → (b : List ℕ) × (k : ℕ) × (n ≤ k) × IsBuffered (grow_readbuf w h.body_len c) b k
  grow-room c h n f (inl e) =
      let (b, m, l) = laws.malloc-some n f.head.small in
      (b, n, omega arith, rw (f.head.len, e) (m, refl, l))
  grow-room c h n f (inr (b, k, (e, s, l))) = elim (Bool-cases (ltb k n)) [
    | inl lt ↦
        (let (b', m, l') = laws.malloc-some n f.head.small in
          (b', n, omega arith, rw ((f.head.len), e, s) (ground (arith, lt, m, l'))))
    | inr ge ↦ (b, k, ground (arith, ge), rw ((f.head.len), e, s) (ground (arith, ge, e, s, l)))
  ]

  -- A body is read as far as the buffer goes.
  pub read_body-buffered :
      (c : Conn) (b : List ℕ) (k n : ℕ)
      → IsBuffered c b k
      → c.expected_input_len ≡ pos n
      → n ≤ k
      → n ≤ length c.input
      → read_body w c ≡ (
        some finished,
        record (c) {
          input = drop k c.input;
          readbuf = some (take k c.input ++ drop (length (take k c.input)) b);
          state = processing;
        },
      )
  unfolding read_body
  read_body-buffered c b k n (e, s, l) x hk hi =
      let enough = length-take_bound n k c.input hk hi in rw (e, s, x) (ground (arith, enough))
