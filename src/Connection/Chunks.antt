-- ===== src/Connection/Chunks.antt =====
-- However the bytes of a client arrive, `nshead_conn_read` of connection.cpp reads the same.
use redis_agent.Base.{
  ℕ, ◌≤◌, ◌≡◌, ◌∙◌, sym, ap, refl, inl, inr, false, Option, none, some, List, [], ◌∷◌, ◌++◌, ◌==◌,
  Bool-cases, Option-cases, arith, length, take, drop, take-append_le, drop-append_le,
  length-append, length-take_le, append_assoc,
}
use redis_agent.Base.Int.{ℤ, pos, ltb_ℤ}
use redis_agent.Connection.{
  Wire, Head, Conn, Status, failed, unfinished, finished, crashed, head, body, read_head,
  accept_head, read_loop, nshead_conn_read, grow_readbuf, receive, set_expected_input_len,
  copy_text,
}
use redis_agent.Connection.Loop.{
  state-cases, step-head, loop_short, loop_on, body_loop, body_short, read_head_lem, head_first,
  head_not_unfinished,
}

module _ (w : Wire) where
  abbrev more : List ℕ → Option Status × Conn → Option Status × Conn
  more ys r = (r.0, receive ys r.1)

  grow-receive :
      (ys : List ℕ) (len : ℤ) (c : Conn)
      → grow_readbuf w len (receive ys c) ≡ receive ys (grow_readbuf w len c)
  grow-receive ys len c = ground arith

  accept_head-receive :
      (ys : List ℕ) (h : Head) (c : Conn)
      → accept_head w h (receive ys c) ≡ more ys (accept_head w h c)
  unfolding accept_head
  accept_head-receive ys h c = elim (Bool-cases (h.magic_num == w.magicnum)) [
    | inl e ↦
        rw
          (
            e,
            grow-receive ys h.body_len (
                set_expected_input_len h.body_len (record (c) {
                  state = body;
                  provider = copy_text 16 h.provider;
                  log_id = h.log_id;
                })),
          )
          refl
    | inr e ↦ rw e refl
  ]

  read_head-receive :
      (ys : List ℕ) (c : Conn)
      → w.head_size ≤ length c.input
      → read_head w (receive ys c) ≡ more ys (read_head w c)
  unfolding read_head
  read_head-receive ys c h =
      let t = take-append_le (w.head_size) c.input ys h in
      let d = drop-append_le (w.head_size) c.input ys h in
      let l = length-take_le (w.head_size) c.input h in
      let a =
        accept_head-receive ys (w.decode (take (w.head_size) c.input))
          (record (c) { input = drop (w.head_size) c.input }) in
      rw (t, d, l, a) (ground arith)

  long_receive :
      (ys : List ℕ) (c : Conn)
      → ltb_ℤ (pos (length c.input)) c.expected_input_len ≡ false
      → ltb_ℤ (pos (length (c.input ++ ys))) c.expected_input_len ≡ false
  long_receive ys c e = ground (arith, length-append c.input ys)

  -- The case that a head was read, and the bytes end before the body does.
  head_then_short :
      (c : Conn) (ys : List ℕ)
      → c.state ≡ head
      → ltb_ℤ (pos (length c.input)) c.expected_input_len ≡ false
      → (read_head w c).0 ≡ none
      → read_loop w 2 (receive ys (read_head w c).1) ≡ read_loop w 2 (receive ys c)
  head_then_short c ys at e o =
      let (enough, next) = read_head_lem w c o in
      let step = step-head w (receive ys c) at ∙ read_head-receive ys c enough in
      let on = loop_on w 1 (receive ys c) (long_receive ys c e) (ap (λ r. r.0) step ∙ o) in
      body_loop w 1 (receive ys (read_head w c).1) (ground arith)
      ∙ sym (on ∙ ap (λ r. read_loop w 1 r.1) step)

  -- A call that returns 0 leaves the state in which the next one goes on: what it reads then is what
  -- one call reads from all the bytes.
  pub nshead_conn_read-receive :
      (c : Conn) (ys : List ℕ)
      → (nshead_conn_read w c).0 ≡ some unfinished
      → nshead_conn_read w (receive ys (nshead_conn_read w c).1) ≡ nshead_conn_read w (receive ys c)
  unfolding nshead_conn_read
  nshead_conn_read-receive c ys h =
      elim (Bool-cases (ltb_ℤ (pos (length c.input)) c.expected_input_len)) [
        | inl e ↦ rw (loop_short w 1 c e) refl
        | inr e ↦ elim (state-cases c.state) [
          | inl at ↦ elim (Option-cases (read_head w c).0) [
            | inl o ↦
                (let first = head_first w 1 c at e o in
                  let next = (read_head_lem w c o).1 in
                  let short =
                    body_short w 0 (read_head w c).1 (ground arith)
                      (sym (ap (λ r. r.0) first) ∙ h) in
                  let all = first ∙ loop_short w 0 (read_head w c).1 short in
                  ap (λ r. read_loop w 2 (receive ys r.1)) all ∙ head_then_short c ys at e o)
            | inr (s, o) ↦ absurd (head_not_unfinished w c s at e o h)
          ]
          | inr at ↦
              (let short = body_short w 1 c at h in
                ap (λ r. read_loop w 2 (receive ys r.1)) (loop_short w 1 c short))
        ]
      ]

  -- The bytes arrive in pieces, with a call after each until one does not return 0.
  unfoldable pub read_chunks : List ℕ → List (List ℕ) → Conn → Option Status × Conn
  read_chunks x [] c = nshead_conn_read w (receive x c)
  read_chunks x (y ∷ ys) c =
      let now = nshead_conn_read w (receive x c) in
      let later = read_chunks y ys now.1 in
      elim (now.0) [ some s ↦ elim s [ unfinished ↦ later | _ ↦ now ] | none ↦ now ]

  abbrev pub concat : List (List ℕ) → List ℕ
  concat [] = []
  concat (x ∷ xs) = x ++ concat xs

  -- A result is that of one call after some of the given bytes.
  abbrev pub ReadsAs : Conn → List ℕ → Option Status × Conn → Type 0
  ReadsAs c bytes r =
      (used : List ℕ) × (left : List ℕ) × (used ++ left ≡ bytes)
      × (r ≡ nshead_conn_read w (receive used c))

  -- In whatever pieces the bytes arrive, the outcome is that of one call on the bytes up to the piece at
  -- which the reading ends, or on all of them.
  pub nshead_conn_read-read_chunks :
      (x : List ℕ) (ys : List (List ℕ)) (c : Conn) → ReadsAs c (x ++ concat ys) (read_chunks x ys c)
  unfolding read_chunks
  nshead_conn_read-read_chunks x [] c = (x, [], refl, refl)
  nshead_conn_read-read_chunks x (y ∷ ys) c =
      let now = nshead_conn_read w (receive x c) in
      go now.0 refl (nshead_conn_read-read_chunks y ys now.1)
    where
      go :
          (o : Option Status)
          → (nshead_conn_read w (receive x c)).0 ≡ o
          → ReadsAs
              (nshead_conn_read w (receive x c)).1
              (y ++ concat ys)
              (read_chunks y ys (nshead_conn_read w (receive x c)).1)
          → ReadsAs c (x ++ (y ++ concat ys)) (elim o [
            | some s ↦ elim s [
              | unfinished ↦ read_chunks y ys (nshead_conn_read w (receive x c)).1
              | _ ↦ nshead_conn_read w (receive x c)
            ]
            | none ↦ nshead_conn_read w (receive x c)
          ])
      go none e later = (x, y ++ concat ys, refl, refl)
      go (some failed) e later = (x, y ++ concat ys, refl, refl)
      go (some finished) e later = (x, y ++ concat ys, refl, refl)
      go (some crashed) e later = (x, y ++ concat ys, refl, refl)
      go (some unfinished) e (used, left, cat, same) =
          let join = nshead_conn_read-receive (receive x c) used e in
          let bytes = append_assoc c.input x used in
          (
            x ++ used,
            left,
            append_assoc x used left ∙ ap (λ z. x ++ z) cat,
            same ∙ join ∙ ap (λ z. nshead_conn_read w (record (c) { input = z })) bytes,
          )
