-- ===== src/Connection/Loop.antt =====
-- The loop of `nshead_conn_read` of connection.cpp, iteration by iteration.
use Prim.Native.Nat.{suc}
use redis_agent.Base.{
  ℕ, ◌≤◌, ◌≡◌, ◌≢◌, ◌∙◌, sym, ap, refl, ◌⊎◌, inl, inr, true, false, Option, none, some, Bool-cases,
  Option-cases, arith, length, length-take_max,
}
use redis_agent.Base.Int.{pos, ltb_ℤ}
use redis_agent.Connection.{
  Wire, Conn, Status, unfinished, NsheadState, head, body, processing, idle, read_head, read_body,
  accept_head, read_step, read_loop, nshead_conn_read,
}

pub state-cases : (s : NsheadState) → (s ≡ head) ⊎ (s ≢ head)
state-cases idle = inr (ground arith)
state-cases head = inl refl
state-cases body = inr (ground arith)
state-cases processing = inr (ground arith)

module _ (w : Wire) where
  -- What a body gives is a result that ends the loop.
  abbrev Ends : Option Status → Type 0
  Ends o = (o ≢ none) × (o ≢ some unfinished)

  pub read_body-Ends : (c : Conn) → Ends (read_body w c).0
  unfolding read_body
  read_body-Ends c = ground arith

  pub step-head : (c : Conn) → c.state ≡ head → read_step w c ≡ read_head w c
  unfolding read_step
  step-head c e = rw e refl

  pub step-body : (c : Conn) → c.state ≢ head → read_step w c ≡ read_body w c
  unfolding read_step
  step-body c h = by_state c.state h
    where
      by_state :
          (s : NsheadState)
          → s ≢ head
          → (elim s [ head ↦ read_head w c | _ ↦ read_body w c ]) ≡ read_body w c
      by_state idle h = refl
      by_state head h = absurd (h refl)
      by_state body h = refl
      by_state processing h = refl

  pub step-Ends : (c : Conn) → c.state ≢ head → Ends (read_step w c).0
  step-Ends c h = rw (step-body c h) (read_body-Ends c)

  pub loop_short :
      (n : ℕ) (c : Conn)
      → ltb_ℤ (pos (length c.input)) c.expected_input_len ≡ true
      → read_loop w (suc n) c ≡ (some unfinished, c)
  unfolding read_loop
  loop_short n c h = rw h refl

  pub loop_on :
      (n : ℕ) (c : Conn)
      → ltb_ℤ (pos (length c.input)) c.expected_input_len ≡ false
      → (read_step w c).0 ≡ none
      → read_loop w (suc n) c ≡ read_loop w n (read_step w c).1
  unfolding read_loop
  loop_on n c h e = rw (h, e) refl

  pub loop_ends :
      (n : ℕ) (c : Conn) (s : Status)
      → ltb_ℤ (pos (length c.input)) c.expected_input_len ≡ false
      → (read_step w c).0 ≡ some s
      → read_loop w (suc n) c ≡ (some s, (read_step w c).1)
  unfolding read_loop
  loop_ends n c s h e = rw (h, e) refl

  -- Outside the state that reads a head one iteration is all there is.
  pub body_loop : (n : ℕ) (c : Conn) → c.state ≢ head → read_loop w (suc n) c ≡ read_loop w 1 c
  body_loop n c h = elim (Bool-cases (ltb_ℤ (pos (length c.input)) c.expected_input_len)) [
    | inl e ↦ loop_short n c e ∙ sym (loop_short 0 c e)
    | inr e ↦ elim (Option-cases (read_step w c).0) [
      | inl o ↦ absurd ((step-Ends c h).0 o)
      | inr (s, o) ↦ loop_ends n c s e o ∙ sym (loop_ends 0 c s e o)
    ]
  ]

  -- Such a call that is unfinished had too few bytes to do anything.
  pub body_short :
      (n : ℕ) (c : Conn)
      → c.state ≢ head
      → (read_loop w (suc n) c).0 ≡ some unfinished
      → ltb_ℤ (pos (length c.input)) c.expected_input_len ≡ true
  body_short n c h u = elim (Bool-cases (ltb_ℤ (pos (length c.input)) c.expected_input_len)) [
    | inl e ↦ e
    | inr e ↦ elim (Option-cases (read_step w c).0) [
      | inl o ↦ absurd ((step-Ends c h).0 o)
      | inr (s, o) ↦ absurd ((step-Ends c h).1 (o ∙ sym (ap (λ r. r.0) (loop_ends n c s e o)) ∙ u))
    ]
  ]

  -- A head that is read was there as a whole, and the body is next.
  pub read_head_lem :
      (c : Conn)
      → (read_head w c).0 ≡ none
      → (w.head_size ≤ length c.input) × ((read_head w c).1.state ≡ body)
  unfolding read_head accept_head
  read_head_lem c o =
      let m = length-take_max (w.head_size) c.input in (ground (arith, m), ground arith)

  pub read_head-never_unfinished : (c : Conn) → (read_head w c).0 ≢ some unfinished
  unfolding read_head accept_head
  read_head-never_unfinished c = ground arith

  -- One iteration that reads a head, in the loop.
  pub head_first :
      (n : ℕ) (c : Conn)
      → c.state ≡ head
      → ltb_ℤ (pos (length c.input)) c.expected_input_len ≡ false
      → (read_head w c).0 ≡ none
      → read_loop w (suc n) c ≡ read_loop w n (read_head w c).1
  head_first n c at e o =
      let step = step-head c at in
      loop_on n c e (ap (λ r. r.0) step ∙ o) ∙ ap (λ r. read_loop w n r.1) step

  pub head_not_unfinished :
      (c : Conn) (s : Status)
      → c.state ≡ head
      → ltb_ℤ (pos (length c.input)) c.expected_input_len ≡ false
      → (read_head w c).0 ≡ some s
      → (read_loop w 2 c).0 ≢ some unfinished
  head_not_unfinished c s at e o u =
      let first = ap (λ r. r.0) (loop_ends 1 c s e (ap (λ r. r.0) (step-head c at) ∙ o)) in
      read_head-never_unfinished c (o ∙ sym first ∙ u)

  body_total :
      (n : ℕ) (c : Conn) → c.state ≢ head → (s : Status) × ((read_loop w (suc n) c).0 ≡ some s)
  body_total n c h = elim (Bool-cases (ltb_ℤ (pos (length c.input)) c.expected_input_len)) [
    | inl e ↦ (unfinished, ap (λ r. r.0) (loop_short n c e))
    | inr e ↦ elim (Option-cases (read_step w c).0) [
      | inl o ↦ absurd ((step-Ends c h).0 o)
      | inr (s, o) ↦ (s, ap (λ r. r.0) (loop_ends n c s e o))
    ]
  ]

  -- Two iterations are enough, whatever the state and the bytes: with more fuel the result is the same,
  -- and it is one of the statuses.
  pub nshead_conn_read-total :
      (n : ℕ) (c : Conn)
      → (read_loop w (suc (suc n)) c ≡ nshead_conn_read w c)
        × ((s : Status) × ((nshead_conn_read w c).0 ≡ some s))
  unfolding nshead_conn_read
  nshead_conn_read-total n c =
      elim (Bool-cases (ltb_ℤ (pos (length c.input)) c.expected_input_len)) [
        | inl e ↦ (
          loop_short (suc n) c e ∙ sym (loop_short 1 c e),
          (unfinished, ap (λ r. r.0) (loop_short 1 c e)),
        )
        | inr e ↦ elim (state-cases c.state) [
          | inr at ↦ (body_loop (suc n) c at ∙ sym (body_loop 1 c at), body_total 1 c at)
          | inl at ↦ elim (Option-cases (read_head w c).0) [
            | inl o ↦
                (let next : (read_head w c).1.state ≢ head =
                    let b = (read_head_lem c o).1 in ground arith in
                  let (s, some_s) = body_total 0 (read_head w c).1 next in
                  let first = head_first 1 c at e o in
                  (
                    head_first (suc n) c at e o ∙ body_loop n (read_head w c).1 next ∙ sym first,
                    (s, ap (λ r. r.0) first ∙ some_s),
                  ))
            | inr (s, o) ↦
                (let ends = λ (k : ℕ). loop_ends k c s e (ap (λ r. r.0) (step-head c at) ∙ o) in
                  (ends (suc n) ∙ sym (ends 1), (s, ap (λ r. r.0) (ends 1))))
          ]
        ]
      ]
