-- ===== src/Pool/Server/Ledger/Refines.antt =====
-- Every call of pool.cpp on a server is the call on its ledger.
use redis_agent.Base.{
  ℕ, ◌+◌, ◌≡◌, refl, ap, ◌∙◌, inl, inr, true, false, List, [], ◌∷◌, ◌++◌, arith, ◌==◌, ltb,
  Bool-cases, length, if◌then◌else◌,
}
use redis_agent.Base.Int.{ℤ, pos, ltb_ℤ}
use redis_agent.Pool.Links.Segment.{has, has-append}
use redis_agent.Pool.Waiting.Laws.{waiting_put-append}
use redis_agent.Pool.Server.{
  Server, free_get, unconnect_get, create_new_connect, connect_monitor, fetch_connect,
  fetch_connect_from_connectqueue, add_req_into_waitingqueue,
}
use redis_agent.Pool.Server.Invariant.{
  IsServer, free_get-cons, unconnect_get-cons, unconnect_get-nil,
}
use redis_agent.Pool.Server.Serve.{fetch_some, fetch_none, enqueue}
use redis_agent.Pool.Server.Ledger.{
  Ledger, ServerCall, fetch, created, release, destroyed, withdraw, tick, teardown, May, made,
  asked_from, ask, taken_from, note_call, handle_call,
}
use redis_agent.Pool.Server.Ledger.Places.{IsTally}
use redis_agent.Pool.Server.Ledger.Touch.{Keeps}
use redis_agent.Pool.Server.Ledger.Answers.{created-Keeps, release-Keeps}
use redis_agent.Pool.Server.Ledger.Lost.{destroyed-Keeps}
use redis_agent.Pool.Server.Ledger.Down.{withdraw-Keeps, teardown-Keeps}

pub ask-Keeps : (s : Server) (a : Ledger) → Keeps 0 s a → Keeps 0 (create_new_connect s) (ask a)
unfolding ask create_new_connect unconnect_get
ask-Keeps s a k = go a.unconnect refl
  where
    go : (l : List ℕ) → a.unconnect ≡ l → Keeps 0 (create_new_connect s) (asked_from a l)
    go [] e =
        let nothing : IsServer a.drift s a.free [] a.waiting = rw (← e) k.held in
        let g = unconnect_get-nil a.drift s a.free a.waiting nothing in
        rw (create_new_connect, ap (λ r. r.0) g, ap (λ r. r.1) g) k
    go (y ∷ ys) e =
        let one : IsServer a.drift s a.free (y ∷ ys) a.waiting = rw (← e) k.held in
        let (found, rest) = unconnect_get-cons a.drift s y ys a.free a.waiting one in
        rw (create_new_connect, found)
          (record {
            held = rest;
            count = k.count;
            used = λ d. ground (arith, k.used d, k.used y);
            marks = λ d. ground (arith, k.marks d, k.marks y);
            flag = k.flag;
            over = k.over;
            left = k.left;
            ended = k.ended;
            handed = k.handed;
            reqs = k.reqs;
          })

take_first :
    (per p req : ℕ) (s : Server) (a : Ledger) (x : ℕ) (xs : List ℕ)
    → Keeps 0 s a
    → a.free ≡ x ∷ xs
    → Keeps 0 (fetch_connect per p req s) (taken_from per p req a (x ∷ xs))
unfolding fetch_connect_from_connectqueue free_get
take_first per p req s a x xs k e =
    let one : IsServer a.drift s (x ∷ xs) a.unconnect a.waiting = rw (← e) k.held in
    let (found, rest) = free_get-cons a.drift s x xs a.unconnect a.waiting one in
    rw (fetch_some per p req s x one.free.head, fetch_connect_from_connectqueue, found)
      (record {
        held = rest;
        count = k.count ∙ ap pos (omega (arith, ap length e));
        used = λ d. ground (arith, k.used d);
        marks = λ d. ground (arith, k.marks d, k.marks x);
        flag = k.flag;
        over = k.over;
        left = k.left;
        ended = k.ended;
        handed = ap (λ l. (x, req) ∷ l) k.handed;
        reqs = k.reqs;
      })

one_of : (q p : ℕ) (xs : List ℕ) → has q (xs ++ p ∷ []) ≡ true → (p == q) ≡ false → has q xs ≡ true
one_of q p xs i h = ground (arith, has-append q xs (p ∷ []))

wait_last :
    (p req : ℕ) (s : Server) (a : Ledger)
    → Keeps 0 s a
    → a.free ≡ []
    → has p a.waiting ≡ false
    → Keeps 0
        (add_req_into_waitingqueue p req s)
        (record (a) { waiting = a.waiting ++ p ∷ []; reqs = λ q. if p == q then req else a.reqs q })
unfolding add_req_into_waitingqueue
wait_last p req s a k e out =
    let nothing : IsServer a.drift s [] a.unconnect a.waiting = rw (← e) k.held in
    let (held, _, _) = enqueue a.drift p req s a.unconnect a.waiting nothing out s.log refl in
    let put = waiting_put-append s.waiting a.waiting p req k.held.waiting out in
    record {
      held = rw e held;
      count = k.count;
      used = k.used;
      marks = k.marks;
      flag = k.flag;
      over = k.over;
      left = k.left;
      ended = k.ended;
      handed = k.handed;
      reqs = λ q i. elim (Bool-cases (p == q)) [
        | inl h ↦ let at : p ≡ q = ground arith in rw (h, ← at) put.request
        | inr h ↦ let there = one_of q p a.waiting i h in rw h (put.others q there ∙ k.reqs q there)
      ];
    }

ask-waiting : (a : Ledger) → (ask a).waiting ≡ a.waiting
unfolding ask
ask-waiting a = go a.unconnect
  where
    go : (l : List ℕ) → (asked_from a l).waiting ≡ a.waiting
    go [] = refl
    go (y ∷ ys) = refl

ask-free : (a : Ledger) → (ask a).free ≡ a.free
unfolding ask
ask-free a = go a.unconnect
  where
    go : (l : List ℕ) → (asked_from a l).free ≡ a.free
    go [] = refl
    go (y ∷ ys) = refl

grown_test : (z : ℤ) (m n : ℕ) → z ≡ pos (0 + m) → ltb_ℤ z (pos n) ≡ ltb m n
grown_test z m n e = rw e (ground arith)

pub fetch-Keeps :
    (per p req : ℕ) (s : Server) (a : Ledger)
    → Keeps 0 s a
    → has p a.waiting ≡ false
    → Keeps 0 (fetch_connect per p req s) (taken_from per p req a a.free)
fetch-Keeps per p req s a k out = go a.free refl
  where
    go : (l : List ℕ) → a.free ≡ l → Keeps 0 (fetch_connect per p req s) (taken_from per p req a l)
    go (x ∷ xs) e = take_first per p req s a x xs k e
    go [] e =
        let nothing : IsServer a.drift s [] a.unconnect a.waiting = rw (← e) k.held in
        let test = grown_test s.connect_count (made a) per k.count in
        rw (fetch_none per p req s nothing.free.head) (elim (Bool-cases (ltb (made a) per)) [
          | inl h ↦
              rw (test ∙ h, h)
                (wait_last p req (create_new_connect s) (ask a) (ask-Keeps s a k) (ask-free a ∙ e)
                  (ap (λ l. has p l) (ask-waiting a) ∙ out))
          | inr h ↦ rw (test ∙ h, h) (wait_last p req s a k e out)
        ])

pub tick-Keeps :
    (low : ℕ) (s : Server) (a : Ledger)
    → Keeps 0 s a
    → Keeps 0 (connect_monitor low s) (if ltb (made a) low then ask a else a)
unfolding connect_monitor
tick-Keeps low s a k =
    let test = grown_test s.connect_count (made a) low k.count in
    elim (Bool-cases (ltb (made a) low)) [
      | inl h ↦ rw (test ∙ h, h) (ask-Keeps s a k)
      | inr h ↦ rw (test ∙ h, h) k
    ]

-- A call keeps a server with its ledger.
pub handle_call-Keeps :
    (per low : ℕ) (c : ServerCall) (s : Server) (a : Ledger)
    → Keeps 0 s a
    → IsTally per a
    → May c a
    → Keeps 0 (handle_call per low c s) (note_call per low c a)
unfolding handle_call note_call
handle_call-Keeps per low (fetch p req) s a k t m = fetch-Keeps per p req s a k m
handle_call-Keeps per low (created c ok) s a k t m = created-Keeps per low c s a k t ok m
handle_call-Keeps per low (release c failed cost) s a k t m =
    release-Keeps per low c s a k t failed cost m
handle_call-Keeps per low (destroyed c) s a k t m = destroyed-Keeps per c s a k t m
handle_call-Keeps per low (withdraw p) s a k t m = withdraw-Keeps per p s a k t m
handle_call-Keeps per low tick s a k t m = tick-Keeps low s a k
handle_call-Keeps per low teardown s a k t m = teardown-Keeps per s a k t
