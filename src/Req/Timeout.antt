-- ===== src/Req/Timeout.antt =====
-- `req_timeout` of req.cpp gives up every sub request that is not done.
use redis_agent.Base.{
  All, ℕ, zero, suc, ◌≤◌, ◌≡◌, refl, ◌∙◌, ap, Option, none, some, Bool, true, false, List, [], ◌∷◌,
  ◌==◌, arith, length, if◌then◌else◌,
}
use redis_agent.Base.Int.{pos, ◌-ℤ◌}
use redis_agent.Pool.Links.Segment.{first, Linked, Distinct, Linked-frame}
use redis_agent.Req.Count.{touch-running}
use redis_agent.Req.{
  running, freed, broken, Effect, withdraw, report, backend_timeout, backend_req_done, reply,
  process_done, cleanup, null_read, Req, Subs, SubReq, SubState, before_request_pool, pool_returned,
  backend_returned, emit, req_done, req_fail, req_cleanup, cleanup_sub, timeout_connect_cleanup,
  req_timeout, pop, set_err, store_err_service_timeout, store_ok, store_err_internal_error,
}

-- The list of the sub requests that are not done.
pub record IsSubs (q : Subs) (xs : List ℕ) : Type 0 where
  pub head : q.head ≡ first xs
  pub tail : Option ℕ
  pub links : Linked q.nodes none xs tail
  pub distinct : Distinct xs

pop-nil : (q : Subs) → IsSubs q [] → pop q ≡ (none, q)
unfolding pop
pop-nil q is = ground (arith, is.head)

-- `_req_subreq_queue_pop` returns the sub request pushed last, and leaves the others in their order.
pop-cons :
    (q : Subs) (x : ℕ) (xs : List ℕ)
    → IsSubs q (x ∷ xs)
    → ((pop q).0 ≡ some x) × IsSubs (pop q).1 xs
unfolding pop
pop-cons q x [] is =
    rw (is.head, pop, is.links.1)
      (refl, record { head = refl; tail = none; links = refl; distinct = tt })
pop-cons q x (y ∷ ys) is =
    rw (is.head, pop, is.links.1)
      (
        refl,
        record {
          head = refl;
          tail = is.tail;
          links = (
            ground arith,
            ground arith,
            Linked-frame q.nodes _ (some y) ys is.tail is.links.2.2
                (λ c e. let d = is.distinct.1.0 in ground arith),
          );
          distinct = is.distinct.1;
        },
      )

-- What is done for one sub request, by its state.
abbrev pub given_up : SubReq → ℕ → List Effect → List Effect
given_up s p log = elim (s.state) [
  | before_request_pool ↦ elim (s.pool_waiting_node) [
    | none ↦ log
    | some w ↦ report ∷ withdraw w ∷ log
  ]
  | pool_returned ↦ backend_timeout p ∷ log
  | backend_returned ↦ log
]

abbrev pub all_given_up : (ℕ → SubReq) → List ℕ → List Effect → List Effect
all_given_up subs [] log = log
all_given_up subs (p ∷ ps) log = all_given_up subs ps (given_up (subs p) p log)

-- A sub request that the pool did not refuse: the code reads the node of one that waits.
abbrev pub node_there : SubState → Option ℕ → Bool
node_there before_request_pool none = false
node_there before_request_pool (some w) = true
node_there pool_returned w = true
node_there backend_returned w = true

abbrev pub HasNode : SubReq → Type 0
HasNode s = node_there s.state s.pool_waiting_node ≡ true

-- The fields that the rounds keep, and the log they leave.
record Round (r t : Req) (log : List Effect) : Type 0 where
  effects : t.log ≡ log
  queue : t.not_done ≡ r.not_done
  subs : t.subs ≡ r.subs
  done : t.req_done_called ≡ r.req_done_called
  life : t.life ≡ r.life
  err : t.err_no ≡ r.err_no
  writebuf : t.has_writebuf ≡ r.has_writebuf

cleanup_sub-Round :
    (p : ℕ) (r : Req) → HasNode (r.subs p) → Round r (cleanup_sub p r) (given_up (r.subs p) p r.log)
unfolding cleanup_sub
cleanup_sub-Round p r has = go (r.subs p).state (r.subs p).pool_waiting_node has
  where
    go :
        (s : SubState) (w : Option ℕ)
        → node_there s w ≡ true
        → Round r
            (elim s [
              | before_request_pool ↦ elim w [
                | none ↦ emit null_read (record (r) { life = broken })
                | some w ↦
                    emit report
                      (emit (withdraw w) (record (r) { shard_count = r.shard_count -ℤ pos 1 }))
              ]
              | pool_returned ↦
                  emit (backend_timeout p) (record (r) { shard_count = r.shard_count -ℤ pos 1 })
              | backend_returned ↦ r
            ])
            (elim s [
              | before_request_pool ↦ elim w [ none ↦ r.log | some w ↦ report ∷ withdraw w ∷ r.log ]
              | pool_returned ↦ backend_timeout p ∷ r.log
              | backend_returned ↦ r.log
            ])
    go before_request_pool none h = cc h
    go before_request_pool (some w) h = record {
      effects = refl;
      queue = refl;
      subs = refl;
      done = refl;
      life = refl;
      err = refl;
      writebuf = refl;
    }
    go pool_returned w h = record {
      effects = refl;
      queue = refl;
      subs = refl;
      done = refl;
      life = refl;
      err = refl;
      writebuf = refl;
    }
    go backend_returned w h = record {
      effects = refl;
      queue = refl;
      subs = refl;
      done = refl;
      life = refl;
      err = refl;
      writebuf = refl;
    }

-- What the loop leaves.
record Emptied (r t : Req) (log : List Effect) : Type 0 where
  effects : t.log ≡ log
  queue : t.not_done.head ≡ none
  done : t.req_done_called ≡ r.req_done_called
  life : t.life ≡ r.life
  err : t.err_no ≡ r.err_no
  writebuf : t.has_writebuf ≡ r.has_writebuf

timeout_connect_cleanup-Emptied :
    (fuel : ℕ) (r : Req) (xs : List ℕ)
    → IsSubs r.not_done xs
    → All (λ p. HasNode (r.subs p)) xs
    → r.life ≡ running
    → length xs ≤ fuel
    → Emptied r (timeout_connect_cleanup fuel r) (all_given_up r.subs xs r.log)
unfolding timeout_connect_cleanup
timeout_connect_cleanup-Emptied zero r [] is has l h = record {
  effects = refl;
  queue = is.head;
  done = refl;
  life = refl;
  err = refl;
  writebuf = refl;
}
timeout_connect_cleanup-Emptied zero r (x ∷ xs) is has l h = absurd (omega arith)
timeout_connect_cleanup-Emptied (suc fuel) r [] is has l h =
    let e = pop-nil r.not_done is in
    rw (timeout_connect_cleanup, ap (λ k. k.0) e, ap (λ k. k.1) e)
      (record {
        effects = refl;
        queue = is.head;
        done = refl;
        life = refl;
        err = refl;
        writebuf = refl;
      })
timeout_connect_cleanup-Emptied (suc fuel) r (x ∷ xs) is has l h =
    let (found, rest) = pop-cons r.not_done x xs is in
    let s : Req = record (r) { not_done = (pop r.not_done).1 } in
    let round = cleanup_sub-Round x s (has.0) in
    let t = cleanup_sub x s in
    let isT : IsSubs t.not_done xs = rw (round.queue) rest in
    let hasT : All (λ p. HasNode (t.subs p)) xs = rw (round.subs) has.1 in
    let alive : t.life ≡ running = round.life ∙ l in
    let end = timeout_connect_cleanup-Emptied fuel t xs isT hasT alive (omega arith) in
    let at = touch-running t (timeout_connect_cleanup fuel t) alive in
    rw (timeout_connect_cleanup, found, at)
      (record {
        effects =
            end.effects
            ∙ ap (λ f. all_given_up f xs t.log) round.subs
            ∙ ap (all_given_up r.subs xs) round.effects;
        queue = end.queue;
        done = end.done ∙ round.done;
        life = end.life ∙ round.life;
        err = end.err ∙ round.err;
        writebuf = end.writebuf ∙ round.writebuf;
      })

-- The effects of `req_done`, the last first.
abbrev pub finished : Bool → List Effect → List Effect
finished true log = cleanup ∷ process_done ∷ reply ∷ backend_req_done ∷ log
finished false log = cleanup ∷ process_done ∷ backend_req_done ∷ log

done-finished :
    (r : Req)
    → r.req_done_called ≡ false
    → r.life ≡ running
    → ((req_done r).log ≡ finished r.has_writebuf r.log)
      × ((req_done r).life ≡ freed)
      × ((req_done r).err_no ≡ r.err_no)
      × ((req_done r).not_done.head ≡ r.not_done.head)
unfolding req_done req_cleanup
done-finished r e l = rw (touch-running r _ l) (go r.req_done_called r.has_writebuf e)
  where
    writes : Bool → Req
    writes b =
        let s = emit backend_req_done (record (r) { req_done_called = true }) in
        req_cleanup (emit process_done (if b then emit reply s else s))

    go :
        (b w : Bool)
        → b ≡ false
        → ((if b then r else writes w).log ≡ finished w r.log)
          × ((if b then r else writes w).life ≡ freed)
          × ((if b then r else writes w).err_no ≡ r.err_no)
          × ((if b then r else writes w).not_done.head ≡ r.not_done.head)
    go true w h = cc
    go false true h = (refl, refl, refl, refl)
    go false false h = (refl, refl, refl, refl)

fail-done :
    (r : Req) → r.err_no ≡ store_err_service_timeout → r.life ≡ running → req_fail r ≡ req_done r
unfolding req_fail
fail-done r e l =
    touch-running r _ l ∙ ap req_done (keep (r.err_no == store_ok) (ap (λ k. k == store_ok) e))
  where
    keep : (b : Bool) → b ≡ false → (if b then set_err store_err_internal_error r else r) ≡ r
    keep b h = rw h refl

-- On the timeout of a request in use that has not been answered, and of which the pool refused no sub
-- request that is still listed, the sub requests that are not done are gone through once, in the
-- order of the list: one that waits for a connection is withdrawn from the pool's queue, one that is
-- with the backend is handed to `backend_timeout`, one whose call failed is skipped. Then the request is
-- finished with the error 504, with its list empty, and freed. The loop needs no more rounds than the
-- list is long.
pub req_timeout-finished :
    (fuel : ℕ) (r : Req) (xs : List ℕ)
    → IsSubs r.not_done xs
    → All (λ p. HasNode (r.subs p)) xs
    → length xs ≤ fuel
    → r.req_done_called ≡ false
    → r.life ≡ running
    → let t = req_timeout fuel r in
      (t.log ≡ finished r.has_writebuf (all_given_up r.subs xs r.log))
      × (t.life ≡ freed)
      × (t.err_no ≡ store_err_service_timeout)
      × (t.not_done.head ≡ none)
unfolding req_timeout
req_timeout-finished fuel r xs is has h e l =
    let s : Req = set_err store_err_service_timeout (record (r) { timeout = true }) in
    let end = timeout_connect_cleanup-Emptied fuel s xs is has l h in
    let t = timeout_connect_cleanup fuel s in
    let alive : t.life ≡ running = end.life ∙ l in
    let (log, life, err, head) = done-finished t (end.done ∙ e) alive in
    rw (touch-running r (req_fail t) l, fail-done t end.err alive)
      (
        log ∙ ap (λ b. finished b t.log) end.writebuf ∙ ap (finished r.has_writebuf) end.effects,
        life,
        err ∙ end.err,
        head ∙ end.queue,
      )
