-- ===== src/Req/Release/Effects.antt =====
-- Effects of a request of req.cpp on connections, and the calls that have none: `req_done`,
-- `req_fail` and `req_timeout`.
use redis_agent.Base.{
  ℕ, zero, suc, ◌+◌, ◌≡◌, refl, ◌∙◌, Option, none, some, Bool, true, false, List, [], ◌∷◌, arith,
  ◌==◌, if◌then◌else◌,
}
use redis_agent.Base.Int.{pos, ◌-ℤ◌, eqb_ℤ}
use redis_agent.Req.{
  touch, Life, running, freed, broken, Req, before_request_pool, Effect, release, backend_call,
  req_done, req_cleanup, shard_counted, req_timeout, req_fail, timeout_connect_cleanup, cleanup_sub,
  pop, SubState, pool_returned, backend_returned, set_err, store_err_internal_error,
  store_err_service_timeout, store_ok, emit, null_read, report, withdraw, backend_timeout,
}

abbrev pub one : ℕ → ℕ → ℕ
one h k = if h == k then 1 else 0

-- How often connection `h` was handed to a sub request, and given back.
abbrev pub handed : ℕ → List Effect → ℕ
handed h [] = 0
handed h (backend_call p k ∷ l) = one h k + handed h l
handed h (release k b ∷ l) = handed h l
handed h (Effect.withdraw w ∷ l) = handed h l
handed h (Effect.report ∷ l) = handed h l
handed h (Effect.backend_timeout p ∷ l) = handed h l
handed h (Effect.backend_req_done ∷ l) = handed h l
handed h (Effect.reply ∷ l) = handed h l
handed h (Effect.process_done ∷ l) = handed h l
handed h (Effect.cleanup ∷ l) = handed h l
handed h (Effect.null_read ∷ l) = handed h l

abbrev pub given_back : ℕ → List Effect → ℕ
given_back h [] = 0
given_back h (backend_call p k ∷ l) = given_back h l
given_back h (release k b ∷ l) = one h k + given_back h l
given_back h (Effect.withdraw w ∷ l) = given_back h l
given_back h (Effect.report ∷ l) = given_back h l
given_back h (Effect.backend_timeout p ∷ l) = given_back h l
given_back h (Effect.backend_req_done ∷ l) = given_back h l
given_back h (Effect.reply ∷ l) = given_back h l
given_back h (Effect.process_done ∷ l) = given_back h l
given_back h (Effect.cleanup ∷ l) = given_back h l
given_back h (Effect.null_read ∷ l) = given_back h l

-- What the end of a request leaves alone.
pub record Spared (r t : Req) : Type 0 where
  pub subs : t.subs ≡ r.subs
  pub out : (h : ℕ) → handed h t.log ≡ handed h r.log
  pub back : (h : ℕ) → given_back h t.log ≡ given_back h r.log

pub touch-Spared : (r t : Req) → Spared r t → Spared r (touch r t)
touch-Spared r t f = go r.life
  where
    go :
        (l : Life)
        → Spared r (elim l [ running ↦ t | freed ↦ record (r) { life = broken } | broken ↦ r ])
    go running = f
    go freed = record { subs = refl; out = λ h. refl; back = λ h. refl }
    go broken = record { subs = refl; out = λ h. refl; back = λ h. refl }

req_done-Spared : (r : Req) → Spared r (req_done r)
unfolding req_done req_cleanup
req_done-Spared r =
    touch-Spared r _
      (record { subs = ground arith; out = λ h. ground arith; back = λ h. ground arith })

either : (t : Bool) (r a b : Req) → Spared r a → Spared r b → Spared r (if t then a else b)
either true r a b f g = f
either false r a b f g = g

pub shard_counted-Spared : (r : Req) → Spared r (shard_counted r)
unfolding shard_counted
shard_counted-Spared r =
    let s : Req = record (r) { shard_count = r.shard_count -ℤ pos 1 } in
    let d = req_done-Spared s in
    let kept : Spared r s = record { subs = refl; out = λ h. refl; back = λ h. refl } in
    let ended : Spared r (req_done s) = record { subs = d.subs; out = d.out; back = d.back } in
    touch-Spared r _ (
      either (eqb_ℤ s.shard_count (pos 0)) r _ s (either s.timeout r s (req_done s) kept ended)
        kept)

Spared-trans : (r s t : Req) → Spared r s → Spared s t → Spared r t
Spared-trans r s t f g = record {
  subs = g.subs ∙ f.subs;
  out = λ h. g.out h ∙ f.out h;
  back = λ h. g.back h ∙ f.back h;
}

cleanup_sub-Spared : (p : ℕ) (r : Req) → Spared r (cleanup_sub p r)
unfolding cleanup_sub
cleanup_sub-Spared p r = go (r.subs p).state (r.subs p).pool_waiting_node
  where
    go :
        (s : SubState) (w : Option ℕ)
        → Spared r (elim s [
          | before_request_pool ↦ elim w [
            | none ↦ emit null_read (record (r) { life = broken })
            | some w ↦
                emit report
                  (emit (withdraw w) (record (r) { shard_count = r.shard_count -ℤ pos 1 }))
          ]
          | pool_returned ↦
              emit (backend_timeout p) (record (r) { shard_count = r.shard_count -ℤ pos 1 })
          | backend_returned ↦ r
        ])
    go before_request_pool none = record { subs = refl; out = λ h. refl; back = λ h. refl }
    go before_request_pool (some w) = record { subs = refl; out = λ h. refl; back = λ h. refl }
    go pool_returned w = record { subs = refl; out = λ h. refl; back = λ h. refl }
    go backend_returned w = record { subs = refl; out = λ h. refl; back = λ h. refl }

timeout_connect_cleanup-Spared : (fuel : ℕ) (r : Req) → Spared r (timeout_connect_cleanup fuel r)
unfolding timeout_connect_cleanup
timeout_connect_cleanup-Spared zero r = record { subs = refl; out = λ h. refl; back = λ h. refl }
timeout_connect_cleanup-Spared (suc fuel) r =
    let s = record (r) { not_done = (pop r.not_done).1 } in
    go (pop r.not_done).0 λ p.
      let t = cleanup_sub p s in
      Spared-trans s _ _ (cleanup_sub-Spared p s)
        (touch-Spared t _ (timeout_connect_cleanup-Spared fuel t))
  where
    go :
        (o : Option ℕ)
        → ((p : ℕ)
            → let t = cleanup_sub p (record (r) { not_done = (pop r.not_done).1 }) in
              Spared
                (record (r) { not_done = (pop r.not_done).1 })
                (touch t (timeout_connect_cleanup fuel t)))
        → Spared r (elim o [
          | none ↦ record (r) { not_done = (pop r.not_done).1 }
          | some p ↦
              let t = cleanup_sub p (record (r) { not_done = (pop r.not_done).1 }) in
              touch t (timeout_connect_cleanup fuel t)
        ])
    go none rest = record { subs = refl; out = λ h. refl; back = λ h. refl }
    go (some p) rest = let d = rest p in record { subs = d.subs; out = d.out; back = d.back }

req_fail-Spared : (r : Req) → Spared r (req_fail r)
unfolding req_fail
req_fail-Spared r =
    let d = req_done-Spared (set_err store_err_internal_error r) in
    touch-Spared r _
      (go (r.err_no == store_ok) (record { subs = d.subs; out = d.out; back = d.back }))
  where
    go :
        (b : Bool)
        → Spared r (req_done (set_err store_err_internal_error r))
        → Spared r (req_done (if b then set_err store_err_internal_error r else r))
    go true d = d
    go false d = req_done-Spared r

pub req_timeout-Spared : (fuel : ℕ) (r : Req) → Spared r (req_timeout fuel r)
unfolding req_timeout
req_timeout-Spared fuel r =
    let s = set_err store_err_service_timeout (record (r) { timeout = true }) in
    let c = timeout_connect_cleanup-Spared fuel s in
    touch-Spared r _ (
      Spared-trans r _ _ (record { subs = c.subs; out = c.out; back = c.back })
        (req_fail-Spared (timeout_connect_cleanup fuel s)))
