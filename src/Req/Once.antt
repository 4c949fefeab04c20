-- ===== src/Req/Once.antt =====
-- A request of req.cpp is answered once.
use redis_agent.Base.{
  ◌⊎◌, inl, inr, sym, ap, ◌∙◌, ℕ, suc, ◌≡◌, Option, Bool, true, false, List, [], ◌∷◌,
}
use redis_agent.Router.Acquire.{Action}
use redis_agent.Req.{
  Life, running, freed, broken, Effect, withdraw, report, release, backend_call, backend_timeout,
  backend_req_done, reply, process_done, cleanup, null_read, Req, req_fail, req_on_shard_done,
  req_on_acquired, Fetch, run_actions, req_timeout, set_err,
}

-- How often a request has been answered and freed.
unfoldable pub cleanups : List Effect → ℕ
cleanups [] = 0
cleanups (cleanup ∷ es) = suc (cleanups es)
cleanups (withdraw w ∷ es) = cleanups es
cleanups (report ∷ es) = cleanups es
cleanups (release h b ∷ es) = cleanups es
cleanups (backend_call p h ∷ es) = cleanups es
cleanups (backend_timeout p ∷ es) = cleanups es
cleanups (backend_req_done ∷ es) = cleanups es
cleanups (reply ∷ es) = cleanups es
cleanups (process_done ∷ es) = cleanups es
cleanups (null_read ∷ es) = cleanups es

unfoldable pub answers : List Effect → ℕ
answers [] = 0
answers (process_done ∷ es) = suc (answers es)
answers (withdraw w ∷ es) = answers es
answers (report ∷ es) = answers es
answers (release h b ∷ es) = answers es
answers (backend_call p h ∷ es) = answers es
answers (backend_timeout p ∷ es) = answers es
answers (backend_req_done ∷ es) = answers es
answers (reply ∷ es) = answers es
answers (cleanup ∷ es) = answers es
answers (null_read ∷ es) = answers es

abbrev pub one_if : Bool → ℕ
one_if true = 1
one_if false = 0

abbrev is_broken : Life → Bool
is_broken running = false
is_broken freed = false
is_broken broken = true

abbrev is_freed : Life → Bool
is_freed running = false
is_freed freed = true
is_freed broken = false

-- The client connection was told that the request is done and the memory was freed, once each if
-- `req_done` has run and never otherwise; and unless the code has run into freed memory or NULL,
-- the request is still in use just as long as `req_done` has not run.
pub record Once (r : Req) : Type 0 where
  pub told : answers r.log ≡ one_if r.req_done_called
  pub cleaned : cleanups r.log ≡ one_if r.req_done_called
  pub life : (is_broken r.life ≡ true) ⊎ (is_freed r.life ≡ r.req_done_called)

-- A request in use has not been done.
in_use : (r : Req) → Once r → r.life ≡ running → r.req_done_called ≡ false
in_use r is e = elim (is.life) [ inl b ↦ cc (b, ap is_broken e) | inr f ↦ sym f ∙ ap is_freed e ]

-- What can happen to a request that `req_ready` has made: a run of the router's actions, and the
-- callbacks of the pool, of the plugin and of the timer, in any order.
pub data Step : Req → Req → Type 0 where
  failing : (r : Req) → Step r (req_fail r)
  barred : (e : ℕ) (r : Req) → Step r (req_fail (set_err e r))
  routed :
      (fetch : ℕ → Fetch) (p : ℕ) (acts : List Action) (r : Req)
      → Step r (run_actions fetch p acts r)
  connected : (ok : Bool) (h p : ℕ) (r : Req) → Step r (req_on_acquired ok h p r)
  shard_done : (failed : Bool) (p : Option ℕ) (r : Req) → Step r (req_on_shard_done failed p r)
  timed_out : (fuel : ℕ) (r : Req) → Step r (req_timeout fuel r)

pub data Run : Req → Req → Type 0 where
  start : (r : Req) → Run r r
  after : (r s t : Req) → Run r s → Step s t → Run r t
