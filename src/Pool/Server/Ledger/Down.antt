-- ===== src/Pool/Server/Ledger/Down.antt =====
-- The two calls of pool.cpp that may begin a teardown without a connection: a request that stops
-- waiting, and `pool_destroy`.
use redis_agent.Base.{
  ℕ, ◌+◌, ◌≤◌, ◌≡◌, refl, ap, sym, ◌∙◌, inl, inr, true, false, Bool, ◌&&◌, ◌∷◌, ◌++◌, some, arith,
  ◌==◌, Bool-cases, length, if◌then◌else◌,
}
use redis_agent.Base.Int.{ℤ, pos, negsuc, ◌+ℤ◌, ◌-ℤ◌, eqb_ℤ, one_less}
use redis_agent.Pool.Links.Segment.{has}
use redis_agent.Pool.Waiting.{waiting_rm}
use redis_agent.Pool.Waiting.Laws.{IsWaiting}
use redis_agent.Pool.Waiting.Withdraw.{waiting_rm-remove}
use redis_agent.Pool.Server.{Server, waiting_queue_rm, destroy_one, server_destroy}
use redis_agent.Pool.Server
use redis_agent.Pool.Server.Ledger.{Ledger, erase, sweep}
use redis_agent.Pool.Server.Ledger.Lists.{length-erase, erase-Split, has-erase_le}
use redis_agent.Pool.Server.Ledger.Places.{IsTally}
use redis_agent.Pool.Server.Ledger.Touch.{Keeps, at_rest_lem, sweep-Keeps}

-- A teardown that is tested for only when nobody waits.
swept-Keeps :
    (per : ℕ) (s : Server) (a : Ledger) (z test : Bool)
    → Keeps 0 s a
    → length a.free + length a.unconnect ≤ per
    → z ≡ (length a.waiting == 0)
    → (z ≡ true → test ≡ (s.destroy_flag && Server.at_rest per s))
    → (z ≡ false → test ≡ false)
    → Keeps 0
        (if test then server_destroy per s else s)
        (if length a.waiting == 0 then sweep per a else a)
swept-Keeps per s a z test k fits e same none = elim (Bool-cases (length a.waiting == 0)) [
  | inl h ↦ rw (h, same (e ∙ h)) (sweep-Keeps per s a k fits)
  | inr h ↦ rw (h, none (e ∙ h)) k
]

nobody : (z : ℤ) (n : ℕ) → z ≡ pos n → eqb_ℤ z (pos 0) ≡ (n == 0)
nobody z n e = rw e refl

fits_of : (per : ℕ) (a : Ledger) → IsTally per a → length a.free + length a.unconnect ≤ per
fits_of per a t = let all = t.total in omega arith

-- `_pool_waiting_queue_rm`
pub withdraw-Keeps :
    (per p : ℕ) (s : Server) (a : Ledger)
    → Keeps 0 s a
    → IsTally per a
    → has p a.waiting ≡ true
    → let b = record (a) { waiting = erase p a.waiting } in
      Keeps 0 (waiting_queue_rm per (some p) s) (if length b.waiting == 0 then sweep per b else b)
unfolding waiting_queue_rm
withdraw-Keeps per p s a k t h =
    let at = erase-Split p a.waiting h in
    let whole : IsWaiting s.waiting (at.front ++ p ∷ at.back) = rw (← at.whole) k.held.waiting in
    let gone = waiting_rm-remove s.waiting at.front p at.back whole in
    let rest : IsWaiting (waiting_rm s.waiting p) (erase p a.waiting) = rw (at.rest) gone.rest in
    let fewer : (waiting_rm s.waiting p).queue.count ≡ pos (length (erase p a.waiting)) =
      gone.count
      ∙ ap (λ n. n -ℤ pos 1) (k.held.waiting_count ∙ ap pos (sym (length-erase p a.waiting h)))
      ∙ one_less (length (erase p a.waiting)) in
    swept-Keeps per (record (s) { waiting = waiting_rm s.waiting p })
      (record (a) { waiting = erase p a.waiting }) _ _
      (record {
        held = record {
          free = k.held.free;
          unconnect = k.held.unconnect;
          waiting = rest;
          apart = k.held.apart;
          alone = k.held.alone;
          free_count = k.held.free_count;
          unconnect_count = k.held.unconnect_count;
          waiting_count = fewer;
        };
        count = k.count;
        used = k.used;
        marks = k.marks;
        flag = k.flag;
        over = k.over;
        left = k.left;
        ended = k.ended;
        handed = k.handed;
        reqs = λ q i. rw (gone.reqs) (k.reqs q (has-erase_le q p a.waiting i));
      })
      (fits_of per a t)
      (nobody (waiting_rm s.waiting p).queue.count (length (erase p a.waiting)) fewer)
      (λ e. rw e (between s.destroy_flag _)) (λ e. rw e (nothing s.destroy_flag _))
  where
    between : (f r : Bool) → (f && true && r) ≡ (f && r)
    between f r = ground arith

    nothing : (f r : Bool) → (f && false && r) ≡ false
    nothing f r = ground arith

-- Where no connection is on its way or in use, all that were made are free.
all_free :
    (z f : ℤ) (m n d k per : ℕ)
    → z ≡ pos (0 + (m + d))
    → f +ℤ pos k ≡ pos m
    → m + (n + d) ≤ per
    → ((k == 0) && (m + n == per)) ≡ true
    → eqb_ℤ z f ≡ true
unfolding ◌+ℤ◌
all_free z (pos f) m n d k per e g h i = rw e (ground arith)
all_free z (negsuc f) m n d k per e g h i = rw e (ground arith)

-- The body of the loop of `pool_destroy`
pub teardown-Keeps :
    (per : ℕ) (s : Server) (a : Ledger)
    → Keeps 0 s a
    → IsTally per a
    → let b = record (a) { flag = true } in
      Keeps 0 (destroy_one per s) (if length b.waiting == 0 then sweep per b else b)
unfolding destroy_one Server.at_rest
teardown-Keeps per s a k t =
    let fits = fits_of per a t in
    let all = t.total in
    let lem = at_rest_lem per 0 s a k fits in
    let same : Server.at_rest per s ≡ true → eqb_ℤ s.connect_count s.free.count ≡ true = λ e.
      all_free s.connect_count s.free.count (length a.free) (length a.unconnect)
        (length a.using + length a.dying) a.drift per k.count k.held.free_count (omega arith)
        (sym lem ∙ e) in
    swept-Keeps per (record (s) { destroy_flag = true }) (record (a) { flag = true }) _ _
      (record {
        held = k.held;
        count = k.count;
        used = k.used;
        marks = k.marks;
        flag = refl;
        over = k.over;
        left = k.left;
        ended = k.ended;
        handed = k.handed;
        reqs = k.reqs;
      })
      fits (nobody s.waiting.queue.count (length a.waiting) k.held.waiting_count)
      (λ e. rw e (implied (eqb_ℤ s.connect_count s.free.count) (Server.at_rest per s) same))
      (λ e. rw e (nothing (eqb_ℤ s.connect_count s.free.count) (Server.at_rest per s)))
  where
    implied : (x r : Bool) → (r ≡ true → x ≡ true) → (x && r && true) ≡ r
    implied x true h = let e = h refl in ground arith
    implied x false h = ground arith

    nothing : (x r : Bool) → (x && r && false) ≡ false
    nothing x r = ground arith
