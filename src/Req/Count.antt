-- ===== src/Req/Count.antt =====
-- `shard_count` of req.cpp tells when the last sub request is done.
use redis_agent.Base.{
  ℕ, suc, ◌+◌, ◌≡◌, refl, sym, ◌∙◌, ap, inl, inr, Option, none, some, Bool, true, false, List, [],
  ◌∷◌, ◌==◌, arith, length, Bool-cases, if◌then◌else◌,
}
use redis_agent.Base.Int.{one_less, pos, ◌-ℤ◌, eqb_ℤ}
use redis_agent.Req.{
  touch, Life, running, freed, backend_req_done, reply, process_done, Req, emit, req_done,
  req_cleanup, shard_counted, release_handle, req_on_shard_done,
}

-- The callbacks of the sub requests, in the order they come.
unfoldable pub shards_done : List (Bool × ℕ) → Req → Req
shards_done [] r = r
shards_done (d ∷ ds) r = shards_done ds (req_on_shard_done d.0 (some d.1) r)

-- A request is in use until the last of its sub requests is done.
abbrev pub life_at : ℕ → Life
life_at n = if n == 0 then freed else running

-- What one callback changes of what the count depends on.
record Counted (n : ℕ) (t : Req) : Type 0 where
  left : t.shard_count ≡ pos n
  done : t.req_done_called ≡ (n == 0)
  timeout : t.timeout ≡ false
  life : t.life ≡ life_at n

pub touch-running : (r t : Req) → r.life ≡ running → touch r t ≡ t
touch-running r t e = rw e refl

done_fields :
    (r : Req)
    → r.req_done_called ≡ false
    → r.life ≡ running
    → ((req_done r).shard_count ≡ r.shard_count)
      × ((req_done r).req_done_called ≡ true)
      × ((req_done r).timeout ≡ r.timeout)
      × ((req_done r).life ≡ freed)
unfolding req_done req_cleanup
done_fields r e l = rw (touch-running r _ l) (go r.req_done_called r.has_writebuf e)
  where
    writes : Bool → Req
    writes b =
        let s = emit backend_req_done (record (r) { req_done_called = true }) in
        req_cleanup (emit process_done (if b then emit reply s else s))

    go :
        (b w : Bool)
        → b ≡ false
        → ((if b then r else writes w).shard_count ≡ r.shard_count)
          × ((if b then r else writes w).req_done_called ≡ true)
          × ((if b then r else writes w).timeout ≡ r.timeout)
          × ((if b then r else writes w).life ≡ freed)
    go true w h = cc
    go false true h = (refl, refl, refl, refl)
    go false false h = (refl, refl, refl, refl)

shard_counted-Counted :
    (n : ℕ) (r : Req)
    → r.shard_count ≡ pos (suc n)
    → r.req_done_called ≡ false
    → r.timeout ≡ false
    → r.life ≡ running
    → Counted n (shard_counted r)
unfolding shard_counted
shard_counted-Counted n r e f g l =
    let s : Req = record (r) { shard_count = r.shard_count -ℤ pos 1 } in
    let less : s.shard_count ≡ pos n = ap (λ k. k -ℤ pos 1) e ∙ one_less n in
    let test : eqb_ℤ s.shard_count (pos 0) ≡ (n == 0) = ap (λ k. eqb_ℤ k (pos 0)) less in
    let (count, called, time, end) = done_fields s f l in
    elim (Bool-cases (n == 0)) [
      | inl z ↦
          let at : life_at n ≡ freed = rw z refl in
          rw (touch-running r _ l, pick s (eqb_ℤ s.shard_count (pos 0)) s.timeout (test ∙ z) g)
            (record {
              left = count ∙ less;
              done = called ∙ sym z;
              timeout = time ∙ g;
              life = end ∙ sym at;
            })
      | inr z ↦
          let at : life_at n ≡ running = rw z refl in
          rw (touch-running r _ l, pass s (eqb_ℤ s.shard_count (pos 0)) s.timeout (test ∙ z))
            (record { left = less; done = f ∙ sym z; timeout = g; life = l ∙ sym at })
    ]
  where
    pick :
        (s : Req) (b c : Bool)
        → b ≡ true
        → c ≡ false
        → (if b then (if c then s else req_done s) else s) ≡ req_done s
    pick s b c h k = rw (h, k) refl

    pass : (s : Req) (b c : Bool) → b ≡ false → (if b then (if c then s else req_done s) else s) ≡ s
    pass s b c h = rw h refl

release_fields :
    (h : Option ℕ) (failed : Bool) (r : Req)
    → ((release_handle h failed r).shard_count ≡ r.shard_count)
      × ((release_handle h failed r).req_done_called ≡ r.req_done_called)
      × ((release_handle h failed r).timeout ≡ r.timeout)
      × ((release_handle h failed r).life ≡ r.life)
unfolding release_handle
release_fields none failed r = (refl, refl, refl, refl)
release_fields (some h) failed r = (refl, refl, refl, refl)

shard_done-Counted :
    (n : ℕ) (failed : Bool) (p : ℕ) (r : Req)
    → r.shard_count ≡ pos (suc n)
    → r.req_done_called ≡ false
    → r.timeout ≡ false
    → r.life ≡ running
    → Counted n (req_on_shard_done failed (some p) r)
unfolding req_on_shard_done
shard_done-Counted n failed p r e f g l =
    let (count, called, time, life) = release_fields (r.subs p).handle failed _ in
    rw (touch-running r _ l)
      (shard_counted-Counted n _ (count ∙ e) (called ∙ f) (time ∙ g) (life ∙ l))

-- While sub requests are on their way, their callbacks may come in any order: after those of `ds`,
-- with `a` sub requests left, the request has been answered just if none is left.
pub shards_done-answered :
    (ds : List (Bool × ℕ)) (r : Req) (a : ℕ)
    → r.shard_count ≡ pos (length ds + a)
    → r.req_done_called ≡ (length ds + a == 0)
    → r.timeout ≡ false
    → r.life ≡ life_at (length ds + a)
    → ((shards_done ds r).req_done_called ≡ (a == 0)) × ((shards_done ds r).shard_count ≡ pos a)
unfolding shards_done
shards_done-answered [] r a e f g l = (ground (arith, f), ground (arith, e))
shards_done-answered (d ∷ ds) r a e f g l =
    let open_ : (suc (length ds) + a == 0) ≡ false = ground arith in
    let alive : r.life ≡ running = l ∙ rw open_ refl in
    let step = shard_done-Counted (length ds + a) d.0 d.1 r (ground arith) (f ∙ open_) g alive in
    shards_done-answered ds (req_on_shard_done d.0 (some d.1) r) a step.left step.done step.timeout
      step.life
