-- ===== src/Pool/Server/Ledger/Served.antt =====
-- Requests get the connections of a server of pool.cpp in their order.
use redis_agent.Base.{
  ℕ, ◌≡◌, refl, ap, sym, ◌∙◌, inl, inr, true, false, not, ◌&&◌, List, [], ◌∷◌, ◌++◌, ltb,
  Bool-cases, map, All, append_assoc, append_nil,
}
use redis_agent.Base.Int.{ℤ, pos}
use redis_agent.Pool.Links.Segment.{has, has_head, has_tail}
use redis_agent.Pool.Waiting.Laws.{IsWaiting}
use redis_agent.Pool.Server.Ledger.{
  Ledger, ServerCall, fetch, created, release, destroyed, withdraw, tick, teardown, May, erase,
  mark, made, ask, note_call,
}
use redis_agent.Pool.Server.Ledger.History.{delivered}
use redis_agent.Pool.Server.Ledger.Runs.{
  handle_calls, note_calls, MayAll, fresh, pool_build-Follows, calls-Follows,
}
use redis_agent.Pool.Server.Ledger.Order.{
  served, line, IsIdle, brought, is_withdraw, Queues, Alike, ask-Alike, ask-free, still, swept,
  swept_if, give-Queues, take-Queues, lost-Queues,
}
use redis_agent.Pool.Build.{pool_build}

alike : (a : Ledger) → Alike a a
alike a = record { handed = refl; waiting = refl; reqs = refl }

ask-IsIdle : (a : Ledger) → IsIdle a → IsIdle (ask a)
ask-IsIdle a (inl e) = inl (ask-free a ∙ e)
ask-IsIdle a (inr e) = inr ((ask-Alike a).waiting ∙ e)

-- What a call brings to the line.
note_call-Queues :
    (per low : ℕ) (c : ServerCall) (a : Ledger)
    → IsIdle a
    → May c a
    → is_withdraw c ≡ false
    → Queues a (note_call per low c a) (brought (c ∷ []))
unfolding note_call
note_call-Queues per low (fetch p req) a i m w = take-Queues per p req a i m
note_call-Queues per low (created c true) a i m w =
    give-Queues per c a
      (record (a) { creating = erase c a.creating; marked = mark c false a.marked })
      (record { handed = refl; waiting = refl; reqs = refl }) i
note_call-Queues per low (created c false) a i m w =
    swept per a
      (record (a) {
        creating = erase c a.creating;
        marked = mark c false a.marked;
        unconnect = a.unconnect ++ c ∷ [];
      })
      (record { handed = refl; waiting = refl; reqs = refl }) i
note_call-Queues per low (release c failed cost) a i m w =
    let b = record (a) { using = erase c a.using } in
    elim (Bool-cases (not failed && not (a.marked c))) [
      | inl e ↦
          rw e (give-Queues per c a b (record { handed = refl; waiting = refl; reqs = refl }) i)
      | inr e ↦ rw e (
          still a (record (b) { dying = c ∷ b.dying })
            (record { handed = refl; waiting = refl; reqs = refl }) i)
    ]
note_call-Queues per low (destroyed c) a i m w = lost-Queues c a i
note_call-Queues per low (withdraw p) a i m w = cc
note_call-Queues per low tick a i m w = elim (Bool-cases (ltb (made a) low)) [
  | inl e ↦ rw e (still a (ask a) (ask-Alike a) (ask-IsIdle a i))
  | inr e ↦ rw e (still a a (alike a) i)
]
note_call-Queues per low teardown a i m w =
    swept_if per a (record (a) { flag = true }) _
      (record { handed = refl; waiting = refl; reqs = refl }) i

brought-cons :
    (c : ServerCall) (cs : List ServerCall) → brought (c ∷ cs) ≡ brought (c ∷ []) ++ brought cs
brought-cons (fetch p req) cs = refl
brought-cons (created c ok) cs = refl
brought-cons (release c failed cost) cs = refl
brought-cons (destroyed c) cs = refl
brought-cons (withdraw p) cs = refl
brought-cons tick cs = refl
brought-cons teardown cs = refl

note_calls-line :
    (per low : ℕ) (cs : List ServerCall) (a : Ledger)
    → IsIdle a
    → MayAll per low cs a
    → All (λ c. is_withdraw c ≡ false) cs
    → line (note_calls per low cs a) ≡ line a ++ brought cs
unfolding note_calls
note_calls-line per low [] a i m w = sym (append_nil (line a))
note_calls-line per low (c ∷ cs) a i (_, m, ms) (w, ws) =
    let q = note_call-Queues per low c a i m w in
    note_calls-line per low cs (note_call per low c a) q.idle ms ws
    ∙ ap (λ l. l ++ brought cs) q.grown
    ∙ append_assoc (line a) (brought (c ∷ [])) (brought cs)
    ∙ ap (λ l. line a ++ l) (sym (brought-cons c cs))

map-same : (f g : ℕ → ℕ) (l : List ℕ) → ((p : ℕ) → has p l ≡ true → f p ≡ g p) → map f l ≡ map g l
map-same f g [] h = refl
map-same f g (x ∷ xs) h =
    let rest = map-same f g xs (λ p i. h p (has_tail p x xs i)) in
    let first = h x (has_head x xs) in cc

-- Requests that come to a new server of `pool_build`, and do not time out, are served in the order in
-- which they came: those that were handed a connection, in that order, and then those in the waiting
-- queue, from its head, are the requests of all calls of `pool_fetch_connect`, in their order.
pub handle_calls-served :
    (idx : ℤ) (server_count per low : ℕ) (retry : ℤ) (i : ℕ) (cs : List ServerCall)
    → MayAll per low cs (fresh per (pos server_count))
    → All (λ c. is_withdraw c ≡ false) cs
    → let s = handle_calls per low cs ((pool_build idx server_count per retry).servers i) in
      (ws : List ℕ) × IsWaiting s.waiting ws
      × (served (delivered s.log) ++ map s.waiting.sub_req ws ≡ brought cs)
handle_calls-served idx server_count per low retry i cs m w =
    let a = note_calls per low cs (fresh per (pos server_count)) in
    let start = pool_build-Follows idx server_count per retry i in
    let s = handle_calls per low cs ((pool_build idx server_count per retry).servers i) in
    let (k, _) =
      calls-Follows per low cs ((pool_build idx server_count per retry).servers i)
        (fresh per (pos server_count)) start m in
    let same = map-same s.waiting.sub_req a.reqs a.waiting k.reqs in
    (
      a.waiting,
      k.held.waiting,
      rw (k.handed, same)
          (note_calls-line per low cs (fresh per (pos server_count)) (inl refl) m w),
    )
