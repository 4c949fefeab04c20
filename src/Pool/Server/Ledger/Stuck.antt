-- ===== src/Pool/Server/Ledger/Stuck.antt =====
-- A server of pool.cpp whose count of free connections is short keeps its free connections.
use redis_agent.Base.{
  ℕ, suc, ◌<◌, ◌≡◌, refl, ap, ◌∙◌, inl, inr, true, false, Bool, not, ◌&&◌, List, [], ◌∷◌, ◌++◌,
  arith, ◌==◌, Bool-cases, length, if◌then◌else◌,
}
use redis_agent.Pool.Links.Segment.{has, has_left}
use redis_agent.Pool.Server.{Server}
use redis_agent.Pool.Server
use redis_agent.Pool.Server.Ledger.{
  Ledger, ServerCall, fetch, created, release, destroyed, withdraw, tick, teardown, May, erase,
  mark, all_rest, asked_from, ask, given, give, lose, lost, sweep, note_call, handle_call,
}
use redis_agent.Pool.Server.Ledger.Places.{note_call-IsTally}
use redis_agent.Pool.Server.Ledger.End.{destroyed-at_rest, destroyed-drift}
use redis_agent.Pool.Server.Ledger.Refines.{handle_call-Keeps}
use redis_agent.Pool.Server.Ledger.Runs.{handle_calls, note_calls, MayAll, Follows, calls-Follows}

-- A call that neither takes the free connection `x` for a request nor reports it destroyed.
abbrev pub leaves : ℕ → ServerCall → Bool
leaves x (fetch p req) = false
leaves x (created c ok) = true
leaves x (release c failed cost) = true
leaves x (destroyed c) = not (c == x)
leaves x (withdraw p) = true
leaves x tick = true
leaves x teardown = true

sweep_short : (per : ℕ) (a : Ledger) → 0 < a.drift → sweep per a ≡ a
unfolding sweep
sweep_short per a h = let short : (a.flag && all_rest per a) ≡ false = ground arith in rw short refl

swept_short : (per : ℕ) (t : Bool) (a : Ledger) → 0 < a.drift → (if t then sweep per a else a) ≡ a
swept_short per true a h = sweep_short per a h
swept_short per false a h = refl

give_free :
    (per c x : ℕ) (a : Ledger)
    → 0 < a.drift
    → has x a.free ≡ true
    → has x (give per c a).free ≡ true
unfolding give
give_free per c x a h i = go a.waiting
  where
    go : (l : List ℕ) → has x (given per c a l).free ≡ true
    go [] =
        let b = record (a) { free = a.free ++ c ∷ [] } in
        ap (λ b. has x b.free) (sweep_short per b h) ∙ has_left x a.free (c ∷ []) i
    go (w ∷ ws) = i

ask_free : (a : Ledger) → (ask a).free ≡ a.free
unfolding ask
ask_free a = go a.unconnect
  where
    go : (l : List ℕ) → (asked_from a l).free ≡ a.free
    go [] = refl
    go (y ∷ ys) = refl

lose_free : (c : ℕ) (a : Ledger) → (lose c a).free ≡ a.free
unfolding lose
lose_free c a = ground arith

has-erase_other :
    (c x : ℕ) (l : List ℕ) → (c == x) ≡ false → has x l ≡ true → has x (erase c l) ≡ true
has-erase_other c x [] n i = i
has-erase_other c x (y ∷ ys) n i = elim (Bool-cases (y == c)) [
  | inl e ↦ rw e (ground arith)
  | inr e ↦ rw e (let rest = has-erase_other c x ys n in ground arith)
]

lost_free :
    (c x : ℕ) (a : Ledger) → (c == x) ≡ false → has x a.free ≡ true → has x (lost c a).free ≡ true
unfolding lost
lost_free c x a n i = elim (Bool-cases (has c a.free)) [
  | inl e ↦
      let b = record (a) { free = erase c a.free } in
      rw e (ap (λ l. has x l) (lose_free c b) ∙ has-erase_other c x a.free n i)
  | inr e ↦ elim (Bool-cases (has c a.using)) [
    | inl u ↦ rw (e, u) i
    | inr u ↦
        let b = record (a) { dying = erase c a.dying; drift = suc a.drift } in
        rw (e, u) (ap (λ l. has x l) (lose_free c b) ∙ i)
  ]
]

note_call-free :
    (per low x : ℕ) (d : ServerCall) (a : Ledger)
    → 0 < a.drift
    → leaves x d ≡ true
    → has x a.free ≡ true
    → has x (note_call per low d a).free ≡ true
unfolding note_call
note_call-free per low x (fetch p req) a h s i = cc s
note_call-free per low x (created c true) a h s i =
    give_free per c x (record (a) { creating = erase c a.creating; marked = mark c false a.marked })
      h i
note_call-free per low x (created c false) a h s i =
    let b = record (a) {
      creating = erase c a.creating;
      marked = mark c false a.marked;
      unconnect = a.unconnect ++ c ∷ [];
    } in
    ap (λ b. has x b.free) (sweep_short per b h) ∙ i
note_call-free per low x (release c failed cost) a h s i =
    let b = record (a) { using = erase c a.using } in
    elim (Bool-cases (not failed && not (a.marked c))) [
      | inl e ↦ rw e (give_free per c x b h i)
      | inr e ↦ rw e i
    ]
note_call-free per low x (destroyed c) a h s i = lost_free c x a (ground arith) i
note_call-free per low x (withdraw p) a h s i =
    let b = record (a) { waiting = erase p a.waiting } in
    ap (λ b. has x b.free) (swept_short per (length b.waiting == 0) b h) ∙ i
note_call-free per low x tick a h s i = ground (arith, ask_free a)
note_call-free per low x teardown a h s i =
    let b = record (a) { flag = true } in
    ap (λ b. has x b.free) (swept_short per (length b.waiting == 0) b h) ∙ i

-- Once a connection that was released after an error has been reported destroyed, then after any
-- further calls `cs` the test for a teardown is false, and each next call `d`, also `pool_destroy`,
-- leaves every free connection `x` among the free ones, which the free list of the code holds, unless
-- `d` asks for a connection or reports `x` itself destroyed.
pub destroyed-kept :
    (per low c x : ℕ) (cs : List ServerCall) (d : ServerCall) (s : Server) (a : Ledger)
    → Follows per s a
    → has c a.dying ≡ true
    → MayAll per low (destroyed c ∷ cs) a
    → let b = note_calls per low (destroyed c ∷ cs) a in
      May d b
      → has x b.free ≡ true
      → leaves x d ≡ true
      → let t = handle_calls per low (destroyed c ∷ cs) s in
        (Server.at_rest per t ≡ false)
        × Follows per (handle_call per low d t) (note_call per low d b)
        × (has x (note_call per low d b).free ≡ true)
destroyed-kept per low c x cs d s a f dies m may i l =
    let b = note_calls per low (destroyed c ∷ cs) a in
    let t = handle_calls per low (destroyed c ∷ cs) s in
    let (k, tally) = calls-Follows per low (destroyed c ∷ cs) s a f m in
    (
      destroyed-at_rest per low c cs s a f dies m,
      (handle_call-Keeps per low d t b k tally may, note_call-IsTally per low d b may tally),
      note_call-free per low x d b (destroyed-drift per low c cs a f.1 dies m) l i,
    )
