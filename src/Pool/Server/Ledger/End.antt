-- ===== src/Pool/Server/Ledger/End.antt =====
-- How the teardown of a server of pool.cpp ends, and when it cannot begin.
use redis_agent.Base.{
  ℕ, suc, ◌≤◌, ◌<◌, ◌≡◌, refl, ap, ◌∙◌, inl, inr, true, false, Bool, not, ◌&&◌, List, [], ◌∷◌, ◌++◌,
  arith, ◌==◌, Bool-cases, length, if◌then◌else◌, map,
}
use mathlib.Core.Path.{subst}
use redis_agent.Pool.Links.Segment.{has}
use redis_agent.Pool.Server.{Server}
use redis_agent.Pool.Server
use redis_agent.Pool.Server.Ledger.{
  Ledger, ServerCall, finish, fetch, created, release, destroyed, withdraw, tick, teardown, May,
  erase, mark, made, all_rest, drained, asked_from, ask, given, give, taken_from, lose, lost, sweep,
  note_call,
}
use redis_agent.Pool.Server.Ledger.Lists.{length-erase}
use redis_agent.Pool.Server.Ledger.Places.{IsTally, third}
use redis_agent.Pool.Server.Ledger.Touch.{at_rest_lem}
use redis_agent.Pool.Server.Ledger.History.{is_freed}
use redis_agent.Pool.Server.Ledger.Loose.{using-IsLoose, dying-IsLoose}
use redis_agent.Pool.Server.Ledger.Runs.{handle_calls, note_calls, MayAll, Follows, calls-Follows}

-- The drift never falls.
sweep-drift : (per : ℕ) (a : Ledger) → (sweep per a).drift ≡ a.drift
unfolding sweep
sweep-drift per a = elim (Bool-cases (a.flag && all_rest per a)) [
  | inl e ↦ rw e (go a.free)
  | inr e ↦ rw e refl
]
  where
    go : (l : List ℕ) → (drained a l).drift ≡ a.drift
    go [] = refl
    go (x ∷ xs) = refl

ask-drift : (a : Ledger) → (ask a).drift ≡ a.drift
unfolding ask
ask-drift a = go a.unconnect
  where
    go : (l : List ℕ) → (asked_from a l).drift ≡ a.drift
    go [] = refl
    go (y ∷ ys) = refl

give-drift : (per c : ℕ) (a : Ledger) → (give per c a).drift ≡ a.drift
unfolding give
give-drift per c a = go a.waiting
  where
    go : (l : List ℕ) → (given per c a l).drift ≡ a.drift
    go [] = sweep-drift per (record (a) { free = a.free ++ c ∷ [] })
    go (w ∷ ws) = refl

take-drift : (per p req : ℕ) (a : Ledger) → (taken_from per p req a a.free).drift ≡ a.drift
take-drift per p req a = go a.free
  where
    go : (l : List ℕ) → (taken_from per p req a l).drift ≡ a.drift
    go [] = ground (arith, ask-drift a)
    go (x ∷ xs) = refl

lost-drift : (c : ℕ) (a : Ledger) → a.drift ≤ (lost c a).drift
unfolding lost lose
lost-drift c a = ground arith

release-drift :
    (per low c cost : ℕ) (failed : Bool) (a : Ledger)
    → (note_call per low (release c failed cost) a).drift ≡ a.drift
unfolding note_call
release-drift per low c cost failed a =
    let b = record (a) { using = erase c a.using } in
    elim (Bool-cases (not failed && not (a.marked c))) [
      | inl e ↦ rw e (give-drift per c b)
      | inr e ↦ rw e refl
    ]

swept-drift : (per : ℕ) (a : Ledger) (t : Bool) → (if t then sweep per a else a).drift ≡ a.drift
swept-drift per a true = sweep-drift per a
swept-drift per a false = refl

note_call-drift :
    (per low : ℕ) (c : ServerCall) (a : Ledger) → a.drift ≤ (note_call per low c a).drift
unfolding note_call
note_call-drift per low (fetch p req) a = omega (arith, take-drift per p req a)
note_call-drift per low (created c true) a = omega (
  arith,
  give-drift per c (record (a) { creating = erase c a.creating; marked = mark c false a.marked }),
)
note_call-drift per low (created c false) a = omega (
  arith,
  sweep-drift per (record (a) {
    creating = erase c a.creating;
    marked = mark c false a.marked;
    unconnect = a.unconnect ++ c ∷ [];
  }),
)
note_call-drift per low (release c failed cost) a =
    omega (arith, release-drift per low c cost failed a)
note_call-drift per low (destroyed c) a = lost-drift c a
note_call-drift per low (withdraw p) a = omega (
  arith,
  swept-drift per (record (a) { waiting = erase p a.waiting }) (length (erase p a.waiting) == 0),
)
note_call-drift per low tick a = ground (arith, ask-drift a)
note_call-drift per low teardown a =
    omega (arith, swept-drift per (record (a) { flag = true }) (length a.waiting == 0))

note_calls-drift :
    (per low : ℕ) (cs : List ServerCall) (a : Ledger) → a.drift ≤ (note_calls per low cs a).drift
unfolding note_calls
note_calls-drift per low [] a = omega arith
note_calls-drift per low (c ∷ cs) a =
    omega (arith, note_call-drift per low c a, note_calls-drift per low cs (note_call per low c a))

not_used : (per c : ℕ) (a : Ledger) → IsTally per a → has c a.dying ≡ true → has c a.using ≡ false
not_used per c a t h = elim (Bool-cases (has c a.using)) [
  | inl e ↦ let (_, out, _) = using-IsLoose per c a t e in cc
  | inr e ↦ e
]

-- The report of a connection that was released after an error leaves a drift.
pub destroyed-drift :
    (per low c : ℕ) (cs : List ServerCall) (a : Ledger)
    → IsTally per a
    → has c a.dying ≡ true
    → MayAll per low (destroyed c ∷ cs) a
    → 0 < (note_calls per low (destroyed c ∷ cs) a).drift
destroyed-drift per low c cs a t dies m =
    unfold note_calls in
    omega (arith, note_calls-drift per low cs (note_call per low (destroyed c) a), risen)
  where
    risen : suc a.drift ≤ (note_call per low (destroyed c) a).drift
    risen =
        unfold note_call lost lose in
        rw ((dying-IsLoose per c a t dies).not_free, not_used per c a t dies) (ground arith)

drifting : (m : ℕ) (b : Bool) → 0 < m → ((m == 0) && b) ≡ false
drifting m b h = ground arith

-- Once a connection that was released after an error has been reported destroyed, the test for a
-- teardown is false after that report and after every later call, whatever the calls are, also
-- where `pool_destroy` is among them.
pub destroyed-at_rest :
    (per low c : ℕ) (cs : List ServerCall) (s : Server) (a : Ledger)
    → Follows per s a
    → has c a.dying ≡ true
    → MayAll per low (destroyed c ∷ cs) a
    → Server.at_rest per (handle_calls per low (destroyed c ∷ cs) s) ≡ false
destroyed-at_rest per low c cs s a f dies m =
    let b = note_calls per low (destroyed c ∷ cs) a in
    let (k, t) = calls-Follows per low (destroyed c ∷ cs) s a f m in
    let all = t.total in
    at_rest_lem per 0 (handle_calls per low (destroyed c ∷ cs) s) b k (omega arith)
    ∙ drifting b.drift _ (destroyed-drift per low c cs a f.1 dies m)

-- The report of a connection while nothing else is left.
module _ (c : ℕ) (a : Ledger) (flag : a.flag ≡ true) (no_free : a.free ≡ [])
    (no_use : a.using ≡ []) where
  abbrev less : Ledger
  less = record (a) {
    dying = erase c a.dying;
    drift = suc a.drift;
    unconnect = a.unconnect ++ c ∷ [];
  }

  reported : May (destroyed c) a → has c a.dying ≡ true
  reported may =
      third (has c a.free) (has c a.dying) (has c a.using) _ may (ap (λ l. has c l) no_free)
        (ap (λ l. has c l) no_use)

  lost_last : (made less == 0) ≡ true → lost c a ≡ finish less
  unfolding lost lose
  lost_last e =
      let not_free : has c a.free ≡ false = ap (λ l. has c l) no_free in
      let idle : has c a.using ≡ false = ap (λ l. has c l) no_use in
      let both : (a.flag && (made less == 0)) ≡ true = cc in rw (not_free, idle, both) refl

  lost_more : (made less == 0) ≡ false → lost c a ≡ less
  unfolding lost lose
  lost_more e = rw (no_free, no_use) (ground arith)

reports :
    (per low : ℕ) (cs : List ℕ) (a : Ledger)
    → a.flag ≡ true
    → a.gone ≡ false
    → a.free ≡ []
    → a.using ≡ []
    → 0 < length a.dying
    → MayAll per low (map destroyed cs) a
    → (note_calls per low (map destroyed cs) a).gone ≡ (length a.dying == length cs)
unfolding note_calls
reports per low [] a flag gone no_free no_use more m = rw gone (ground arith)
reports per low (c ∷ cs) a flag gone no_free no_use more (_, may, ms) =
    let dies = reported c a flag no_free no_use may in
    let left = length-erase c a.dying dies in
    let fewer : made (less c a flag no_free no_use) ≡ length (erase c a.dying) =
      omega (arith, ap length no_free, ap length no_use) in
    elim (Bool-cases (made (less c a flag no_free no_use) == 0)) [
      | inl e ↦
          last cs (note_call per low (destroyed c) a) (same ∙ lost_last c a flag no_free no_use e)
            (ground (arith, left, fewer)) ms
      | inr e ↦
          let at = same ∙ lost_more c a flag no_free no_use e in
          ap (λ b. (note_calls per low (map destroyed cs) b).gone) at
          ∙ reports per low cs (less c a flag no_free no_use) flag gone no_free no_use
              (ground (arith, fewer)) (subst (λ b. MayAll per low (map destroyed cs) b) at ms)
          ∙ (ground (arith, left))
    ]
  where
    same : note_call per low (destroyed c) a ≡ lost c a
    same = unfold note_call in refl

    last :
        (cs : List ℕ) (b : Ledger)
        → b ≡ finish (less c a flag no_free no_use)
        → length a.dying ≡ 1
        → MayAll per low (map destroyed cs) b
        → (note_calls per low (map destroyed cs) b).gone ≡ (length a.dying == suc (length cs))
    last [] b at one m = rw (at, one) refl
    last (d ∷ ds) b at one m = let over : b.gone ≡ true = rw at refl in let no = m.0 in cc

-- While a server is torn down its connections are dying, and the plugin may report them destroyed in
-- any order: after the reports `cs` the server has been freed just if none is left.
pub destroyed-freed :
    (per low : ℕ) (cs : List ℕ) (s : Server) (a : Ledger)
    → Follows per s a
    → a.flag ≡ true
    → a.gone ≡ false
    → a.free ≡ []
    → a.using ≡ []
    → 0 < length a.dying
    → MayAll per low (map destroyed cs) a
    → is_freed (handle_calls per low (map destroyed cs) s).log ≡ (length a.dying == length cs)
destroyed-freed per low cs s a f flag gone no_free no_use more m =
    let (k, t) = calls-Follows per low (map destroyed cs) s a f m in
    k.over ∙ reports per low cs a flag gone no_free no_use more m
