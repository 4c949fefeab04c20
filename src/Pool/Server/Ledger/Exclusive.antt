-- ===== src/Pool/Server/Ledger/Exclusive.antt =====
-- A connection of a server of pool.cpp serves one request at a time.
use mathlib.Core.Bool.{false≢true}
use redis_agent.Base.{
  ℕ, ◌+◌, ◌≡◌, refl, ap, sym, ◌∙◌, inl, inr, true, false, Bool, not, ◌&&◌, List, [], ◌∷◌, ◌++◌,
  arith, ◌==◌, ltb, Bool-cases, if◌then◌else◌,
}
use redis_agent.Pool.Links.Segment.{has}
use redis_agent.Pool.Server.{Server}
use redis_agent.Pool.Server.Ledger.{
  Ledger, ServerCall, fetch, created, release, destroyed, withdraw, tick, teardown, May, erase,
  mark, made, given, give, taken_from, lose, lost, sweep, note_call, handle_call,
}
use redis_agent.Pool.Server.Ledger.Lists.{one}
use redis_agent.Pool.Server.Ledger.Places.{IsTally}
use redis_agent.Pool.Server.Ledger.Loose.{using-IsLoose, creating-IsLoose}
use redis_agent.Pool.Server.Ledger.History.{delivered}
use redis_agent.Pool.Server.Ledger.Refines.{handle_call-Keeps}
use redis_agent.Pool.Server.Ledger.Runs.{Follows}
use redis_agent.Pool.Server.Ledger.Order.{sweep-Alike, ask-Alike}

-- How often a connection was handed to a request.
abbrev pub turns : ℕ → List (ℕ × ℕ) → ℕ
turns d [] = 0
turns d ((c, r) ∷ l) = one c d + turns d l

abbrev pub releases : ℕ → ServerCall → Bool
releases d (release c failed cost) = c == d
releases d (fetch p req) = false
releases d (created c ok) = false
releases d (destroyed c) = false
releases d (withdraw p) = false
releases d tick = false
releases d teardown = false

differs : (c d : ℕ) (l : List ℕ) → has c l ≡ false → has d l ≡ true → one c d ≡ 0
unfolding one
differs c d l out i = elim (Bool-cases (c == d)) [
  | inl e ↦
      let at : c ≡ d = ground arith in absurd (false≢true (sym out ∙ ap (λ z. has z l) at ∙ i))
  | inr e ↦ rw e refl
]

give-turns :
    (per c d : ℕ) (a : Ledger) → one c d ≡ 0 → turns d (give per c a).handed ≡ turns d a.handed
unfolding give
give-turns per c d a e = go a.waiting
  where
    go : (l : List ℕ) → turns d (given per c a l).handed ≡ turns d a.handed
    go [] = ap (turns d) ((sweep-Alike per (record (a) { free = a.free ++ c ∷ [] })).handed)
    go (w ∷ ws) = omega arith

-- The free connection that a request takes is not one in use.
take-turns :
    (per p req d : ℕ) (a : Ledger)
    → has d a.free ≡ false
    → turns d (taken_from per p req a a.free).handed ≡ turns d a.handed
unfolding one
take-turns per p req d a out = go a.free out
  where
    go :
        (l : List ℕ)
        → has d l ≡ false
        → turns d (taken_from per p req a l).handed ≡ turns d a.handed
    go [] h = ground (arith, ap (turns d) ((ask-Alike a).handed))
    go (x ∷ xs) h = ground arith

lost-turns : (c d : ℕ) (a : Ledger) → turns d (lost c a).handed ≡ turns d a.handed
unfolding lost lose
lost-turns c d a = ground arith

swept-turns :
    (per d : ℕ) (a : Ledger) (t : Bool)
    → turns d (if t then sweep per a else a).handed ≡ turns d a.handed
swept-turns per d a true = ap (turns d) ((sweep-Alike per a).handed)
swept-turns per d a false = refl

note_call-turns :
    (per low d : ℕ) (c : ServerCall) (a : Ledger)
    → IsTally per a
    → May c a
    → has d a.using ≡ true
    → releases d c ≡ false
    → turns d (note_call per low c a).handed ≡ turns d a.handed
unfolding note_call
note_call-turns per low d (fetch p req) a t m u n =
    take-turns per p req d a ((using-IsLoose per d a t u).0).not_free
note_call-turns per low d (created c true) a t m u n =
    let out = (creating-IsLoose per c a t m).1 in
    give-turns per c d
      (record (a) { creating = erase c a.creating; marked = mark c false a.marked })
      (differs c d a.using out u)
note_call-turns per low d (created c false) a t m u n = ap (turns d) (
    (sweep-Alike per (record (a) {
      creating = erase c a.creating;
      marked = mark c false a.marked;
      unconnect = a.unconnect ++ c ∷ [];
    })).handed)
note_call-turns per low d (release c failed cost) a t m u n =
    let other : one c d ≡ 0 = unfold one in rw n refl in
    elim (Bool-cases (not failed && not (a.marked c))) [
      | inl e ↦ rw e (give-turns per c d (record (a) { using = erase c a.using }) other)
      | inr e ↦ rw e refl
    ]
note_call-turns per low d (destroyed c) a t m u n = lost-turns c d a
note_call-turns per low d (withdraw p) a t m u n =
    swept-turns per d (record (a) { waiting = erase p a.waiting }) _
note_call-turns per low d tick a t m u n = elim (Bool-cases (ltb (made a) low)) [
  | inl e ↦ rw e (ap (turns d) ((ask-Alike a).handed))
  | inr e ↦ rw e refl
]
note_call-turns per low d teardown a t m u n = swept-turns per d (record (a) { flag = true }) _

-- While a connection is in use, no call but its own release hands it to another request.
pub handle_call-turns :
    (per low d : ℕ) (c : ServerCall) (s : Server) (a : Ledger)
    → Follows per s a
    → May c a
    → (s.conns d).in_use ≡ true
    → releases d c ≡ false
    → turns d (delivered (handle_call per low c s).log) ≡ turns d (delivered s.log)
handle_call-turns per low d c s a (k, t) m u n =
    let after = handle_call-Keeps per low c s a k t m in
    ap (turns d) after.handed
    ∙ note_call-turns per low d c a t m (sym (k.used d) ∙ u) n
    ∙ ap (turns d) (sym k.handed)
