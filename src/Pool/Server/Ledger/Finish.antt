-- ===== src/Pool/Server/Ledger/Finish.antt =====
-- A call of pool.cpp frees a server at most once, and counts it off the pool.
use redis_agent.Base.{
  ℕ, suc, ◌≡◌, refl, ap, ◌⊎◌, inl, inr, true, false, Bool, not, ◌&&◌, List, [], ◌∷◌, ◌++◌, ◌==◌,
  ltb, Bool-cases, if◌then◌else◌,
}
use redis_agent.Base.Int.{pos, ◌-ℤ◌, eqb_ℤ}
use redis_agent.Pool.Links.Segment.{has}
use redis_agent.Pool.Server.Ledger.{
  Ledger, ServerCall, fetch, created, release, destroyed, withdraw, tick, teardown, erase, made,
  all_rest, drained, asked_from, ask, given, give, taken_from, lose, lost, sweep, note_call,
}

-- Nothing of the end is touched.
pub record Lives (a b : Ledger) : Type 0 where
  pub gone : b.gone ≡ a.gone
  pub left : b.left ≡ a.left
  pub ended : b.ended ≡ a.ended

-- The server is freed.
pub record Ends (a b : Ledger) : Type 0 where
  pub gone : b.gone ≡ true
  pub left : b.left ≡ a.left -ℤ pos 1
  pub ended : b.ended ≡ (if eqb_ℤ (a.left -ℤ pos 1) (pos 0) then suc a.ended else a.ended)

abbrev pub Passes : Ledger → Ledger → Type 0
Passes a b = Lives a b ⊎ Ends a b

sweep-Passes : (per : ℕ) (a b : Ledger) → Lives a b → Passes a (sweep per b)
unfolding sweep
sweep-Passes per a b s = elim (Bool-cases (b.flag && all_rest per b)) [
  | inr e ↦ rw e (inl s)
  | inl e ↦ rw e (go b.free)
]
  where
    go : (l : List ℕ) → Passes a (drained b l)
    go [] = inr (record {
      gone = refl;
      left = ap (λ z. z -ℤ pos 1) s.left;
      ended = rw (s.left, s.ended) refl;
    })
    go (x ∷ xs) = inl (record { gone = s.gone; left = s.left; ended = s.ended })

ask-Lives : (a : Ledger) → Lives a (ask a)
unfolding ask
ask-Lives a = go a.unconnect
  where
    go : (l : List ℕ) → Lives a (asked_from a l)
    go [] = record { gone = refl; left = refl; ended = refl }
    go (y ∷ ys) = record { gone = refl; left = refl; ended = refl }

give-Passes : (per c : ℕ) (a b : Ledger) → Lives a b → Passes a (give per c b)
unfolding give
give-Passes per c a b s = go b.waiting
  where
    go : (l : List ℕ) → Passes a (given per c b l)
    go [] =
        sweep-Passes per a (record (b) { free = b.free ++ c ∷ [] })
          (record { gone = s.gone; left = s.left; ended = s.ended })
    go (w ∷ ws) = inl (record { gone = s.gone; left = s.left; ended = s.ended })

lose-Passes : (c : ℕ) (a b : Ledger) → Lives a b → Passes a (lose c b)
unfolding lose
lose-Passes c a b s =
    let l = record (b) { unconnect = b.unconnect ++ c ∷ [] } in
    elim (Bool-cases (l.flag && (made l == 0))) [
      | inl e ↦ rw e (
          inr (record {
            gone = refl;
            left = ap (λ z. z -ℤ pos 1) s.left;
            ended = rw (s.left, s.ended) refl;
          }))
      | inr e ↦ rw e (inl (record { gone = s.gone; left = s.left; ended = s.ended }))
    ]

lost-Passes : (c : ℕ) (a : Ledger) → Passes a (lost c a)
unfolding lost
lost-Passes c a = elim (Bool-cases (has c a.free)) [
  | inl e ↦ rw e (
      lose-Passes c a (record (a) { free = erase c a.free })
        (record { gone = refl; left = refl; ended = refl }))
  | inr e ↦ elim (Bool-cases (has c a.using)) [
    | inl g ↦ rw (e, g) (inl (record { gone = refl; left = refl; ended = refl }))
    | inr g ↦
        rw (e, g)
          (lose-Passes c a (record (a) { dying = erase c a.dying; drift = suc a.drift })
            (record { gone = refl; left = refl; ended = refl }))
  ]
]

take-Lives : (per p req : ℕ) (a : Ledger) → Lives a (taken_from per p req a a.free)
take-Lives per p req a = go a.free
  where
    go : (l : List ℕ) → Lives a (taken_from per p req a l)
    go (x ∷ xs) = record { gone = refl; left = refl; ended = refl }
    go [] = elim (Bool-cases (ltb (made a) per)) [
      | inl e ↦
          rw e (let l = ask-Lives a in record { gone = l.gone; left = l.left; ended = l.ended })
      | inr e ↦ rw e (record { gone = refl; left = refl; ended = refl })
    ]

swept-Passes :
    (per : ℕ) (a b : Ledger) (t : Bool) → Lives a b → Passes a (if t then sweep per b else b)
swept-Passes per a b true s = sweep-Passes per a b s
swept-Passes per a b false s = inl s

pub note_call-Passes :
    (per low : ℕ) (c : ServerCall) (a : Ledger) → Passes a (note_call per low c a)
unfolding note_call
note_call-Passes per low (fetch p req) a = inl (take-Lives per p req a)
note_call-Passes per low (created c true) a =
    give-Passes per c a _ (record { gone = refl; left = refl; ended = refl })
note_call-Passes per low (created c false) a =
    sweep-Passes per a _ (record { gone = refl; left = refl; ended = refl })
note_call-Passes per low (release c failed cost) a =
    let b = record (a) { using = erase c a.using } in
    elim (Bool-cases (not failed && not (a.marked c))) [
      | inl e ↦ rw e (give-Passes per c a b (record { gone = refl; left = refl; ended = refl }))
      | inr e ↦ rw e (inl (record { gone = refl; left = refl; ended = refl }))
    ]
note_call-Passes per low (destroyed c) a = lost-Passes c a
note_call-Passes per low (withdraw p) a =
    swept-Passes per a (record (a) { waiting = erase p a.waiting }) _
      (record { gone = refl; left = refl; ended = refl })
note_call-Passes per low tick a = elim (Bool-cases (ltb (made a) low)) [
  | inl e ↦ rw e (inl (ask-Lives a))
  | inr e ↦ rw e (inl (record { gone = refl; left = refl; ended = refl }))
]
note_call-Passes per low teardown a =
    swept-Passes per a (record (a) { flag = true }) _
      (record { gone = refl; left = refl; ended = refl })
