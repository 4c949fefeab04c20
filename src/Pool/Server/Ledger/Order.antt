-- ===== src/Pool/Server/Ledger/Order.antt =====
-- Who gets a connection of a server of pool.cpp, and when.
use redis_agent.Base.{
  ℕ, suc, ◌≡◌, refl, ap, sym, ◌∙◌, inl, inr, true, false, Bool, ◌&&◌, ◌⊎◌, List, [], ◌∷◌, ◌++◌,
  arith, ◌==◌, ltb, Bool-cases, if◌then◌else◌, map, append_assoc, append_nil,
}
use redis_agent.Pool.Links.Segment.{has}
use redis_agent.Pool.Server.Ledger.{
  Ledger, ServerCall, fetch, created, release, destroyed, withdraw, tick, teardown, erase, made,
  all_rest, drained, asked_from, ask, given, give, taken_from, lose, lost, sweep,
}

-- The requests that got a connection, the first first.
abbrev pub served : List (ℕ × ℕ) → List ℕ
served [] = []
served ((c, r) ∷ l) = served l ++ r ∷ []

-- Those that got one and those that wait, in their order.
abbrev pub line : Ledger → List ℕ
line a = served a.handed ++ map a.reqs a.waiting

-- A free connection and a waiting request are not there together.
abbrev pub IsIdle : Ledger → Type 0
IsIdle a = (a.free ≡ []) ⊎ (a.waiting ≡ [])

-- The request that a call brings, and the calls that take none away.
abbrev pub brought : List ServerCall → List ℕ
brought [] = []
brought (fetch p req ∷ cs) = req ∷ brought cs
brought (created c ok ∷ cs) = brought cs
brought (release c failed cost ∷ cs) = brought cs
brought (destroyed c ∷ cs) = brought cs
brought (withdraw p ∷ cs) = brought cs
brought (tick ∷ cs) = brought cs
brought (teardown ∷ cs) = brought cs

abbrev pub is_withdraw : ServerCall → Bool
is_withdraw (withdraw p) = true
is_withdraw (fetch p req) = false
is_withdraw (created c ok) = false
is_withdraw (release c failed cost) = false
is_withdraw (destroyed c) = false
is_withdraw tick = false
is_withdraw teardown = false

-- The line and what keeps it.
pub record Queues (a b : Ledger) (more : List ℕ) : Type 0 where
  pub grown : line b ≡ line a ++ more
  pub idle : IsIdle b

-- The lists that the line does not show.
pub record Alike (a b : Ledger) : Type 0 where
  pub handed : b.handed ≡ a.handed
  pub waiting : b.waiting ≡ a.waiting
  pub reqs : b.reqs ≡ a.reqs

Alike-line : (a b : Ledger) → Alike a b → line b ≡ line a
Alike-line a b e = rw (e.handed, e.waiting, e.reqs) refl

pub sweep-Alike : (per : ℕ) (a : Ledger) → Alike a (sweep per a)
unfolding sweep
sweep-Alike per a = elim (Bool-cases (a.flag && all_rest per a)) [
  | inl e ↦ rw e (go a.free)
  | inr e ↦ rw e (record { handed = refl; waiting = refl; reqs = refl })
]
  where
    go : (l : List ℕ) → Alike a (drained a l)
    go [] = record { handed = refl; waiting = refl; reqs = refl }
    go (x ∷ xs) = record { handed = refl; waiting = refl; reqs = refl }

pub ask-Alike : (a : Ledger) → Alike a (ask a)
unfolding ask
ask-Alike a = go a.unconnect
  where
    go : (l : List ℕ) → Alike a (asked_from a l)
    go [] = record { handed = refl; waiting = refl; reqs = refl }
    go (y ∷ ys) = record { handed = refl; waiting = refl; reqs = refl }

pub ask-free : (a : Ledger) → (ask a).free ≡ a.free
unfolding ask
ask-free a = go a.unconnect
  where
    go : (l : List ℕ) → (asked_from a l).free ≡ a.free
    go [] = refl
    go (y ∷ ys) = refl

sweep-free : (per : ℕ) (a : Ledger) → a.free ≡ [] → (sweep per a).free ≡ []
unfolding sweep
sweep-free per a e = elim (Bool-cases (a.flag && all_rest per a)) [
  | inl h ↦ rw h (go a.free)
  | inr h ↦ rw h e
]
  where
    go : (l : List ℕ) → (drained a l).free ≡ []
    go [] = e
    go (x ∷ xs) = refl

sweep-IsIdle : (per : ℕ) (a : Ledger) → IsIdle a → IsIdle (sweep per a)
sweep-IsIdle per a (inl e) = inl (sweep-free per a e)
sweep-IsIdle per a (inr e) = inr ((sweep-Alike per a).waiting ∙ e)

-- No request comes, and none is served.
pub still : (a b : Ledger) → Alike a b → IsIdle b → Queues a b []
still a b e i = record { grown = Alike-line a b e ∙ sym (append_nil (line a)); idle = i }

pub swept : (per : ℕ) (a b : Ledger) → Alike a b → IsIdle b → Queues a (sweep per b) []
swept per a b e i =
    let f = sweep-Alike per b in
    still a (sweep per b)
      (record {
        handed = f.handed ∙ e.handed;
        waiting = f.waiting ∙ e.waiting;
        reqs = f.reqs ∙ e.reqs;
      })
      (sweep-IsIdle per b i)

pub swept_if :
    (per : ℕ) (a b : Ledger) (t : Bool)
    → Alike a b
    → IsIdle b
    → Queues a (if t then sweep per b else b) []
swept_if per a b true e i = swept per a b e i
swept_if per a b false e i = still a b e i

no_free : (a : Ledger) (w : ℕ) (ws : List ℕ) → IsIdle a → a.waiting ≡ w ∷ ws → a.free ≡ []
no_free a w ws (inl e) h = e
no_free a w ws (inr e) h = cc

no_waiting : (a : Ledger) (x : ℕ) (xs : List ℕ) → IsIdle a → a.free ≡ x ∷ xs → a.waiting ≡ []
no_waiting a x xs (inl e) h = cc
no_waiting a x xs (inr e) h = e

-- A connection that is put back goes to the first in the line.
pub give-Queues : (per c : ℕ) (a b : Ledger) → Alike a b → IsIdle b → Queues a (give per c b) []
unfolding give
give-Queues per c a b e i = go b.waiting refl
  where
    go : (l : List ℕ) → b.waiting ≡ l → Queues a (given per c b l) []
    go [] h =
        swept per a (record (b) { free = b.free ++ c ∷ [] })
          (record { handed = e.handed; waiting = e.waiting; reqs = e.reqs }) (inr h)
    go (w ∷ ws) h = record {
      grown =
          append_assoc (served b.handed) (b.reqs w ∷ []) (map b.reqs ws)
          ∙ ap (λ l. served b.handed ++ map b.reqs l) (sym h)
          ∙ Alike-line a b e
          ∙ sym (append_nil (line a));
      idle = inl (no_free b w ws i h);
    }

map-set :
    (p req : ℕ) (f : ℕ → ℕ) (l : List ℕ)
    → has p l ≡ false
    → map (λ q. if p == q then req else f q) (l ++ p ∷ []) ≡ map f l ++ req ∷ []
map-set p req f [] h = ground arith
map-set p req f (x ∷ xs) h = ground (arith, map-set p req f xs)

pub take-Queues :
    (per p req : ℕ) (a : Ledger)
    → IsIdle a
    → has p a.waiting ≡ false
    → Queues a (taken_from per p req a a.free) (req ∷ [])
take-Queues per p req a i out = go a.free refl
  where
    queued :
        (b : Ledger)
        → Alike a b
        → b.free ≡ []
        → Queues a
            (record (b) {
              waiting = b.waiting ++ p ∷ [];
              reqs = λ q. if p == q then req else b.reqs q;
            })
            (req ∷ [])
    queued b e f = record {
      grown =
          ap (λ l. served b.handed ++ l)
            (map-set p req b.reqs b.waiting (ap (λ l. has p l) e.waiting ∙ out))
          ∙ sym (append_assoc (served b.handed) (map b.reqs b.waiting) (req ∷ []))
          ∙ ap (λ l. l ++ req ∷ []) (Alike-line a b e);
      idle = inl f;
    }

    go : (l : List ℕ) → a.free ≡ l → Queues a (taken_from per p req a l) (req ∷ [])
    go (x ∷ xs) h =
        let none_wait = no_waiting a x xs i h in
        record {
          grown =
              rw none_wait
                (rw (append_nil (served a.handed)) (append_nil (served a.handed ++ req ∷ [])));
          idle = inr none_wait;
        }
    go [] h = elim (Bool-cases (ltb (made a) per)) [
      | inl e ↦ rw e (queued (ask a) (ask-Alike a) (ask-free a ∙ h))
      | inr e ↦ rw e (queued a (record { handed = refl; waiting = refl; reqs = refl }) h)
    ]

erased : (c : ℕ) (l : List ℕ) → l ≡ [] → erase c l ≡ []
erased c l e = rw e refl

lose-Queues : (c : ℕ) (a b : Ledger) → Alike a b → IsIdle b → Queues a (lose c b) []
unfolding lose
lose-Queues c a b e i =
    let l = record (b) { unconnect = b.unconnect ++ c ∷ [] } in
    let kept : Queues a l [] =
      still a l (record { handed = e.handed; waiting = e.waiting; reqs = e.reqs }) i in
    elim (Bool-cases (l.flag && (made l == 0))) [
      | inl h ↦ rw h (record { grown = kept.grown; idle = kept.idle })
      | inr h ↦ rw h kept
    ]

pub lost-Queues : (c : ℕ) (a : Ledger) → IsIdle a → Queues a (lost c a) []
unfolding lost
lost-Queues c a i = elim (Bool-cases (has c a.free)) [
  | inl e ↦ rw e (
      lose-Queues c a (record (a) { free = erase c a.free })
        (record { handed = refl; waiting = refl; reqs = refl }) (fewer i))
  | inr e ↦ elim (Bool-cases (has c a.using)) [
    | inl g ↦ rw (e, g) (still a _ (record { handed = refl; waiting = refl; reqs = refl }) i)
    | inr g ↦
        rw (e, g)
          (lose-Queues c a (record (a) { dying = erase c a.dying; drift = suc a.drift })
            (record { handed = refl; waiting = refl; reqs = refl }) i)
  ]
]
  where
    fewer : IsIdle a → IsIdle (record (a) { free = erase c a.free })
    fewer (inl h) = inl (erased c a.free h)
    fewer (inr h) = inr h
