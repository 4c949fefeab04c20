-- ===== src/Pool/Server/Ledger/Places.antt =====
-- Each connection of a server of pool.cpp is at one place.
use redis_agent.Base.{
  ℕ, suc, ◌+◌, ◌≡◌, refl, ◌∙◌, inl, inr, true, false, Bool, not, ◌&&◌, ◌||◌, List, [], ◌∷◌, ◌++◌,
  arith, ◌==◌, ltb, Bool-cases, length, length-append, if◌then◌else◌,
}
use redis_agent.Pool.Links.Segment.{has}
use redis_agent.Pool.Server.Ledger.{
  Ledger, ServerCall, fetch, created, release, destroyed, withdraw, tick, teardown, erase, drained,
  sweep, ask, asked_from, given, give, taken_from, lose, lost, note_call, May, made, all_rest,
}
use redis_agent.Pool.Server.Ledger.Lists.{one, count, count-append, count-erase, length-erase}

-- How often the connection `c` stands in the five lists together, and how long they are.
abbrev pub places : ℕ → Ledger → ℕ
places c a =
    count c a.free
    + (count c a.unconnect + (count c a.creating + (count c a.using + count c a.dying)))

abbrev pub size : Ledger → ℕ
size a =
    length a.free + (length a.unconnect + (length a.creating + (length a.using + length a.dying)))

-- Each of the connections below `per` is at one place, and no other is at any.
pub record IsTally (per : ℕ) (a : Ledger) : Type 0 where
  pub once : (c : ℕ) → places c a ≡ (if ltb c per then 1 else 0)
  pub total : size a ≡ per

-- As many connections at the same places.
pub record Alike (a b : Ledger) : Type 0 where
  pub each : (c : ℕ) → places c b ≡ places c a
  pub all : size b ≡ size a

pub Alike-IsTally : {per : ℕ} {a b : Ledger} → Alike a b → IsTally per a → IsTally per b
Alike-IsTally e t = record { once = λ c. e.each c ∙ t.once c; total = e.all ∙ t.total }

Alike-trans : {a b c : Ledger} → Alike a b → Alike b c → Alike a c
Alike-trans e f = record { each = λ c. f.each c ∙ e.each c; all = f.all ∙ e.all }

Alike-refl : (a : Ledger) → Alike a a
Alike-refl a = record { each = λ c. refl; all = refl }

sweep-Alike : (per : ℕ) (a : Ledger) → Alike a (sweep per a)
unfolding sweep
sweep-Alike per a = elim (Bool-cases (a.flag && all_rest per a)) [
  | inr e ↦ rw e (Alike-refl a)
  | inl e ↦ rw e (go a.free refl)
]
  where
    go : (l : List ℕ) → a.free ≡ l → Alike a (drained a l)
    go [] e = record { each = λ c. refl; all = refl }
    go (x ∷ xs) e = record {
      each = λ c. rw e (omega (arith, count-append c a.dying (x ∷ xs)));
      all = rw e (omega (arith, length-append a.dying (x ∷ xs)));
    }

asked_from-Alike : (a : Ledger) (l : List ℕ) → a.unconnect ≡ l → Alike a (asked_from a l)
asked_from-Alike a [] e = Alike-refl a
asked_from-Alike a (y ∷ ys) e = record { each = λ c. rw e (omega arith); all = rw e (omega arith) }

pub ask-Alike : (a : Ledger) → Alike a (ask a)
unfolding ask
ask-Alike a = asked_from-Alike a a.unconnect refl

-- The ledger without the connection `c`: one fewer at its places.
pub record Lacks (c : ℕ) (a b : Ledger) : Type 0 where
  pub each : (d : ℕ) → places d b + one c d ≡ places d a
  pub all : suc (size b) ≡ size a

joined :
    {c : ℕ} (a b : Ledger) (e : Ledger)
    → Lacks c a b
    → ((d : ℕ) → places d e ≡ places d b + one c d)
    → size e ≡ suc (size b)
    → Alike a e
joined a b e l each all = record { each = λ d. each d ∙ l.each d; all = all ∙ l.all }

give-Alike : (per c : ℕ) (a b : Ledger) → Lacks c a b → Alike a (give per c b)
unfolding give
give-Alike per c a b l = go b.waiting
  where
    go : (ws : List ℕ) → Alike a (given per c b ws)
    go [] =
        let e = record (b) { free = b.free ++ c ∷ [] } in
        Alike-trans
          (joined a b e l (λ d. omega (arith, count-append d b.free (c ∷ [])))
            (omega (arith, length-append b.free (c ∷ []))))
          (sweep-Alike per e)
    go (w ∷ ws) =
        joined a b
          (record (b) { waiting = ws; using = c ∷ b.using; handed = (c, b.reqs w) ∷ b.handed }) l
          (λ d. omega arith) (omega arith)

unconnected-Alike :
    (c : ℕ) (a b : Ledger)
    → Lacks c a b
    → Alike a (record (b) { unconnect = b.unconnect ++ c ∷ [] })
unconnected-Alike c a b l =
    joined a b (record (b) { unconnect = b.unconnect ++ c ∷ [] }) l
      (λ d. omega (arith, count-append d b.unconnect (c ∷ [])))
      (omega (arith, length-append b.unconnect (c ∷ [])))

lose-Alike : (c : ℕ) (a b : Ledger) → Lacks c a b → Alike a (lose c b)
unfolding lose
lose-Alike c a b l =
    let e = record (b) { unconnect = b.unconnect ++ c ∷ [] } in
    elim (Bool-cases (e.flag && (made e == 0))) [
      | inl h ↦ rw h (let u = unconnected-Alike c a b l in record { each = u.each; all = u.all })
      | inr h ↦ rw h (unconnected-Alike c a b l)
    ]

take-Alike : (per p req : ℕ) (a : Ledger) → Alike a (taken_from per p req a a.free)
take-Alike per p req a = go a.free refl
  where
    go : (l : List ℕ) → a.free ≡ l → Alike a (taken_from per p req a l)
    go (x ∷ xs) e = record { each = λ c. rw e (omega arith); all = rw e (omega arith) }
    go [] e = elim (Bool-cases (ltb (made a) per)) [
      | inl h ↦ rw h (let u = ask-Alike a in record { each = u.each; all = u.all })
      | inr h ↦ rw h (record { each = λ c. refl; all = refl })
    ]

created-Lacks :
    (c : ℕ) (f : ℕ → Bool) (a : Ledger)
    → has c a.creating ≡ true
    → Lacks c a (record (a) { creating = erase c a.creating; marked = f })
created-Lacks c f a h = record {
  each = λ d. omega (arith, count-erase d c a.creating h);
  all = omega (arith, length-erase c a.creating h);
}

used-Lacks :
    (c : ℕ) (a : Ledger) → has c a.using ≡ true → Lacks c a (record (a) { using = erase c a.using })
used-Lacks c a h = record {
  each = λ d. omega (arith, count-erase d c a.using h);
  all = omega (arith, length-erase c a.using h);
}

free-Lacks :
    (c : ℕ) (a : Ledger) → has c a.free ≡ true → Lacks c a (record (a) { free = erase c a.free })
free-Lacks c a h = record {
  each = λ d. omega (arith, count-erase d c a.free h);
  all = omega (arith, length-erase c a.free h);
}

dying-Lacks :
    (c n : ℕ) (a : Ledger)
    → has c a.dying ≡ true
    → Lacks c a (record (a) { dying = erase c a.dying; drift = n })
dying-Lacks c n a h = record {
  each = λ d. omega (arith, count-erase d c a.dying h);
  all = omega (arith, length-erase c a.dying h);
}

-- Which of the lists a connection that is reported destroyed is in.
pub third : (f d u m : Bool) → (f || d || u && m) ≡ true → f ≡ false → u ≡ false → d ≡ true
third f d u m h e g = ground arith

lost-Alike : (c : ℕ) (a : Ledger) → May (destroyed c) a → Alike a (lost c a)
unfolding lost
lost-Alike c a h = elim (Bool-cases (has c a.free)) [
  | inl e ↦ rw e (lose-Alike c a (record (a) { free = erase c a.free }) (free-Lacks c a e))
  | inr e ↦ elim (Bool-cases (has c a.using)) [
    | inl g ↦ rw (e, g) (record { each = λ d. refl; all = refl })
    | inr g ↦
        let dies = third (has c a.free) (has c a.dying) (has c a.using) _ h e g in
        rw (e, g)
          (lose-Alike c a (record (a) { dying = erase c a.dying; drift = suc a.drift })
            (dying-Lacks c (suc a.drift) a dies))
  ]
]

released-Alike :
    (per c : ℕ) (a : Ledger) (stays : Bool)
    → has c a.using ≡ true
    → let b = record (a) { using = erase c a.using } in
      Alike a (if stays then give per c b else record (b) { dying = c ∷ b.dying })
released-Alike per c a true h =
    give-Alike per c a (record (a) { using = erase c a.using }) (used-Lacks c a h)
released-Alike per c a false h =
    let b = record (a) { using = erase c a.using } in
    joined a b (record (b) { dying = c ∷ b.dying }) (used-Lacks c a h) (λ d. omega arith)
      (omega arith)

swept-Alike :
    (per : ℕ) (a b : Ledger) (t : Bool) → Alike a b → Alike a (if t then sweep per b else b)
swept-Alike per a b true e = Alike-trans e (sweep-Alike per b)
swept-Alike per a b false e = e

pub note_call-Alike :
    (per low : ℕ) (k : ServerCall) (a : Ledger) → May k a → Alike a (note_call per low k a)
unfolding note_call
note_call-Alike per low (fetch p req) a h = take-Alike per p req a
note_call-Alike per low (created c true) a h = give-Alike per c a _ (created-Lacks c _ a h)
note_call-Alike per low (created c false) a h =
    Alike-trans (unconnected-Alike c a _ (created-Lacks c _ a h)) (sweep-Alike per _)
note_call-Alike per low (release c failed cost) a h =
    released-Alike per c a (not failed && not (a.marked c)) h
note_call-Alike per low (destroyed c) a h = lost-Alike c a h
note_call-Alike per low (withdraw p) a h =
    let b = record (a) { waiting = erase p a.waiting } in
    swept-Alike per a b _ (record { each = λ d. refl; all = refl })
note_call-Alike per low tick a h = elim (Bool-cases (ltb (made a) low)) [
  | inl e ↦ rw e (ask-Alike a)
  | inr e ↦ rw e (Alike-refl a)
]
note_call-Alike per low teardown a h =
    let b = record (a) { flag = true } in
    swept-Alike per a b _ (record { each = λ d. refl; all = refl })

-- Whatever the call, each connection stays at one place, and none is lost or doubled.
pub note_call-IsTally :
    (per low : ℕ) (k : ServerCall) (a : Ledger)
    → May k a
    → IsTally per a
    → IsTally per (note_call per low k a)
note_call-IsTally per low k a h t = Alike-IsTally (note_call-Alike per low k a h) t
