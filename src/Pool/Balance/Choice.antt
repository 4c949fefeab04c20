-- ===== src/Pool/Balance/Choice.antt =====
-- Which server `_pool_get_balance_server` of pool.cpp answers with.
use mathlib.Core.Path.{subst}
use native.Mathlib.Nat.{mod_self, mod-lt, mod-eq_of_lt}
use redis_agent.Base.{
  ℕ, zero, suc, ◌+◌, ◌-◌, ◌%◌, ◌<◌, ◌≤◌, ◌≡◌, ◌≢◌, refl, inl, inr, Option, none, some, false, ◌∷◌,
  List, [], arith, ◌==◌, Bool-cases, ltb, All, if◌then◌else◌, get_elem?,
}
use redis_agent.Base.Int.{ℤ, pos, negsuc, eqb_ℤ}
use redis_agent.Pool.Balance.{get_random_server, available, skip_empty, chosen, get_balance_server}

-- One step round an array of `n` entries.
next_index : (n i : ℕ) → i < n → (i + 1) % n ≡ (if i + 1 == n then 0 else i + 1)
next_index n i h = elim (Bool-cases (i + 1 == n)) [
  | inl e ↦ let at : i + 1 ≡ n = ground arith in rw (e, at) (mod_self n)
  | inr e ↦ rw e (mod-eq_of_lt (ground arith))
]

next_bound : (n i : ℕ) → i < n → (i + 1) % n < n
next_bound n i h = rw (next_index n i h) (ground arith)

skip_empty-bound :
    (counts : ℕ → ℤ) (n index rounds : ℕ) → index < n → skip_empty counts n index rounds < n
unfolding skip_empty
skip_empty-bound counts n index zero h = h
skip_empty-bound counts n index (suc rounds) h =
    ground (arith, h, skip_empty-bound counts n ((index + 1) % n) rounds (next_bound n index h))

-- The steps from `i` round to `j`.
abbrev steps : ℕ → ℕ → ℕ → ℕ
steps n i j = if ltb j i then j + n - i else j - i

skip_empty-found :
    (counts : ℕ → ℤ) (n index rounds j : ℕ)
    → index < n
    → j < n
    → steps n index j ≤ rounds
    → eqb_ℤ (counts j) (pos 0) ≡ false
    → eqb_ℤ (counts (skip_empty counts n index rounds)) (pos 0) ≡ false
unfolding skip_empty
skip_empty-found counts n index zero j h k near e = let at : j ≡ index = ground arith in rw (← at) e
skip_empty-found counts n index (suc rounds) j h k near e =
    elim (Bool-cases (eqb_ℤ (counts index) (pos 0))) [
      | inl empty ↦
          let ne : j ≢ index = λ at. cc in
          let closer : steps n ((index + 1) % n) j ≤ rounds =
            rw (next_index n index h) (ground arith) in
          rw empty
            (skip_empty-found counts n ((index + 1) % n) rounds j (next_bound n index h) k closer e)
      | inr full ↦ rw full full
    ]

random_bound : (n : ℕ) (key : ℤ) → 0 < n → get_random_server n key < n
unfolding get_random_server
random_bound n (pos key) h = ground (arith, h, mod-lt key h)
random_bound n (negsuc k) h = h

abbrev or_random : ℕ → ℤ → Option ℕ → ℕ
or_random n key none = get_random_server n key
or_random n key (some id) = if ltb id n then id else get_random_server n key

or_random-bound : (n : ℕ) (key : ℤ) (o : Option ℕ) → 0 < n → or_random n key o < n
or_random-bound n key none h = random_bound n key h
or_random-bound n key (some id) h = ground (arith, random_bound n key h)

-- The answer by cases of what is offered.
abbrev answer : ℕ → (ℕ → ℤ) → ℕ → (List ℕ → ℤ) → ℤ → List ℕ → ℕ
answer n counts rand fetch key [] = skip_empty counts n (rand % n) n
answer n counts rand fetch key (i ∷ is) = or_random n key (chosen (i ∷ is) (fetch (i ∷ is)))

answer_lem :
    (per n : ℕ) (counts : ℕ → ℤ) (rand : ℕ) (fetch : List ℕ → ℤ) (key : ℤ)
    → get_balance_server per n counts rand fetch key
      ≡ answer n counts rand fetch key (available per counts 0 n)
unfolding get_balance_server
answer_lem per n counts rand fetch key = go (available per counts 0 n)
  where
    pick :
        (o : Option ℕ)
        → (elim o [
          | none ↦ get_random_server n key
          | some id ↦ if ltb id n then id else get_random_server n key
        ])
          ≡ or_random n key o
    pick none = refl
    pick (some id) = refl

    go :
        (l : List ℕ)
        → (elim l [
          | [] ↦ skip_empty counts n (rand % n) n
          | i ∷ is ↦ elim (chosen (i ∷ is) (fetch (i ∷ is))) [
            | none ↦ get_random_server n key
            | some id ↦ if ltb id n then id else get_random_server n key
          ]
        ])
          ≡ answer n counts rand fetch key l
    go [] = refl
    go (i ∷ is) = pick (chosen (i ∷ is) (fetch (i ∷ is)))

-- Whatever the strategy and `rand` answer, `_pool_get_balance_server` returns the index of a server
-- of the pool, when the pool has one.
pub get_balance_server-bound :
    (per n : ℕ) (counts : ℕ → ℤ) (rand : ℕ) (fetch : List ℕ → ℤ) (key : ℤ)
    → 0 < n
    → get_balance_server per n counts rand fetch key < n
get_balance_server-bound per n counts rand fetch key h =
    rw (answer_lem per n counts rand fetch key) (go (available per counts 0 n))
  where
    go : (l : List ℕ) → answer n counts rand fetch key l < n
    go [] = skip_empty-bound counts n (rand % n) n (mod-lt rand h)
    go (i ∷ is) = or_random-bound n key (chosen (i ∷ is) (fetch (i ∷ is))) h

-- When no server is offered to the strategy, the answer is a server with a connection if there is
-- one, from wherever `rand` starts the search.
pub get_balance_server-connected :
    (per n : ℕ) (counts : ℕ → ℤ) (rand : ℕ) (fetch : List ℕ → ℤ) (key : ℤ) (j : ℕ)
    → j < n
    → available per counts 0 n ≡ []
    → eqb_ℤ (counts j) (pos 0) ≡ false
    → eqb_ℤ (counts (get_balance_server per n counts rand fetch key)) (pos 0) ≡ false
get_balance_server-connected per n counts rand fetch key j k none_left e =
    let at : rand % n < n = mod-lt rand (ground arith) in
    rw (answer_lem per n counts rand fetch key, none_left)
      (skip_empty-found counts n (rand % n) n j at k (ground arith) e)

-- A server that may be offered: it has a connection, and room for a further one.
pub record CanServe (per n : ℕ) (counts : ℕ → ℤ) (i : ℕ) : Type 0 where
  pub within : i < n
  pub connected : eqb_ℤ (counts i) (pos 0) ≡ false
  pub room : eqb_ℤ (counts i) (pos per) ≡ false

available-All :
    (per : ℕ) (counts : ℕ → ℤ) (i n m : ℕ)
    → i + n ≤ m
    → All (CanServe per m counts) (available per counts i n)
unfolding available
available-All per counts i zero m h = tt
available-All per counts i (suc n) m h =
    let rest = available-All per counts (i + 1) n m (ground arith) in
    elim (Bool-cases (eqb_ℤ (counts i) (pos 0))) [
      | inl e ↦ rw e rest
      | inr e ↦ elim (Bool-cases (eqb_ℤ (counts i) (pos per))) [
        | inl f ↦ rw (e, f) rest
        | inr f ↦ rw (e, f) (record { within = ground arith; connected = e; room = f }, rest)
      ]
    ]

get_elem?-All : (P : ℕ → Type 0) (l : List ℕ) (i x : ℕ) → All P l → get_elem? l i ≡ some x → P x
get_elem?-All P [] i x all e = cc
get_elem?-All P (y ∷ l) zero x all e = let at : y ≡ x = cc in subst P at all.0
get_elem?-All P (y ∷ l) (suc i) x all e = get_elem?-All P l i x all.1 e

chosen-All : (P : ℕ → Type 0) (l : List ℕ) (id : ℤ) (x : ℕ) → All P l → chosen l id ≡ some x → P x
unfolding chosen
chosen-All P l (pos i) x all e = get_elem?-All P l i x all e
chosen-All P l (negsuc k) x all e = cc

-- When the strategy picks one of the servers it was offered, that server is the answer, and it has
-- a connection and room for a further one.
pub get_balance_server-CanServe :
    (per n : ℕ) (counts : ℕ → ℤ) (rand : ℕ) (fetch : List ℕ → ℤ) (key : ℤ) (offered : List ℕ)
    (id : ℕ)
    → available per counts 0 n ≡ offered
    → chosen offered (fetch offered) ≡ some id
    → (get_balance_server per n counts rand fetch key ≡ id) × CanServe per n counts id
get_balance_server-CanServe per n counts rand fetch key [] id e f = go (fetch []) f
  where
    go :
        (k : ℤ)
        → chosen [] k ≡ some id
        → (get_balance_server per n counts rand fetch key ≡ id) × CanServe per n counts id
    go (pos i) f = unfold chosen in cc
    go (negsuc i) f = unfold chosen in cc
get_balance_server-CanServe per n counts rand fetch key (i ∷ is) id e f =
    let all : All (CanServe per n counts) (i ∷ is) =
      subst (All (CanServe per n counts)) e (available-All per counts 0 n n (ground arith)) in
    let can = chosen-All (CanServe per n counts) (i ∷ is) (fetch (i ∷ is)) id all f in
    let within = can.within in
    (rw (answer_lem per n counts rand fetch key, e, f) (ground arith), can)
