-- ===== src/Req/Release/Held.antt =====
-- Connections that the sub requests of a request of req.cpp hold.
use redis_agent.Req.Release.Effects.{one}
use redis_agent.Base.{
  ℕ, ◌+◌, ◌≡◌, refl, inl, inr, Option, none, some, true, false, List, [], ◌∷◌, arith, ◌==◌,
  Bool-cases, if◌then◌else◌,
}
use redis_agent.Pool.Links.Segment.{has}

abbrev pub without : ℕ → List ℕ → List ℕ
without p [] = []
without p (q ∷ qs) = if q == p then qs else q ∷ without p qs

abbrev pub held_by : ℕ → Option ℕ → ℕ
held_by h none = 0
held_by h (some k) = one h k

-- How many of the sub requests have connection `h`.
abbrev pub held : ℕ → (ℕ → Option ℕ) → List ℕ → ℕ
held h f [] = 0
held h f (p ∷ ps) = held_by h (f p) + held h f ps

pub held-other :
    (h p : ℕ) (f g : ℕ → Option ℕ) (out : List ℕ)
    → has p out ≡ false
    → ((q : ℕ) → (p == q) ≡ false → g q ≡ f q)
    → held h g out ≡ held h f out
held-other h p f g [] n same = refl
held-other h p f g (q ∷ qs) n same =
    let here = same q (ground arith) in
    let rest = held-other h p f g qs (ground arith) same in rw (here, rest) refl

pub held-same :
    (h : ℕ) (f g : ℕ → Option ℕ) (out : List ℕ)
    → ((q : ℕ) → g q ≡ f q)
    → held h g out ≡ held h f out
held-same h f g [] same = refl
held-same h f g (q ∷ qs) same = let rest = held-same h f g qs same in rw (same q, rest) refl

pub held-without :
    (h p : ℕ) (f : ℕ → Option ℕ) (out : List ℕ)
    → has p out ≡ true
    → held h f out ≡ held h f (without p out) + held_by h (f p)
held-without h p f [] i = cc
held-without h p f (q ∷ qs) i = elim (Bool-cases (q == p)) [
  | inl e ↦ let at : q ≡ p = ground arith in rw (e, at) (omega arith)
  | inr e ↦ rw e (let rest = held-without h p f qs (ground arith) in omega (arith, rest))
]
