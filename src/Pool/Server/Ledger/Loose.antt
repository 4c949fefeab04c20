-- ===== src/Pool/Server/Ledger/Loose.antt =====
-- A connection of pool.cpp that stands in one list stands in no other.
use redis_agent.Base.{
  ℕ, ◌+◌, ◌≤◌, ◌≡◌, refl, sym, ◌∙◌, inl, inr, true, false, Bool, List, [], ◌∷◌, arith, ◌==◌,
  Bool-cases, if◌then◌else◌,
}
use redis_agent.Base.Int.{pos, ◌+ℤ◌}
use redis_agent.Pool.Links.Segment.{has}
use redis_agent.Pool.Server.Ledger.{Ledger, erase}
use redis_agent.Pool.Server.Ledger.Lists.{one, count, has-count, not_has-count, length-erase}
use redis_agent.Pool.Server.Ledger.Places.{IsTally, places}
use redis_agent.Pool.Server.Ledger.Give.{IsLoose}

pub has-erase :
    (d c : ℕ) (l : List ℕ) → count c l ≤ 1 → has d (erase c l) ≡ (if c == d then false else has d l)
unfolding one
has-erase d c [] h = ground arith
has-erase d c (x ∷ xs) h = ground (arith, has-erase d c xs, not_has-count c xs, not_has-count d xs)

at_most : (per c : ℕ) (a : Ledger) → IsTally per a → places c a ≤ 1
at_most per c a t = ground (arith, t.once c)

module _ (per c : ℕ) (a : Ledger) (t : IsTally per a) where
  pub creating-IsLoose : has c a.creating ≡ true → IsLoose per c a × (has c a.using ≡ false)
  creating-IsLoose h =
      let few = at_most per c a t in
      let there = has-count c a.creating h in
      let size = t.total in
      (
        record {
          not_free = not_has-count c a.free (omega arith);
          not_unconnect = not_has-count c a.unconnect (omega arith);
          room = omega (arith, length-erase c a.creating h);
        },
        not_has-count c a.using (omega arith),
      )

  pub using-IsLoose :
      has c a.using ≡ true → IsLoose per c a × (has c a.dying ≡ false) × (count c a.using ≤ 1)
  using-IsLoose h =
      let few = at_most per c a t in
      let there = has-count c a.using h in
      let size = t.total in
      (
        record {
          not_free = not_has-count c a.free (omega arith);
          not_unconnect = not_has-count c a.unconnect (omega arith);
          room = omega (arith, length-erase c a.using h);
        },
        not_has-count c a.dying (omega arith),
        omega arith,
      )

  pub dying-IsLoose : has c a.dying ≡ true → IsLoose per c a
  dying-IsLoose h =
      let few = at_most per c a t in
      let there = has-count c a.dying h in
      let size = t.total in
      record {
        not_free = not_has-count c a.free (omega arith);
        not_unconnect = not_has-count c a.unconnect (omega arith);
        room = omega (arith, length-erase c a.dying h);
      }

  pub free-IsLoose :
      has c a.free ≡ true
      → IsLoose per c (record (a) { free = erase c a.free }) × (has c a.using ≡ false)
  free-IsLoose h =
      let few = at_most per c a t in
      let there = has-count c a.free h in
      let size = t.total in
      let out : (c == c) ≡ true = ground arith in
      (
        record {
          not_free = has-erase c c a.free (omega arith) ∙ (rw out refl);
          not_unconnect = not_has-count c a.unconnect (omega arith);
          room = omega (arith, length-erase c a.free h);
        },
        not_has-count c a.using (omega arith),
      )

pub one_onto : (n : ℕ) → pos (0 + n) +ℤ pos 1 ≡ pos (1 + n)
unfolding ◌+ℤ◌
one_onto n = ground arith

pub unset :
    (c d : ℕ) (l : List ℕ) (u : Bool)
    → has c l ≡ false
    → u ≡ has d l
    → (if c == d then false else u) ≡ has d l
unset c d l u h e = elim (Bool-cases (c == d)) [
  | inl g ↦ let at : c ≡ d = ground arith in rw (g, ← at) (sym h)
  | inr g ↦ rw (g) e
]
