-- ===== src/Pool/Server/Ledger/Lists.antt =====
-- How often a connection stands in a list, for the places of pool.cpp.
use redis_agent.Base.{
  ℕ, suc, ◌+◌, ◌<◌, ◌≡◌, refl, ap, inl, inr, true, false, List, [], ◌∷◌, ◌++◌, arith, ◌==◌,
  Bool-cases, length, if◌then◌else◌,
}
use redis_agent.Pool.Links.Segment.{has}
use redis_agent.Pool.Server.Ledger.{erase}

-- 1 for the same connection, 0 for another.
unfoldable pub one : ℕ → ℕ → ℕ
one x c = if x == c then 1 else 0

pub one_self : (c : ℕ) → one c c ≡ 1
unfolding one
one_self c = ground arith

abbrev pub count : ℕ → List ℕ → ℕ
count c [] = 0
count c (x ∷ xs) = one x c + count c xs

pub count-append : (c : ℕ) (xs ys : List ℕ) → count c (xs ++ ys) ≡ count c xs + count c ys
count-append c [] ys = omega arith
count-append c (x ∷ xs) ys = omega (arith, count-append c xs ys)

pub has-count : (c : ℕ) (xs : List ℕ) → has c xs ≡ true → 0 < count c xs
unfolding one
has-count c [] h = cc
has-count c (x ∷ xs) h = ground (arith, has-count c xs)

pub not_has-count : (c : ℕ) (xs : List ℕ) → count c xs ≡ 0 → has c xs ≡ false
unfolding one
not_has-count c [] h = refl
not_has-count c (x ∷ xs) h = ground (arith, not_has-count c xs)

pub count_zero : (c : ℕ) (xs : List ℕ) → has c xs ≡ false → count c xs ≡ 0
unfolding one
count_zero c [] h = refl
count_zero c (x ∷ xs) h = ground (arith, count_zero c xs)

pub count-erase :
    (d c : ℕ) (xs : List ℕ) → has c xs ≡ true → count d (erase c xs) + one c d ≡ count d xs
count-erase d c [] h = cc
count-erase d c (x ∷ xs) h = elim (Bool-cases (x == c)) [
  | inl e ↦ let at : x ≡ c = ground arith in rw (e, at) (omega arith)
  | inr e ↦ rw e (omega (arith, count-erase d c xs (ground arith)))
]

pub length-erase : (c : ℕ) (xs : List ℕ) → has c xs ≡ true → suc (length (erase c xs)) ≡ length xs
length-erase c [] h = cc
length-erase c (x ∷ xs) h = elim (Bool-cases (x == c)) [
  | inl e ↦ rw e refl
  | inr e ↦ rw e (ap suc (length-erase c xs (ground arith)))
]

-- Where a connection stands in a list.
pub record Split (c : ℕ) (l : List ℕ) : Type 0 where
  pub front : List ℕ
  pub back : List ℕ
  pub whole : l ≡ front ++ c ∷ back
  pub rest : erase c l ≡ front ++ back

pub erase-Split : (c : ℕ) (l : List ℕ) → has c l ≡ true → Split c l
erase-Split c [] h = cc
erase-Split c (x ∷ xs) h = elim (Bool-cases (x == c)) [
  | inl e ↦
      let at : x ≡ c = ground arith in
      record { front = []; back = xs; whole = rw at refl; rest = rw e refl }
  | inr e ↦
      let s = erase-Split c xs (ground arith) in
      record {
        front = x ∷ s.front;
        back = s.back;
        whole = ap (λ l. x ∷ l) s.whole;
        rest = rw e (ap (λ l. x ∷ l) s.rest);
      }
]

pub has-erase_le : (d c : ℕ) (xs : List ℕ) → has d (erase c xs) ≡ true → has d xs ≡ true
has-erase_le d c [] h = h
has-erase_le d c (x ∷ xs) h = ground (arith, has-erase_le d c xs)
