-- ===== src/Meta/Partition/Print.antt =====
-- Numbers in decimal, as they stand in a configuration, and how meta.cpp reads them (`atoi`).
use mathlib.Core.Path.{subst}
use redis_agent.Base.{
  ℕ, zero, suc, ◌+◌, ◌-◌, ◌*◌, ◌/◌, ◌%◌, ◌^◌, ◌≤◌, ◌<◌, ◌≡◌, refl, ap, sym, ◌∙◌, inl, inr, true,
  false, List, [], ◌∷◌, ◌++◌, arith, ltb, ◌==◌, Bool-cases, if◌then◌else◌, All, All-append, none,
  some,
}
use redis_agent.Base.Int.{pos}
use redis_agent.Meta.Partition.{cut, is_space, is_digit, digits, atoi, to_unsigned}

-- The decimal digits of a number, on fuel: a number has no more digits than itself, or one.
unfoldable pub decimal_on : ℕ → ℕ → List ℕ
decimal_on zero n = (48 + n) ∷ []
decimal_on (suc fuel) n =
    let front = decimal_on fuel (n / 10) in
    if ltb n 10 then (48 + n) ∷ [] else front ++ (48 + n % 10) ∷ []

unfoldable pub decimal : ℕ → List ℕ
decimal n = decimal_on n n

abbrev pub Digits : List ℕ → Type 0
Digits xs = All (λ x. is_digit x ≡ true) xs

a_digit : (d : ℕ) → d < 10 → is_digit (48 + d) ≡ true
a_digit d h = ground arith

decimal_on-Digits : (fuel n : ℕ) → n ≤ fuel → Digits (decimal_on fuel n)
unfolding decimal_on
decimal_on-Digits zero n h = (a_digit n (omega arith), tt)
decimal_on-Digits (suc fuel) n h = elim (Bool-cases (ltb n 10)) [
  | inl e ↦ rw e (a_digit n (ground arith), tt)
  | inr e ↦ rw e (
      All-append (λ x. is_digit x ≡ true) (decimal_on fuel (n / 10)) ((48 + n % 10) ∷ [])
        (decimal_on-Digits fuel (n / 10) (ground arith)) (a_digit (n % 10) (omega arith), tt))
]

pub decimal-Digits : (n : ℕ) → Digits (decimal n)
unfolding decimal
decimal-Digits n = decimal_on-Digits n n (omega arith)

-- One more digit behind the others.
digits-append :
    (a : ℕ) (xs : List ℕ) (d : ℕ)
    → Digits xs
    → d < 10
    → digits a (xs ++ (48 + d) ∷ []) ≡ digits a xs * 10 + d
unfolding digits
digits-append a [] d h l = rw (a_digit d l) (omega arith)
digits-append a (x ∷ xs) d h l = rw (h.0) (digits-append (a * 10 + (x - 48)) xs d h.1 l)

digits-decimal_on : (fuel n : ℕ) → n ≤ fuel → digits 0 (decimal_on fuel n) ≡ n
unfolding decimal_on digits
digits-decimal_on zero n h = rw (a_digit n (omega arith)) (omega arith)
digits-decimal_on (suc fuel) n h = elim (Bool-cases (ltb n 10)) [
  | inl e ↦ let d = a_digit n (ground arith) in rw e (rw d (omega arith))
  | inr e ↦
      let less : n / 10 ≤ fuel = ground arith in
      rw e (
        digits-append 0 (decimal_on fuel (n / 10)) (n % 10) (decimal_on-Digits fuel (n / 10) less)
          (omega arith)
        ∙ omega (arith, digits-decimal_on fuel (n / 10) less))
]

-- A text of digits has a first one, which is no blank and no sign.
atoi-Digits : (x : ℕ) (xs : List ℕ) → is_digit x ≡ true → atoi (x ∷ xs) ≡ pos (digits 0 (x ∷ xs))
unfolding atoi
atoi-Digits x xs h =
    let blank : is_space x ≡ false = ground arith in
    let plus : (x == 43) ≡ false = ground arith in
    let minus : (x == 45) ≡ false = ground arith in rw (blank, plus, minus) refl

-- The text is not empty.
pub record Starts (xs : List ℕ) : Type 0 where
  pub head : ℕ
  pub rest : List ℕ
  pub whole : xs ≡ head ∷ rest

decimal_on-Starts : (fuel n : ℕ) → Starts (decimal_on fuel n)
unfolding decimal_on
decimal_on-Starts zero n = record { head = 48 + n; rest = []; whole = refl }
decimal_on-Starts (suc fuel) n = elim (Bool-cases (ltb n 10)) [
  | inl e ↦ record { head = 48 + n; rest = []; whole = rw e refl }
  | inr e ↦
      let s = decimal_on-Starts fuel (n / 10) in
      record {
        head = s.head;
        rest = s.rest ++ (48 + n % 10) ∷ [];
        whole = rw e (ap (λ l. l ++ (48 + n % 10) ∷ []) s.whole);
      }
]

pub decimal-Starts : (n : ℕ) → Starts (decimal n)
unfolding decimal
decimal-Starts n = decimal_on-Starts n n

pub atoi-decimal : (n : ℕ) → atoi (decimal n) ≡ pos n
unfolding decimal
atoi-decimal n =
    let s = decimal_on-Starts n n in
    let all : Digits (s.head ∷ s.rest) =
      subst Digits s.whole (decimal_on-Digits n n (omega arith)) in
    ap atoi s.whole
    ∙ atoi-Digits s.head s.rest all.0
    ∙ ap (λ l. pos (digits 0 l)) (sym s.whole)
    ∙ ap pos (digits-decimal_on n n (omega arith))

-- A character that is no digit is not found in a number; behind it the text is cut there.
pub cut-Digits : (c : ℕ) (xs : List ℕ) → is_digit c ≡ false → Digits xs → cut c xs ≡ (xs, none)
unfolding cut
cut-Digits c [] h d = refl
cut-Digits c (x ∷ xs) h d =
    let other : (x == c) ≡ false = let first = d.0 in ground arith in
    rw (other, cut-Digits c xs h d.1) refl

abbrev pub Without : ℕ → List ℕ → Type 0
Without c xs = All (λ x. (x == c) ≡ false) xs

pub cut-Without : (c : ℕ) (xs ys : List ℕ) → Without c xs → cut c (xs ++ c ∷ ys) ≡ (xs, some ys)
unfolding cut
cut-Without c [] ys d = let same : (c == c) ≡ true = ground arith in rw same refl
cut-Without c (x ∷ xs) ys d = rw (d.0, cut-Without c xs ys d.1) refl

pub cut-none : (c : ℕ) (xs : List ℕ) → Without c xs → cut c xs ≡ (xs, none)
unfolding cut
cut-none c [] d = refl
cut-none c (x ∷ xs) d = rw (d.0, cut-none c xs d.1) refl

pub Digits-Without : (c : ℕ) (xs : List ℕ) → is_digit c ≡ false → Digits xs → Without c xs
Digits-Without c [] h d = tt
Digits-Without c (x ∷ xs) h d = (let first = d.0 in ground arith, Digits-Without c xs h d.1)

pub to_unsigned-pos : (n : ℕ) → n < 2 ^ 32 → to_unsigned (pos n) ≡ n
unfolding to_unsigned
to_unsigned-pos n h = omega arith
