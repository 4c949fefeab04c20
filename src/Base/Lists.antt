-- ===== src/Base/Lists.antt =====
-- Lists measured and indexed by native numbers, under the library's names.
use Prim.Native.Nat.{ℕ, zero, suc, ◌+◌, ◌-◌, ◌≤◌}
use mathlib.Core.Path.{◌≡◌, refl, ap}
use mathlib.Core.List.{List, [], ◌∷◌, ◌++◌}
use mathlib.Core.Option.{Option, none, some}
use native.Mathlib.Omega.{arith}

module _ {ℓ} {A : Type ℓ} where
  abbrev pub length : List A → ℕ
  length [] = 0
  length (x ∷ xs) = suc (length xs)

  abbrev pub get_elem? : List A → ℕ → Option A
  get_elem? [] i = none
  get_elem? (x ∷ xs) zero = some x
  get_elem? (x ∷ xs) (suc i) = get_elem? xs i

  pub length-append : (xs ys : List A) → length (xs ++ ys) ≡ length xs + length ys
  length-append [] ys = omega arith
  length-append (x ∷ xs) ys = omega (arith, length-append xs ys)

  -- A predicate on every entry, by recursion, which the tactics read and build.
  abbrev pub All {κ} : (A → Type κ) → List A → Type κ
  All P [] = Unit
  All P (x ∷ xs) = P x × All P xs

  pub All-append {κ} : (P : A → Type κ) (xs ys : List A) → All P xs → All P ys → All P (xs ++ ys)
  All-append P [] ys hx hy = hy
  All-append P (x ∷ xs) ys hx hy = (hx.0, All-append P xs ys hx.1 hy)

  -- The first `n` entries, and the rest.
  abbrev pub take : ℕ → List A → List A
  take n [] = []
  take zero (x ∷ xs) = []
  take (suc n) (x ∷ xs) = x ∷ take n xs

  abbrev pub drop : ℕ → List A → List A
  drop n [] = []
  drop zero (x ∷ xs) = x ∷ xs
  drop (suc n) (x ∷ xs) = drop n xs

  pub take_zero : (xs : List A) → take 0 xs ≡ []
  take_zero [] = refl
  take_zero (x ∷ xs) = refl

  pub drop_zero : (xs : List A) → drop 0 xs ≡ xs
  drop_zero [] = refl
  drop_zero (x ∷ xs) = refl

  pub length-drop : (n : ℕ) (xs : List A) → length (drop n xs) ≡ length xs - n
  length-drop n [] = omega arith
  length-drop zero (x ∷ xs) = omega arith
  length-drop (suc n) (x ∷ xs) = omega (arith, length-drop n xs)

  pub length-take_le : (n : ℕ) (xs : List A) → n ≤ length xs → length (take n xs) ≡ n
  length-take_le n [] h = omega arith
  length-take_le zero (x ∷ xs) h = refl
  length-take_le (suc n) (x ∷ xs) h = omega (arith, length-take_le n xs (omega arith))

  pub take_all : (n : ℕ) (xs : List A) → length xs ≤ n → take n xs ≡ xs
  take_all n [] h = refl
  take_all zero (x ∷ xs) h = absurd (omega arith)
  take_all (suc n) (x ∷ xs) h = ap (λ ys. x ∷ ys) (take_all n xs (omega arith))

  pub drop_all : (n : ℕ) (xs : List A) → length xs ≤ n → drop n xs ≡ []
  drop_all n [] h = refl
  drop_all zero (x ∷ xs) h = absurd (omega arith)
  drop_all (suc n) (x ∷ xs) h = drop_all n xs (omega arith)

  -- At the seam of two lists, `n` the length of the first.
  pub take-append_seam : (n : ℕ) (xs ys : List A) → n ≡ length xs → take n (xs ++ ys) ≡ xs
  take-append_seam zero [] ys e = take_zero ys
  take-append_seam (suc n) [] ys e = absurd (omega arith)
  take-append_seam zero (x ∷ xs) ys e = absurd (omega arith)
  take-append_seam (suc n) (x ∷ xs) ys e =
      ap (λ zs. x ∷ zs) (take-append_seam n xs ys (omega arith))

  pub drop-append_seam : (n : ℕ) (xs ys : List A) → n ≡ length xs → drop n (xs ++ ys) ≡ ys
  drop-append_seam zero [] ys e = drop_zero ys
  drop-append_seam (suc n) [] ys e = absurd (omega arith)
  drop-append_seam zero (x ∷ xs) ys e = absurd (omega arith)
  drop-append_seam (suc n) (x ∷ xs) ys e = drop-append_seam n xs ys (omega arith)

  -- Short of the seam, the second list does not matter to what is taken.
  pub take-append_le : (n : ℕ) (xs ys : List A) → n ≤ length xs → take n (xs ++ ys) ≡ take n xs
  take-append_le zero [] ys h = take_zero ys
  take-append_le (suc n) [] ys h = absurd (omega arith)
  take-append_le zero (x ∷ xs) ys h = refl
  take-append_le (suc n) (x ∷ xs) ys h = ap (λ zs. x ∷ zs) (take-append_le n xs ys (omega arith))

  pub drop-append_le :
      (n : ℕ) (xs ys : List A) → n ≤ length xs → drop n (xs ++ ys) ≡ drop n xs ++ ys
  drop-append_le zero [] ys h = drop_zero ys
  drop-append_le (suc n) [] ys h = absurd (omega arith)
  drop-append_le zero (x ∷ xs) ys h = refl
  drop-append_le (suc n) (x ∷ xs) ys h = drop-append_le n xs ys (omega arith)

  pub take-append-drop : (n : ℕ) (xs : List A) → take n xs ++ drop n xs ≡ xs
  take-append-drop n [] = refl
  take-append-drop zero (x ∷ xs) = refl
  take-append-drop (suc n) (x ∷ xs) = ap (λ ys. x ∷ ys) (take-append-drop n xs)

  pub append_nil : (xs : List A) → xs ++ [] ≡ xs
  append_nil [] = refl
  append_nil (x ∷ xs) = ap (λ ys. x ∷ ys) (append_nil xs)

  pub append_assoc : (xs ys zs : List A) → (xs ++ ys) ++ zs ≡ xs ++ (ys ++ zs)
  append_assoc [] ys zs = refl
  append_assoc (x ∷ xs) ys zs = ap (λ ws. x ∷ ws) (append_assoc xs ys zs)

  pub length-take_bound : (n k : ℕ) (xs : List A) → n ≤ k → n ≤ length xs → n ≤ length (take k xs)
  length-take_bound n k [] h i = i
  length-take_bound n zero (x ∷ xs) h i = omega arith
  length-take_bound zero (suc k) (x ∷ xs) h i = omega arith
  length-take_bound (suc n) (suc k) (x ∷ xs) h i =
      omega (arith, length-take_bound n k xs (omega arith) (omega arith))

  pub length-take_max : (n : ℕ) (xs : List A) → length (take n xs) ≤ length xs
  length-take_max n [] = omega arith
  length-take_max zero (x ∷ xs) = omega arith
  length-take_max (suc n) (x ∷ xs) = omega (arith, length-take_max n xs)

  pub take-take-append :
      (n k : ℕ) (xs ys : List A) → n ≤ k → n ≤ length xs → take n (take k xs ++ ys) ≡ take n xs
  take-take-append zero k xs ys h i = rw (take_zero (take k xs ++ ys), take_zero xs) refl
  take-take-append (suc n) k [] ys h i = absurd (omega arith)
  take-take-append (suc n) zero (x ∷ xs) ys h i = absurd (omega arith)
  take-take-append (suc n) (suc k) (x ∷ xs) ys h i =
      ap (λ zs. x ∷ zs) (take-take-append n k xs ys (omega arith) (omega arith))

  pub length-take_cap : (n : ℕ) (xs : List A) → length (take n xs) ≤ n
  length-take_cap n [] = omega arith
  length-take_cap zero (x ∷ xs) = omega arith
  length-take_cap (suc n) (x ∷ xs) = omega (arith, length-take_cap n xs)
