-- ===== src/File/Directories/Slashes.antt =====
-- The slashes of a path and of its parent, by `dirname` of file.cpp.
use Prim.Native.Nat.{zero, suc}
use redis_agent.Base.{
  ℕ, ◌+◌, ◌<◌, ◌≤◌, ◌≡◌, refl, sym, ◌⊎◌, inl, inr, true, false, Bool-cases, List, [], ◌∷◌, ◌==◌,
  if◌then◌else◌, length, arith,
}
use redis_agent.Log.Buffer.{get_or}
use redis_agent.Connection.{c_string}
use redis_agent.File.{
  slash, set_char, skip_slashes, skip_letters, strip_slashes, last_slash, dirname,
}

-- The slashes of a text.
abbrev pub slash_count : List ℕ → ℕ
slash_count [] = 0
slash_count (x ∷ xs) = (if x == slash then 1 else 0) + slash_count xs

set_char-slash_count : (s : List ℕ) (i : ℕ) → slash_count (set_char s i 0) ≤ slash_count s
set_char-slash_count [] i = omega arith
set_char-slash_count (x ∷ xs) zero = ground arith
set_char-slash_count (x ∷ xs) (suc i) = let rest = set_char-slash_count xs i in omega (arith, rest)

set_slash-slash_count :
    (s : List ℕ) (i : ℕ)
    → (get_or s i == slash) ≡ true
    → slash_count (set_char s i 0) < slash_count s
set_slash-slash_count [] i e = ground arith
set_slash-slash_count (x ∷ xs) zero e = rw e (omega arith)
set_slash-slash_count (x ∷ xs) (suc i) e =
    let rest = set_slash-slash_count xs i e in omega (arith, rest)

skip_letters-slash :
    (s : List ℕ) (n m : ℕ) → skip_letters s n ≡ suc m → (get_or s m == slash) ≡ true
unfolding skip_letters
skip_letters-slash s zero m e = ground arith
skip_letters-slash s (suc n) m e = elim (Bool-cases (get_or s n == slash)) [
  | inl y ↦ let at : n ≡ m = ground arith in rw (sym at) y
  | inr y ↦ skip_letters-slash s n m (ground arith)
]

strip_slashes-slash :
    (s : List ℕ) (n : ℕ)
    → (strip_slashes s n ≡ n) ⊎ ((get_or s (strip_slashes s n) == slash) ≡ true)
unfolding strip_slashes
strip_slashes-slash s zero = inl refl
strip_slashes-slash s (suc zero) = inl refl
strip_slashes-slash s (suc (suc n)) = elim (Bool-cases (get_or s (suc n) == slash)) [
  | inl y ↦ inr (elim (strip_slashes-slash s (suc n)) [ inl e ↦ rw (y, e) y | inr e ↦ rw y e ])
  | inr y ↦ inl (rw y refl)
]

get_or-set_char : (s : List ℕ) (i j c : ℕ) → j < i → get_or (set_char s i c) j ≡ get_or s j
get_or-set_char [] i j c h = refl
get_or-set_char (x ∷ xs) zero j c h = absurd (omega arith)
get_or-set_char (x ∷ xs) (suc i) zero c h = refl
get_or-set_char (x ∷ xs) (suc i) (suc j) c h = get_or-set_char xs i j c (omega arith)

-- A path that has a slash further on loses one.
last_slash-slash_count :
    (s : List ℕ) (j : ℕ)
    → (get_or s (suc j) == slash) ≡ true
    → slash_count (last_slash false (set_char s (suc (suc j)) 0) (suc (suc j))) < slash_count s
unfolding last_slash strip_slashes
last_slash-slash_count s j e =
    let t = set_char s (suc (suc j)) 0 in
    let same : (get_or t (suc j) == slash) ≡ true =
      rw (get_or-set_char s (suc (suc j)) (suc j) 0 (omega arith)) e in
    let found : (get_or t (strip_slashes t (suc j)) == slash) ≡ true =
      elim (strip_slashes-slash t (suc j)) [ inl i ↦ rw i same | inr i ↦ i ] in
    let less = set_slash-slash_count t (strip_slashes t (suc j)) found in
    let here = set_char-slash_count s (suc (suc j)) in rw same (omega (arith, less, here))

-- The root directory, reached with its name alone.
last_slash-root :
    (s : List ℕ)
    → (get_or s 0 == slash) ≡ true
    → c_string (last_slash false (set_char s 1 0) 1) ≡ slash ∷ []
unfolding last_slash strip_slashes
last_slash-root [] e = ground arith
last_slash-root (x ∷ []) e = let at : x ≡ slash = ground arith in rw at refl
last_slash-root (x ∷ y ∷ ys) e = let at : x ≡ slash = ground arith in rw at refl

-- The parent is the root or the current directory, or has fewer slashes.
pub dirname-parent :
    (path : List ℕ)
    → let parent = dirname path false in
      ((c_string parent ≡ slash ∷ []) ⊎ (c_string parent ≡ 46 ∷ []))
      ⊎ (slash_count parent < slash_count path)
unfolding dirname
dirname-parent path =
    go (skip_slashes path (length path)) (skip_letters path (skip_slashes path (length path))) refl
  where
    go :
        (n m : ℕ)
        → skip_letters path n ≡ m
        → let parent =
            if n == 0
            then slash ∷ []
            else (if m == 0
                then last_slash false (46 ∷ slash ∷ []) 2
                else last_slash false (set_char path m 0) m) in
          ((c_string parent ≡ slash ∷ []) ⊎ (c_string parent ≡ 46 ∷ []))
          ⊎ (slash_count parent < slash_count path)
    go zero m e = inl (inl refl)
    go (suc n) zero e =
        let some_letter : (suc n == 0) ≡ false = ground arith in
        rw some_letter (inl (inr (unfold last_slash in unfold strip_slashes in refl)))
    go (suc n) (suc zero) e =
        let some_letter : (suc n == 0) ≡ false = ground arith in
        let root = last_slash-root path (skip_letters-slash path (suc n) 0 e) in
        rw some_letter (inl (inl root))
    go (suc n) (suc (suc m)) e =
        let some_letter : (suc n == 0) ≡ false = ground arith in
        let some_slash : (suc (suc m) == 0) ≡ false = ground arith in
        rw (some_letter, some_slash)
          (inr (last_slash-slash_count path m (skip_letters-slash path (suc n) (suc m) e)))
