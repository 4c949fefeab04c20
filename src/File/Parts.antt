-- ===== src/File/Parts.antt =====
-- The parts of a path, by `dirname` and `basename` of file.cpp.
use Prim.Native.Nat.{zero, suc}
use redis_agent.Base.{
  ℕ, ◌+◌, ◌-◌, ◌<◌, ◌≤◌, ◌≡◌, refl, ap, ◌∙◌, true, false, List, [], ◌∷◌, ◌++◌, All, arith, ◌==◌,
  length, length-append, append_assoc, take-append_seam, drop-append_seam,
}
use redis_agent.Log.Buffer.{get_or}
use redis_agent.Connection.{c_string}
use redis_agent.File.{slash, set_char, skip_slashes, skip_letters, last_slash, dirname, basename}

get_or-append : (xs ys : List ℕ) (i : ℕ) → get_or (xs ++ ys) (length xs + i) ≡ get_or ys i
get_or-append [] ys i = let e : 0 + i ≡ i = omega arith in rw e refl
get_or-append (x ∷ xs) ys i =
    let e : suc (length xs) + i ≡ suc (length xs + i) = omega arith in rw e (get_or-append xs ys i)

get_or-All : (P : ℕ → Type 0) (xs : List ℕ) (i : ℕ) → All P xs → i < length xs → P (get_or xs i)
get_or-All P [] i h l = absurd (omega arith)
get_or-All P (x ∷ xs) zero h l = h.0
get_or-All P (x ∷ xs) (suc i) h l = get_or-All P xs i h.1 (omega arith)

get_or-front : (xs ys : List ℕ) (i : ℕ) → i < length xs → get_or (xs ++ ys) i ≡ get_or xs i
get_or-front [] ys i h = absurd (omega arith)
get_or-front (x ∷ xs) ys zero h = refl
get_or-front (x ∷ xs) ys (suc i) h = get_or-front xs ys i (omega arith)

abbrev pub slashes : ℕ → List ℕ
slashes zero = []
slashes (suc k) = slash ∷ slashes k

get_or-slashes : (k i : ℕ) → i < k → get_or (slashes k) i ≡ slash
get_or-slashes zero i h = absurd (omega arith)
get_or-slashes (suc k) zero h = refl
get_or-slashes (suc k) (suc i) h = get_or-slashes k i (omega arith)

length-slashes : (k : ℕ) → length (slashes k) ≡ k
length-slashes zero = refl
length-slashes (suc k) = ap suc (length-slashes k)

cut_at :
    (xs : List ℕ) (c : ℕ) (cs : List ℕ)
    → All (λ d. (d == 0) ≡ false) xs
    → c_string (set_char (xs ++ (c ∷ cs)) (length xs) 0) ≡ xs
cut_at [] c cs h = refl
cut_at (x ∷ xs) c cs h = rw (h.0) (ap (λ z. x ∷ z) (cut_at xs c cs h.1))

-- A directory with its slash, a name without one, and `k` more slashes.
abbrev pub path : List ℕ → List ℕ → ℕ → List ℕ
path front name k = (front ++ (slash ∷ [])) ++ (name ++ slashes k)

abbrev pub Letters : List ℕ → Type 0
Letters name = All (λ c. (c == slash) ≡ false) name

module _ (front : List ℕ) (c : ℕ) (cs : List ℕ) (k : ℕ) (letters : Letters (c ∷ cs)) where
  abbrev name : List ℕ
  name = c ∷ cs

  abbrev whole : List ℕ
  whole = path front name k

  abbrev start : ℕ
  start = length (front ++ (slash ∷ []))

  letter_at : (i : ℕ) → i < length name → (get_or whole (start + i) == slash) ≡ false
  letter_at i h =
      let at =
        get_or-append (front ++ (slash ∷ [])) (name ++ slashes k) i
        ∙ get_or-front name (slashes k) i h in
      rw at (get_or-All (λ c. (c == slash) ≡ false) name i letters h)

  slash_at : (j : ℕ) → j < k → get_or whole (start + (length name + j)) ≡ slash
  slash_at j h =
      get_or-append (front ++ (slash ∷ [])) (name ++ slashes k) (length name + j)
      ∙ get_or-append name (slashes k) j
      ∙ get_or-slashes k j h

  slash_before : get_or whole (length front) ≡ slash
  slash_before =
      let at : length front ≡ length front + 0 = omega arith in
      rw (at, append_assoc front (slash ∷ []) (name ++ slashes k))
        (get_or-append front (slash ∷ (name ++ slashes k)) 0)

  skip_slashes-path :
      (j : ℕ) → j ≤ k → skip_slashes whole (start + (length name + j)) ≡ start + length name
  unfolding skip_slashes
  skip_slashes-path zero h =
      let at : start + (length name + 0) ≡ suc (start + length cs) = omega arith in
      let last : (get_or whole (start + length cs) == slash) ≡ false =
        letter_at (length cs) (omega arith) in
      let same : suc (start + length cs) ≡ start + length name = omega arith in rw (at, last) same
  skip_slashes-path (suc j) h =
      let at : start + (length name + suc j) ≡ suc (start + (length name + j)) = omega arith in
      let here = slash_at j (omega arith) in rw (at, here) (skip_slashes-path j (omega arith))

  skip_letters-path : (i : ℕ) → i ≤ length name → skip_letters whole (start + i) ≡ start
  unfolding skip_letters
  skip_letters-path zero h =
      let size = length-append front (slash ∷ []) in
      let at : start + 0 ≡ suc (length front) = omega (arith, size) in
      let same : suc (length front) ≡ start = omega (arith, size) in rw (at, slash_before) same
  skip_letters-path (suc i) h =
      let at : start + suc i ≡ suc (start + i) = omega arith in
      let here = letter_at i (omega arith) in rw (at, here) (skip_letters-path i (omega arith))

  size_whole : length whole ≡ start + (length name + k)
  size_whole =
      length-append (front ++ (slash ∷ [])) (name ++ slashes k)
      ∙ ap (λ z. start + z)
          (length-append name (slashes k) ∙ ap (λ z. length name + z) (length-slashes k))

  ends_at : skip_slashes whole (length whole) ≡ start + length name
  ends_at = ap (skip_slashes whole) size_whole ∙ skip_slashes-path k (omega arith)

  begins_at : skip_letters whole (skip_slashes whole (length whole)) ≡ start
  begins_at = ap (skip_letters whole) ends_at ∙ skip_letters-path (length name) (omega arith)

  -- The last part of a path is its name, whatever slashes follow it.
  pub basename-path : basename (path front (c ∷ cs) k) ≡ c ∷ cs
  unfolding basename
  basename-path =
      let some_letters : (start + length name == 0) ≡ false = ground arith in
      let size : start + length name - start ≡ length name = omega arith in
      let rest = drop-append_seam start (front ++ (slash ∷ [])) (name ++ slashes k) refl in
      let at = skip_letters-path (length name) (omega arith) in
      rw (ends_at, some_letters, at, size, rest)
        (take-append_seam (length name) name (slashes k) refl)

  -- With its slash kept, the directory is what stands before the name.
  pub dirname-path :
      All (λ d. (d == 0) ≡ false) (front ++ (slash ∷ []))
      → c_string (dirname (path front (c ∷ cs) k) true) ≡ front ++ (slash ∷ [])
  unfolding dirname last_slash
  dirname-path no_nul =
      let some_letters : (start + length name == 0) ≡ false = ground arith in
      let size = length-append front (slash ∷ []) in
      let some_front : (start == 0) ≡ false = ground (arith, size) in
      let at = skip_letters-path (length name) (omega arith) in
      rw (ends_at, some_letters, at, some_front)
        (cut_at (front ++ (slash ∷ [])) c (cs ++ slashes k) no_nul)

  -- A path in a directory, with any number of slashes behind it, has the two parts that it was put
  -- together from, when the directory has no NUL and the name, which is not empty, no slash.
  pub dirname-basename :
      All (λ d. (d == 0) ≡ false) (front ++ (slash ∷ []))
      → (c_string (dirname (path front (c ∷ cs) k) true) ≡ front ++ (slash ∷ []))
        × (basename (path front (c ∷ cs) k) ≡ c ∷ cs)
  dirname-basename no_nul = (dirname-path no_nul, basename-path)
