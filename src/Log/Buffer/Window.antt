-- ===== src/Log/Buffer/Window.antt =====
-- The bytes that a ring of log.cpp holds, as a list: positions count on past the end of the buffer and
-- are brought back into it one by one.
use Prim.Native.Nat.{zero, suc}
use redis_agent.Base.{
  ℕ, ◌+◌, ◌-◌, ◌<◌, ◌≤◌, ◌≡◌, refl, ap, sym, ◌∙◌, List, [], ◌∷◌, ◌++◌, ltb, if◌then◌else◌, length,
  arith, take, drop, inr, ◌⊎◌, length-drop, length-take_le, true, false,
}
use native.Mathlib.Decide.{dec_lt}
use redis_agent.Log.Buffer.{memcpy, bytes, get_or, store}

module _ (size : ℕ) where
  abbrev pub wrap : ℕ → ℕ
  wrap i = if ltb i size then i else i - size

  abbrev pub window : (ℕ → ℕ) → ℕ → ℕ → List ℕ
  window m r zero = []
  window m r (suc n) = m (wrap r) ∷ window m (suc r) n

  pub window_add : (m : ℕ → ℕ) (r n k : ℕ) → window m r (n + k) ≡ window m r n ++ window m (r + n) k
  window_add m r zero k =
      let none : 0 + k ≡ k = omega arith in let at : r + 0 ≡ r = omega arith in rw (none, at) refl
  window_add m r (suc n) k =
      let one : suc n + k ≡ suc (n + k) = omega arith in
      let shift : r + suc n ≡ suc r + n = omega arith in
      rw (one, shift) (ap (λ z. m (wrap r) ∷ z) (window_add m (suc r) n k))

  pub length-window : (m : ℕ → ℕ) (r n : ℕ) → length (window m r n) ≡ n
  length-window m r zero = refl
  length-window m r (suc n) = ap suc (length-window m (suc r) n)

  -- A window does not see the writes outside it.
  pub window_same :
      (m m' : ℕ → ℕ) (r n : ℕ)
      → ((j : ℕ) → r ≤ j → j < r + n → m' (wrap j) ≡ m (wrap j))
      → window m' r n ≡ window m r n
  window_same m m' r zero h = refl
  window_same m m' r (suc n) h =
      let rest = window_same m m' (suc r) n (λ j a b. h j (omega arith) (omega arith)) in
      let now = h r (omega arith) (omega arith) in rw (now, rest) refl

  pub window_list :
      (m : ℕ → ℕ) (r : ℕ) (xs : List ℕ)
      → ((j : ℕ) → j < length xs → m (wrap (r + j)) ≡ get_or xs j)
      → window m r (length xs) ≡ xs
  window_list m r [] h = refl
  window_list m r (x ∷ xs) h =
      let at : r + 0 ≡ r = omega arith in
      let now : m (wrap r) ≡ x = ap (λ z. m (wrap z)) (sym at) ∙ h 0 (omega arith) in
      let rest =
        window_list m (suc r) xs
          (λ j b. ap (λ z. m (wrap z)) (omega arith) ∙ h (suc j) (omega arith)) in
      rw (now, rest) refl

  pub window-bytes : (m : ℕ → ℕ) (r n : ℕ) → r + n ≤ size → window m r n ≡ bytes m r n
  window-bytes m r zero h = refl
  window-bytes m r (suc n) h =
      let at : wrap r ≡ r = ground arith in rw (at, window-bytes m (suc r) n (omega arith)) refl

  -- The part past the end of the buffer.
  pub window_over : (m : ℕ → ℕ) (r n : ℕ) → window m (size + r) n ≡ bytes m r n
  window_over m r zero = refl
  window_over m r (suc n) =
      let at : wrap (size + r) ≡ r = ground arith in
      let shift : suc (size + r) ≡ size + suc r = omega arith in
      rw (at, shift, window_over m (suc r) n) refl

get_or-take : (n j : ℕ) (xs : List ℕ) → j < n → get_or (take n xs) j ≡ get_or xs j
get_or-take n j [] h = refl
get_or-take zero j (x ∷ xs) h = absurd (omega arith)
get_or-take (suc n) zero (x ∷ xs) h = refl
get_or-take (suc n) (suc j) (x ∷ xs) h = get_or-take n j xs (omega arith)

get_or-drop : (n j : ℕ) (xs : List ℕ) → get_or (drop n xs) j ≡ get_or xs (n + j)
get_or-drop n j [] = refl
get_or-drop zero j (x ∷ xs) = let at : 0 + j ≡ j = omega arith in rw at refl
get_or-drop (suc n) j (x ∷ xs) =
    let at : suc n + j ≡ suc (n + j) = omega arith in rw at (get_or-drop n j xs)

memcpy-in :
    (m : ℕ → ℕ) (off i : ℕ) (xs : List ℕ)
    → off ≤ i
    → i < off + length xs
    → memcpy m off xs i ≡ get_or xs (i - off)
memcpy-in m off i xs a b = ground arith

memcpy-out :
    (m : ℕ → ℕ) (off i : ℕ) (xs : List ℕ)
    → (i < off) ⊎ (off + length xs ≤ i)
    → memcpy m off xs i ≡ m i
memcpy-out m off i xs h = ground arith

module _ (size : ℕ) where
  store_once :
      (m : ℕ → ℕ) (off i : ℕ) (line : List ℕ)
      → off + length line < size
      → store size m off line i ≡ memcpy m off line i
  store_once m off i line h =
      let e : ltb (off + length line) size ≡ true = ground arith in rw e refl

  store_twice :
      (m : ℕ → ℕ) (off i : ℕ) (line : List ℕ)
      → size ≤ off + length line
      → store size m off line i
        ≡ memcpy (memcpy m off (take (size - off) line)) 0 (drop (size - off) line) i
  store_twice m off i line h =
      let e : ltb (off + length line) size ≡ false = ground arith in rw e refl

  -- What the stored line left at a position of the buffer.
  pub store-at :
      (m : ℕ → ℕ) (off j : ℕ) (line : List ℕ)
      → off < size
      → length line < size
      → j < length line
      → store size m off line (wrap size (off + j)) ≡ get_or line j
  store-at m off j line ho hl hj = elim (dec_lt (off + length line) size) [
    | yes h ↦
        (let at : wrap size (off + j) ≡ off + j = ground arith in
          let same : off + j - off ≡ j = omega arith in
          rw at (
            store_once m off (off + j) line h
            ∙ memcpy-in m off (off + j) line (omega arith) (omega arith)
            ∙ ap (get_or line) same))
    | no h ↦ elim (dec_lt (off + j) size) [
      | yes b ↦
          (let at : wrap size (off + j) ≡ off + j = ground arith in
            let same : off + j - off ≡ j = omega arith in
            let dropped = length-drop (size - off) line in
            let taken = length-take_le (size - off) line (omega arith) in
            rw at (
              store_twice m off (off + j) line (omega arith)
              ∙ memcpy-out (memcpy m off (take (size - off) line)) 0 (off + j)
                  (drop (size - off) line) (inr (omega (arith, dropped)))
              ∙ memcpy-in m off (off + j) (take (size - off) line) (omega arith)
                  (omega (arith, taken))
              ∙ ap (get_or (take (size - off) line)) same
              ∙ get_or-take (size - off) j line (omega arith)))
      | no b ↦
          (let at : wrap size (off + j) ≡ off + j - size = ground arith in
            let same : (size - off) + (off + j - size - 0) ≡ j = omega arith in
            let dropped = length-drop (size - off) line in
            rw at (
              store_twice m off (off + j - size) line (omega arith)
              ∙ memcpy-in (memcpy m off (take (size - off) line)) 0 (off + j - size)
                  (drop (size - off) line) (omega arith) (omega (arith, dropped))
              ∙ get_or-drop (size - off) (off + j - size - 0) line
              ∙ ap (get_or line) same))
    ]
  ]

  -- Where the line is not, nothing changes.
  pub store-outside :
      (m : ℕ → ℕ) (off i : ℕ) (line : List ℕ)
      → off < size
      → i < size
      → ((i < off) × (off + length line ≤ i + size)) ⊎ (off + length line ≤ i)
      → store size m off line i ≡ m i
  store-outside m off i line ho hi hs = elim (dec_lt (off + length line) size) [
    | yes h ↦ store_once m off i line h ∙ memcpy-out m off i line (ground arith)
    | no h ↦
        (let dropped = length-drop (size - off) line in
          let taken = length-take_le (size - off) line (omega arith) in
          store_twice m off i line (omega arith)
          ∙ memcpy-out (memcpy m off (take (size - off) line)) 0 i (drop (size - off) line)
              (inr (ground (arith, dropped)))
          ∙ memcpy-out m off i (take (size - off) line) (ground (arith, taken)))
  ]
