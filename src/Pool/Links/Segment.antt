-- ===== src/Pool/Links/Segment.antt =====
-- What a doubly linked list stands for, and when it survives a write.
use mathlib.Core.Bool.{false≢true}
use mathlib.Core.Path.{subst}
use redis_agent.Base.{
  ℕ, ◌≡◌, refl, sym, ◌∙◌, ◌≢◌, List, [], ◌∷◌, ◌++◌, Option, none, some, Bool, true, false, ◌||◌,
  arith, ◌==◌,
}
use redis_agent.Pool.Links.{Nodes, Queue}

abbrev pub has : ℕ → List ℕ → Bool
has c [] = false
has c (x ∷ xs) = (x == c) || has c xs

abbrev pub Distinct : List ℕ → Type 0
Distinct [] = Unit
Distinct (x ∷ xs) = (has x xs ≡ false) × Distinct xs

abbrev pub first : List ℕ → Option ℕ
first [] = none
first (x ∷ xs) = some x

-- `xs` is linked both ways, entered from `before`, and its last node is `tail`.
abbrev pub Linked : Nodes → Option ℕ → List ℕ → Option ℕ → Type 0
Linked m before [] tail = tail ≡ before
Linked m before (x ∷ xs) tail =
    ((m x).prev ≡ before) × ((m x).next ≡ first xs) × Linked m (some x) xs tail

-- The list in memory: its ends, its links, and no node twice.
pub record IsQueue (m : Nodes) (q : Queue) (xs : List ℕ) : Type 0 where
  pub head : q.head ≡ first xs
  pub links : Linked m none xs q.tail
  pub distinct : Distinct xs

pub Linked-frame :
    (m w : Nodes) (before : Option ℕ) (xs : List ℕ) (tail : Option ℕ)
    → Linked m before xs tail
    → ((c : ℕ) → has c xs ≡ true → w c ≡ m c)
    → Linked w before xs tail
Linked-frame m w before [] tail h same = h
Linked-frame m w before (x ∷ xs) tail h same =
    let at : w x ≡ m x = ground (arith, same x) in
    (
      ground arith,
      ground arith,
      Linked-frame m w (some x) xs tail h.2 (λ c e. ground (arith, same c)),
    )

-- The last node of a list that is not empty is one of its nodes.
pub Linked-tail :
    (m : Nodes) (before : Option ℕ) (x : ℕ) (xs : List ℕ) (tail : Option ℕ)
    → Linked m before (x ∷ xs) tail
    → (z : ℕ) × (tail ≡ some z) × (has z (x ∷ xs) ≡ true)
Linked-tail m before x [] tail h = (x, h.2, ground arith)
Linked-tail m before x (y ∷ ys) tail h =
    let (z, e, i) = Linked-tail m (some x) y ys tail h.2 in (z, e, ground arith)

pub has-append : (c : ℕ) (xs ys : List ℕ) → has c (xs ++ ys) ≡ (has c xs || has c ys)
has-append c [] ys = refl
has-append c (x ∷ xs) ys = ground (arith, has-append c xs ys)

-- A node outside the list is not its last.
pub tail_ne :
    (m : Nodes) (before : Option ℕ) (x : ℕ) (xs : List ℕ) (tail : Option ℕ) (c : ℕ)
    → Linked m before (x ∷ xs) tail
    → has c (x ∷ xs) ≡ false
    → tail ≢ some c
tail_ne m before x xs tail c h out e =
    let (z, at, i) = Linked-tail m before x xs tail h in
    let same : z ≡ c = cc in false≢true (sym out ∙ subst (λ y. has y (x ∷ xs) ≡ true) same i)

pub has_head : (x : ℕ) (xs : List ℕ) → has x (x ∷ xs) ≡ true
has_head x xs = ground arith

pub has_tail : (z x : ℕ) (xs : List ℕ) → has z xs ≡ true → has z (x ∷ xs) ≡ true
has_tail z x xs i = ground arith

pub has_left : (z : ℕ) (xs ys : List ℕ) → has z xs ≡ true → has z (xs ++ ys) ≡ true
has_left z xs ys i = rw (has-append, i)

pub has_right : (z : ℕ) (xs ys : List ℕ) → has z ys ≡ true → has z (xs ++ ys) ≡ true
has_right z xs ys i = rw (has-append, i) (ground arith)

pub has-first : (z : ℕ) (xs : List ℕ) → first xs ≡ some z → has z xs ≡ true
has-first z [] e = cc
has-first z (x ∷ xs) e = let at : x ≡ z = cc in rw at (has_head z xs)
