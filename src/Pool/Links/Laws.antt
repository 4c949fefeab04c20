-- ===== src/Pool/Links/Laws.antt =====
-- The list operations against plain lists.
use mathlib.Core.Bool.{false≢true}
use mathlib.Core.Path.{subst}
use redis_agent.Base.{
  ℕ, ◌≡◌, refl, sym, ◌∙◌, ◌≢◌, inl, inr, List, [], ◌∷◌, ◌++◌, Option, none, some, true, false,
  arith, ◌==◌, Bool-cases, if◌then◌else◌,
}
use redis_agent.Base.Int.{pos, ◌+ℤ◌, ◌-ℤ◌}
use redis_agent.Pool.Links.{Nodes, Queue, blank, same, write, set_prev, set_next, get, put}
use redis_agent.Pool.Links.Segment.{
  has, Distinct, Linked, IsQueue, Linked-frame, Linked-tail, tail_ne, has-append,
}

-- Nodes outside the list and outside `c` are left as they were.
abbrev pub SameOutside : List ℕ → Nodes → Nodes → Type 0
SameOutside xs m w = (c : ℕ) → has c xs ≡ false → w c ≡ m c

pub get-nil : (m : Nodes) (q : Queue) → IsQueue m q [] → get m q ≡ (none, m, q)
unfolding get
get-nil m q is = ground (arith, is.head)

pub not_same : (c : ℕ) (p : Option ℕ) → p ≢ some c → same (some c) p ≡ false
not_same c none h = refl
not_same c (some p) h = elim (Bool-cases (c == p)) [
  | inl e ↦ let at : c ≡ p = ground arith in absurd (h (rw at))
  | inr e ↦ e
]

pub record Taken (m : Nodes) (q : Queue) (x : ℕ) (xs : List ℕ) (r : Option ℕ × Nodes × Queue)
    : Type 0 where
  pub found : r.0 ≡ some x
  pub rest : IsQueue r.1 r.2 xs
  pub alone : r.1 x ≡ blank
  pub count : r.2.count ≡ q.count -ℤ pos 1
  pub frame : SameOutside (x ∷ xs) m r.1

get-one : (m : Nodes) (q : Queue) (x : ℕ) → IsQueue m q (x ∷ []) → Taken m q x [] (get m q)
unfolding get
get-one m q x is =
    rw (is.head, get)
      (record {
        found = refl;
        rest = record { head = is.links.1; links = rw (is.links.2) (ground arith); distinct = tt };
        alone = ground arith;
        count = refl;
        frame = λ c e. ground (arith, is.links);
      })

get-more :
    (m : Nodes) (q : Queue) (x y : ℕ) (ys : List ℕ)
    → IsQueue m q (x ∷ y ∷ ys)
    → Taken m q x (y ∷ ys) (get m q)
unfolding get
get-more m q x y ys is =
    let kept : (if same (some x) q.tail then none else q.tail) ≡ q.tail =
      rw (not_same x q.tail (tail_ne m (some x) y ys q.tail x is.links.2 is.distinct.0)) in
    rw (is.head, get, is.links.1)
      (record {
        found = refl;
        rest = record {
          head = refl;
          links =
              rw (is.head, kept)
                (
                  ground arith,
                  ground arith,
                  Linked-frame m _ (some y) ys q.tail is.links.2.2 (λ c e. ground arith),
                );
          distinct = is.distinct.1;
        };
        alone = ground arith;
        count = refl;
        frame = λ c e. ground arith;
      })

-- On a list that is not empty, `_pool_connect_queue_get` returns the oldest node, leaves the others
-- in their order, and cuts the links of the one it returns.
pub get-cons :
    (m : Nodes) (q : Queue) (x : ℕ) (xs : List ℕ) → IsQueue m q (x ∷ xs) → Taken m q x xs (get m q)
get-cons m q x [] is = get-one m q x is
get-cons m q x (y ∷ ys) is = get-more m q x y ys is

-- Appending at the pointer level.
pub append_links :
    (m w : Nodes) (before : Option ℕ) (x : ℕ) (xs : List ℕ) (tail : Option ℕ) (c : ℕ)
    → Linked m before (x ∷ xs) tail
    → Distinct (x ∷ xs)
    → has c (x ∷ xs) ≡ false
    → (w c ≡ record { next = none; prev = tail })
    → ((z : ℕ) → tail ≡ some z → w z ≡ record { next = some c; prev = (m z).prev })
    → ((z : ℕ) → has z (x ∷ xs) ≡ true → tail ≢ some z → w z ≡ m z)
    → Linked w before (x ∷ xs ++ c ∷ []) (some c)
append_links m w before x [] tail c h d out new last keep =
    let at = last x h.2 in ground (arith, new)
append_links m w before x (y ∷ ys) tail c h d out new last keep =
    let at = keep x (ground arith) (tail_ne m (some x) y ys tail x h.2 d.0) in
    (
      ground arith,
      ground arith,
      append_links m w (some x) y ys tail c h.2 d.1 (ground arith) new last
          (λ z i e. keep z (ground arith) e),
    )

pub has_ne : (c z : ℕ) (xs : List ℕ) → has c xs ≡ false → has z xs ≡ true → (c == z) ≡ false
has_ne c z xs out i = elim (Bool-cases (c == z)) [
  | inl e ↦
      let at : c ≡ z = ground arith in
      absurd (false≢true (sym out ∙ subst (λ y. has y xs ≡ true) (sym at) i))
  | inr e ↦ e
]

pub tail_test : (t z : ℕ) → some t ≢ some z → (t == z) ≡ false
tail_test t z h = elim (Bool-cases (t == z)) [
  | inl e ↦ let at : t ≡ z = ground arith in absurd (h (rw at))
  | inr e ↦ e
]

pub not_in : (t z : ℕ) (xs : List ℕ) → has t xs ≡ true → has z xs ≡ false → (t == z) ≡ false
not_in t z xs i out =
    tail_test t z
      λ e. let same : t ≡ z = cc in false≢true (sym out ∙ subst (λ y. has y xs ≡ true) same i)

pub Distinct-append :
    (xs : List ℕ) (c : ℕ) → Distinct xs → has c xs ≡ false → Distinct (xs ++ c ∷ [])
Distinct-append [] c d out = ground arith
Distinct-append (x ∷ xs) c d out =
    (ground (arith, has-append x xs (c ∷ [])), Distinct-append xs c d.1 (ground arith))

-- The nodes after a put behind the node `t`.
put_nodes :
    (m : Nodes) (t c : ℕ)
    → (c == t) ≡ false
    → let w = set_prev (set_next (write m c blank) (some t) (some c)) (some c) (some t) in
      (w c ≡ record { next = none; prev = some t })
      × (w t ≡ record { next = some c; prev = (m t).prev })
      × ((z : ℕ) → (c == z) ≡ false → (t == z) ≡ false → w z ≡ m z)
put_nodes m t c ne = (ground arith, ground arith, λ z e f. ground arith)

pub record Appended (m : Nodes) (q : Queue) (c : ℕ) (xs : List ℕ) (r : Nodes × Queue) : Type 0 where
  pub whole : IsQueue r.0 r.1 (xs ++ c ∷ [])
  pub count : r.1.count ≡ q.count +ℤ pos 1
  pub frame : SameOutside (c ∷ xs) m r.0

-- `_pool_connect_queue_put` of a node that is not in the list adds it at the end.
pub put-append :
    (m : Nodes) (q : Queue) (xs : List ℕ) (c : ℕ)
    → IsQueue m q xs
    → has c xs ≡ false
    → Appended m q c xs (put m q c)
unfolding put
put-append m q [] c is out =
    simp (is.head, put)
      (record {
        whole = record { head = refl; links = ground arith; distinct = ground arith };
        count = refl;
        frame = λ z e. ground arith;
      })
put-append m q (x ∷ xs) c is out =
    let (t, at, i) = Linked-tail m none x xs q.tail is.links in
    let ne : (c == t) ≡ false = has_ne c t (x ∷ xs) out i in
    let w = set_prev (set_next (write m c blank) q.tail (some c)) (some c) q.tail in
    let (new, last, other) = put_nodes m t c ne in
    let new' : w c ≡ record { next = none; prev = q.tail } = rw at new in
    let last' : w t ≡ record { next = some c; prev = (m t).prev } = rw at last in
    let other' : (z : ℕ) → (c == z) ≡ false → (t == z) ≡ false → w z ≡ m z = rw at other in
    simp (is.head, put)
      (record {
        whole = record {
          head = refl;
          links =
              append_links m w none x xs q.tail c is.links is.distinct out new'
                (λ z e. let same : t ≡ z = cc in rw (← same) last')
                (λ z j e. other' z (has_ne c z (x ∷ xs) out j) (tail_test t z (λ h. e (at ∙ h))));
          distinct = Distinct-append (x ∷ xs) c is.distinct out;
        };
        count = refl;
        frame = λ z e. other' z (ground arith) (not_in t z (x ∷ xs) i (ground arith));
      })
