-- ===== src/Pool/Links/Bridge.antt =====
-- Taking a node out between its neighbours, for the lists of pool.cpp.
use mathlib.Core.Path.{subst}
use redis_agent.Base.{
  ℕ, ◌≡◌, refl, sym, ◌∙◌, ◌≢◌, inl, inr, List, [], ◌∷◌, ◌++◌, Option, some, true, false, arith,
  ◌==◌, Bool-cases, if◌then◌else◌,
}
use redis_agent.Pool.Links.{Nodes, same}
use redis_agent.Pool.Links.Segment.{
  has, Distinct, first, Linked, Linked-frame, tail_ne, has-append, has_head, has_tail, has_left,
  has_right, has-first,
}
use redis_agent.Pool.Links.Laws.{not_same, tail_test}

-- The node before `c` is in the list, and the one behind it is the first of the rest.
pub prev_in :
    (m : Nodes) (before : Option ℕ) (x : ℕ) (xs : List ℕ) (c : ℕ) (ys : List ℕ) (tail : Option ℕ)
    → Linked m before (x ∷ xs ++ c ∷ ys) tail
    → (z : ℕ) × ((m c).prev ≡ some z) × (has z (x ∷ xs) ≡ true)
prev_in m before x [] c ys tail h = (x, h.2.0, ground arith)
prev_in m before x (y ∷ xs) c ys tail h =
    let (z, e, i) = prev_in m (some x) y xs c ys tail h.2 in (z, e, ground arith)

pub next_of :
    (m : Nodes) (before : Option ℕ) (xs : List ℕ) (c : ℕ) (ys : List ℕ) (tail : Option ℕ)
    → Linked m before (xs ++ c ∷ ys) tail
    → (m c).next ≡ first ys
next_of m before [] c ys tail h = h.1
next_of m before (x ∷ xs) c ys tail h = next_of m (some x) xs c ys tail h.2

-- The writes of the removal: they take `c` out between its neighbours `p` and `n`.
pub record Bridged (m w : Nodes) (c : ℕ) (p n : Option ℕ) : Type 0 where
  pub prev_next : (z : ℕ) → n ≡ some z → (w z).prev ≡ p
  pub next_prev : (z : ℕ) → p ≡ some z → (w z).next ≡ n
  pub prev_same : (z : ℕ) → (c == z) ≡ false → n ≢ some z → (w z).prev ≡ (m z).prev
  pub next_same : (z : ℕ) → (c == z) ≡ false → p ≢ some z → (w z).next ≡ (m z).next

abbrev pub Outside : Option ℕ → List ℕ → Type 0
Outside p xs = (b : ℕ) → p ≡ some b → has b xs ≡ false

pub Outside-ne : (z : ℕ) (p : Option ℕ) (xs : List ℕ) → Outside p xs → has z xs ≡ true → p ≢ some z
Outside-ne z p xs out i e = let no = out z e in cc

pub mem_ne : (z y : ℕ) (xs : List ℕ) → has y xs ≡ false → has z xs ≡ true → some y ≢ some z
mem_ne z y xs out i e =
    let at : y ≡ z = cc in let no : has z xs ≡ false = subst (λ x. has x xs ≡ false) at out in cc

module _ (m w : Nodes) (c : ℕ) (p n : Option ℕ) (bridge : Bridged m w c p n) where
  pub node_same : (z : ℕ) → (c == z) ≡ false → p ≢ some z → n ≢ some z → w z ≡ m z
  node_same z e f g = ground (arith, bridge.prev_same z e g, bridge.next_same z e f)

  rest_links :
      (ys : List ℕ) (tail : Option ℕ)
      → n ≡ first ys
      → Linked m (some c) ys tail
      → Distinct (c ∷ ys)
      → Outside p ys
      → Linked w p ys (if same (some c) tail then p else tail)
  rest_links [] tail e h d out = rw h (ground arith)
  rest_links (y ∷ ys) tail e h d out =
      let ne : same (some c) tail ≡ false =
        not_same c tail (tail_ne m (some c) y ys tail c h d.0) in
      rw ne (
        bridge.prev_next y e,
        bridge.next_same y (tail_test c y (mem_ne y c (y ∷ ys) d.0 (has_head y ys)))
              (Outside-ne y p (y ∷ ys) out (has_head y ys))
            ∙ h.1,
        Linked-frame m w (some y) ys tail h.2 λ z i.
            node_same z (tail_test c z (mem_ne z c (y ∷ ys) d.0 (has_tail z y ys i)))
              (Outside-ne z p (y ∷ ys) out (has_tail z y ys i))
              (λ f. mem_ne z y ys d.1.0 i (sym e ∙ f)),
      )

  not_node : (x : ℕ) (xs ys : List ℕ) → has x (xs ++ c ∷ ys) ≡ false → (c == x) ≡ false
  not_node x xs ys out =
      tail_test c x
        λ e. mem_ne c x (xs ++ c ∷ ys) out (has_right c xs (c ∷ ys) (has_head c ys)) (sym e)

  pub not_next : (x : ℕ) (xs ys : List ℕ) → has x (xs ++ c ∷ ys) ≡ false → n ≡ first ys → n ≢ some x
  not_next x xs ys out e f =
      mem_ne x x (xs ++ c ∷ ys) out
        (has_right x xs (c ∷ ys) (has_tail x c ys (has-first x ys (sym e ∙ f)))) refl

  pub remove_links :
      (before : Option ℕ) (xs ys : List ℕ) (tail : Option ℕ)
      → (m c).prev ≡ p
      → n ≡ first ys
      → Linked m before (xs ++ c ∷ ys) tail
      → Distinct (xs ++ c ∷ ys)
      → Outside p ys
      → Linked w before (xs ++ ys) (if same (some c) tail then p else tail)
  remove_links before [] ys tail e e' h d out =
      let at : before ≡ p = sym h.0 ∙ e in rw at (rest_links ys tail e' h.2 d out)
  remove_links before (x ∷ []) ys tail e e' h d out =
      let at : p ≡ some x = sym e ∙ h.2.0 in
      (
        bridge.prev_same x (not_node x [] ys d.0) (not_next x [] ys d.0 e') ∙ h.0,
        bridge.next_prev x at ∙ e',
        rw (← at) (rest_links ys tail e' h.2.2 d.1 out),
      )
  remove_links before (x ∷ x' ∷ xs) ys tail e e' h d out =
      let (z, at, i) = prev_in m (some x) x' xs c ys tail h.2 in
      (
        bridge.prev_same x (not_node x (x' ∷ xs) ys d.0) (not_next x (x' ∷ xs) ys d.0 e') ∙ h.0,
        bridge.next_same x (not_node x (x' ∷ xs) ys d.0) (λ f.
              mem_ne z x (x' ∷ xs ++ c ∷ ys) d.0 (has_left z (x' ∷ xs) (c ∷ ys) i)
                (sym f ∙ (sym e ∙ at)))
            ∙ h.1,
        remove_links (some x) (x' ∷ xs) ys tail e e' h.2 d.1 out,
      )

pub Distinct-remove :
    (xs : List ℕ) (c : ℕ) (ys : List ℕ) → Distinct (xs ++ c ∷ ys) → Distinct (xs ++ ys)
Distinct-remove [] c ys d = d.1
Distinct-remove (x ∷ xs) c ys d =
    (ground (arith, d.0, has-append x xs (c ∷ ys), has-append x xs ys), Distinct-remove xs c ys d.1)

pub Distinct-front :
    (xs : List ℕ) (c : ℕ) (ys : List ℕ) (z : ℕ)
    → Distinct (xs ++ c ∷ ys)
    → has z xs ≡ true
    → has z (c ∷ ys) ≡ false
Distinct-front [] c ys z d i = cc
Distinct-front (x ∷ xs) c ys z d i = elim (Bool-cases (x == z)) [
  | inl e ↦
      let at : x ≡ z = ground arith in rw (← at) (ground (arith, d.0, has-append x xs (c ∷ ys)))
  | inr e ↦ Distinct-front xs c ys z d.1 (ground arith)
]

pub first_append :
    (xs : List ℕ) (c : ℕ) (ys : List ℕ) (q : Option ℕ)
    → q ≡ first (xs ++ c ∷ ys)
    → Distinct (xs ++ c ∷ ys)
    → (if same q (some c) then first ys else q) ≡ first (xs ++ ys)
first_append [] c ys q e d = rw e (ground arith)
first_append (x ∷ xs) c ys q e d = rw (e, sym_test x c (not_head x xs c ys d.0))
  where
    not_head : (x : ℕ) (xs : List ℕ) (c : ℕ) (ys : List ℕ) → has x (xs ++ c ∷ ys) ≡ false → x ≢ c
    not_head x xs c ys out e =
        mem_ne c x (xs ++ c ∷ ys) out (has_right c xs (c ∷ ys) (has_head c ys)) (rw e)

    sym_test : (x c : ℕ) → x ≢ c → (x == c) ≡ false
    sym_test x c ne = ground arith
