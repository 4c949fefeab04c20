-- ===== src/Memory/Insert.antt =====
-- The blocks of a request of mem.cpp stay one list.
use mathlib.Core.Path.{subst}
use redis_agent.Base.{
  ℕ, ◌≡◌, refl, ◌≢◌, ap, sym, ◌∙◌, List, [], ◌∷◌, ◌++◌, Option, none, some, true, false, arith,
  ◌==◌,
}
use redis_agent.Pool.Links.{Nodes, set_prev}
use redis_agent.Pool.Links.Segment.{
  has, Distinct, first, Linked, Linked-frame, has-append, has_head, has_tail, has_right, has-first,
}
use redis_agent.Pool.Links.Remove.{Distinct-behind}
use redis_agent.Pool.Links.Bridge.{next_of}
use redis_agent.Pool.Links.Laws.{has_ne, tail_test}
use redis_agent.Memory.{Heap, link_new, link_behind, emalloc, e_get_data}

-- The blocks `xs` are linked both ways, in this order, and no two are the same.
pub record IsBlocks (h : Heap) (xs : List ℕ) : Type 0 where
  pub tail : Option ℕ
  pub links : Linked h.nodes none xs tail
  pub distinct : Distinct xs

has_out : (c x : ℕ) (xs : List ℕ) → has c (x ∷ xs) ≡ false → has c xs ≡ false
has_out c x xs h = ground arith

-- What the writes of the insertion leave.
record Inserted (m w : Nodes) (base p : ℕ) : Type 0 where
  own_next : (w p).next ≡ (m base).next
  own_prev : (w p).prev ≡ some base
  base_next : (w base).next ≡ some p
  base_prev : (w base).prev ≡ (m base).prev
  after_prev : (z : ℕ) → (m base).next ≡ some z → (w z).prev ≡ some p
  after_next : (z : ℕ) → (m base).next ≡ some z → (w z).next ≡ (m z).next
  same : (z : ℕ) → (base == z) ≡ false → (p == z) ≡ false → (m base).next ≢ some z → w z ≡ m z

link_new-next :
    (m : Nodes) (base p : ℕ) → (p == base) ≡ false → (link_new base p m p).next ≡ (m base).next
link_new-next m base p ne = ground arith

behind-Inserted :
    (m : Nodes) (base p : ℕ) (n : Option ℕ)
    → (m base).next ≡ n
    → (p == base) ≡ false
    → n ≢ some base
    → n ≢ some p
    → Inserted m (set_prev (link_new base p m) n (some p)) base p
behind-Inserted m base p none e ne nb np = record {
  own_next = ground arith;
  own_prev = ground arith;
  base_next = ground arith;
  base_prev = ground arith;
  after_prev = λ z h. cc;
  after_next = λ z h. cc;
  same = λ z f g i. ground arith;
}
behind-Inserted m base p (some a) e ne nb np =
    let na : (a == base) ≡ false = tail_test a base nb in
    let nq : (a == p) ≡ false = tail_test a p np in
    record {
      own_next = ground arith;
      own_prev = ground arith;
      base_next = ground arith;
      base_prev = ground arith;
      after_prev = λ z h. ground (arith, e);
      after_next = λ z h. ground (arith, e);
      same = λ z f g i. ground (arith, e);
    }

link_behind-Inserted :
    (m : Nodes) (base p : ℕ)
    → (p == base) ≡ false
    → (m base).next ≢ some base
    → (m base).next ≢ some p
    → Inserted m (link_behind base p m) base p
link_behind-Inserted m base p ne nb np =
    rw (link_new-next m base p ne) (behind-Inserted m base p (m base).next refl ne nb np)

-- A member of a list is none that is not.
absent : (y z : ℕ) (xs : List ℕ) → has z xs ≡ false → has y xs ≡ true → y ≢ z
absent y z xs out i e = let no : has y xs ≡ false = subst (λ x. has x xs ≡ false) (sym e) out in cc

next_ne : (z y : ℕ) (ys : List ℕ) → has y ys ≡ false → has z ys ≡ true → some y ≢ some z
next_ne z y ys out i e = absent z y ys out i (let at : z ≡ y = cc in at)

sym_test : (x c : ℕ) → x ≢ c → (x == c) ≡ false
sym_test x c ne = ground arith

-- The rest of the list, entered from the new block.
rest_behind :
    (m w : Nodes) (base p : ℕ) (ys : List ℕ) (tail : Option ℕ)
    → Inserted m w base p
    → Linked m (some base) ys tail
    → (m base).next ≡ first ys
    → has base ys ≡ false
    → has p ys ≡ false
    → Distinct ys
    → (t : Option ℕ) × Linked w (some p) ys t
rest_behind m w base p [] tail i h e nb np d = (some p, refl)
rest_behind m w base p (y ∷ ys) tail i h e nb np d =
    let frame = Linked-frame m w (some y) ys tail h.2 (λ z k.
      i.same z (has_ne base z ys (has_out base y ys nb) k) (has_ne p z ys (has_out p y ys np) k)
        (λ f. next_ne z y ys d.0 k (sym e ∙ f))) in
    (tail, (i.after_prev y e, i.after_next y e ∙ h.1, frame))

first_same :
    (xs : List ℕ) (base : ℕ) (ys zs : List ℕ) → first (xs ++ base ∷ ys) ≡ first (xs ++ base ∷ zs)
first_same [] base ys zs = refl
first_same (x ∷ xs) base ys zs = refl

-- Behind `base` in the list comes the new block.
insert_links :
    (m w : Nodes) (before : Option ℕ) (xs : List ℕ) (base p : ℕ) (ys : List ℕ) (tail : Option ℕ)
    → Inserted m w base p
    → Linked m before (xs ++ base ∷ ys) tail
    → Distinct (xs ++ base ∷ ys)
    → has p (xs ++ base ∷ ys) ≡ false
    → (t : Option ℕ) × Linked w before (xs ++ base ∷ p ∷ ys) t
insert_links m w before [] base p ys tail i h d np =
    let (t, rest) = rest_behind m w base p ys tail i h.2 h.1 d.0 (has_out p base ys np) d.1 in
    (t, (i.base_prev ∙ h.0, i.base_next, (i.own_prev, i.own_next ∙ h.1, rest)))
insert_links m w before (x ∷ xs) base p ys tail i h d np =
    let (t, rest) =
      insert_links m w (some x) xs base p ys tail i h.2 d.1 (has_out p x (xs ++ base ∷ ys) np) in
    let after = next_of m (some x) xs base ys tail h.2 in
    let keep =
      i.same x
        (sym_test base x (λ e.
          absent base x (xs ++ base ∷ ys) d.0 (has_right base xs (base ∷ ys) (has_head base ys)) e))
        (sym_test p x
          (λ e. absent x p (x ∷ xs ++ base ∷ ys) np (has_head x (xs ++ base ∷ ys)) (sym e)))
        (λ f.
          absent x x (xs ++ base ∷ ys) d.0
            (has_right x xs (base ∷ ys) (has_tail x base ys (has-first x ys (sym after ∙ f))))
            refl) in
    (
      t,
      (
        ap (λ n. n.prev) keep ∙ h.0,
        ap (λ n. n.next) keep ∙ h.1 ∙ first_same xs base ys (p ∷ ys),
        rest,
      ),
    )

Distinct-insert :
    (xs : List ℕ) (base p : ℕ) (ys : List ℕ)
    → Distinct (xs ++ base ∷ ys)
    → has p (xs ++ base ∷ ys) ≡ false
    → Distinct (xs ++ base ∷ p ∷ ys)
Distinct-insert [] base p ys d out = (ground (arith, d.0), (has_out p base ys out, d.1))
Distinct-insert (x ∷ xs) base p ys d out =
    let rest = Distinct-insert xs base p ys d.1 (has_out p x (xs ++ base ∷ ys) out) in
    (ground (arith, d.0, has-append x xs (base ∷ ys), has-append x xs (base ∷ p ∷ ys)), rest)

-- `emalloc` and `ecalloc` put the new block, which has the user's pointer of `base`, behind it in the list of the request; when
-- there is no memory, nothing changes.
pub emalloc-IsBlocks :
    (h : Heap) (xs : List ℕ) (base : ℕ) (ys : List ℕ) (p : ℕ)
    → IsBlocks h (xs ++ base ∷ ys)
    → has p (xs ++ base ∷ ys) ≡ false
    → let r = emalloc (some p) base h in
      (r.0 ≡ some p)
      × IsBlocks r.1 (xs ++ base ∷ p ∷ ys)
      × (e_get_data p r.1 ≡ e_get_data base h)
      × (r.1.freed ≡ h.freed)
unfolding emalloc
emalloc-IsBlocks h xs base ys p is out =
    let own = Distinct-behind xs base ys is.distinct in
    let after = next_of h.nodes none xs base ys is.tail is.links in
    let inside = has_right base xs (base ∷ ys) (has_head base ys) in
    let ins =
      link_behind-Inserted h.nodes base p
        (sym_test p base (λ e. absent base p (xs ++ base ∷ ys) out inside (sym e)))
        (λ f. absent base base ys own.0 (has-first base ys (sym after ∙ f)) refl)
        (λ f.
          absent p p (xs ++ base ∷ ys) out
            (has_right p xs (base ∷ ys) (has_tail p base ys (has-first p ys (sym after ∙ f))))
            refl) in
    let (t, links) =
      insert_links h.nodes (link_behind base p h.nodes) none xs base p ys is.tail ins is.links
        is.distinct out in
    (
      refl,
      record { tail = t; links = links; distinct = Distinct-insert xs base p ys is.distinct out },
      ground arith,
      refl,
    )
