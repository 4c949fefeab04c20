-- ===== src/Pool/Links/Remove.antt =====
-- `_pool_connect_queue_rm`: on a node of the list, and on a node that is in no list.
use mathlib.Core.Path.{subst}
use redis_agent.Base.{
  ℕ, ◌≡◌, refl, ◌≢◌, List, [], ◌∷◌, ◌++◌, Option, none, some, true, false, arith, ◌==◌,
}
use redis_agent.Base.Int.{pos, ◌-ℤ◌}
use redis_agent.Pool.Links.{Nodes, Queue, blank, same, rm}
use redis_agent.Pool.Links.Segment.{
  has, Distinct, first, Linked, IsQueue, tail_ne, has_head, has_left, has_right, has-first,
}
use redis_agent.Pool.Links.Laws.{SameOutside, not_same, tail_test, not_in}
use redis_agent.Pool.Links.Bridge.{
  prev_in, next_of, Bridged, Outside, Outside-ne, node_same, not_next, remove_links,
  Distinct-remove, Distinct-front, first_append,
}

pub record Removed (m : Nodes) (q : Queue) (xs : List ℕ) (c : ℕ) (ys : List ℕ) (r : Nodes × Queue)
    : Type 0 where
  pub rest : IsQueue r.0 r.1 (xs ++ ys)
  pub count : r.1.count ≡ q.count -ℤ pos 1
  pub frame : SameOutside (xs ++ c ∷ ys) m r.0

-- The writes of `rm` are those of a bridge.
rm_bridge :
    (m : Nodes) (q : Queue) (c : ℕ) (p n : Option ℕ)
    → (m c).prev ≡ p
    → (m c).next ≡ n
    → p ≢ some c
    → n ≢ some c
    → Bridged m (rm m q c).0 c p n
unfolding rm
rm_bridge m q c none none e f ne nf =
    rw (f, e)
      (record {
        prev_next = λ z h. cc;
        next_prev = λ z h. cc;
        prev_same = λ z h g. rw h;
        next_same = λ z h g. rw h;
      })
rm_bridge m q c none (some b) e f ne nf =
    let nb : (b == c) ≡ false = tail_test b c nf in
    rw (f, nb, e)
      (record {
        prev_next = λ z h. ground arith;
        next_prev = λ z h. cc;
        prev_same = λ z h g. rw (h, tail_test b z g);
        next_same = λ z h g. ground arith;
      })
rm_bridge m q c (some a) none e f ne nf =
    let na : (a == c) ≡ false = tail_test a c ne in
    rw (f, e)
      (record {
        prev_next = λ z h. cc;
        next_prev = λ z h. ground (arith, f);
        prev_same = λ z h g. ground arith;
        next_same = λ z h g. rw (h, tail_test a z g);
      })
rm_bridge m q c (some a) (some b) e f ne nf =
    let nb : (b == c) ≡ false = tail_test b c nf in
    let na : (a == c) ≡ false = tail_test a c ne in
    rw (f, nb, e)
      (record {
        prev_next = λ z h. ground arith;
        next_prev = λ z h. ground (arith, f);
        prev_same = λ z h g. ground (arith, h, tail_test b z g);
        next_same = λ z h g. ground (arith, h, tail_test a z g);
      })

prev_within :
    (m : Nodes) (xs : List ℕ) (c : ℕ) (ys : List ℕ) (tail : Option ℕ) (z : ℕ)
    → Linked m none (xs ++ c ∷ ys) tail
    → (m c).prev ≡ some z
    → has z (xs ++ c ∷ ys) ≡ true
prev_within m [] c ys tail z h e = cc (h.0)
prev_within m (x ∷ xs) c ys tail z h e =
    let (y, at, i) = prev_in m none x xs c ys tail h in
    let same : y ≡ z = cc in
    subst (λ k. has k (x ∷ xs ++ c ∷ ys) ≡ true) same (has_left y (x ∷ xs) (c ∷ ys) i)

pub Distinct-behind :
    (xs : List ℕ) (c : ℕ) (ys : List ℕ) → Distinct (xs ++ c ∷ ys) → Distinct (c ∷ ys)
Distinct-behind [] c ys d = d
Distinct-behind (x ∷ xs) c ys d = Distinct-behind xs c ys d.1

-- The node before `c` is neither behind it nor `c` itself.
pub prev_out :
    (m : Nodes) (xs : List ℕ) (c : ℕ) (ys : List ℕ) (tail : Option ℕ)
    → Linked m none (xs ++ c ∷ ys) tail
    → Distinct (xs ++ c ∷ ys)
    → Outside (m c).prev (c ∷ ys)
prev_out m [] c ys tail h d b e = cc (h.0)
prev_out m (x ∷ xs) c ys tail h d b e =
    let (z, at, i) = prev_in m none x xs c ys tail h in
    let same : z ≡ b = cc in
    subst (λ k. has k (c ∷ ys) ≡ false) same (Distinct-front (x ∷ xs) c ys z d i)

pub same_comm : (p q : Option ℕ) → same p q ≡ same q p
same_comm none none = refl
same_comm none (some b) = refl
same_comm (some a) none = refl
same_comm (some a) (some b) = ground arith

-- `_pool_connect_queue_rm` of a node of the list takes it out of the middle, and keeps the order of
-- the others.
pub rm-remove :
    (m : Nodes) (q : Queue) (xs : List ℕ) (c : ℕ) (ys : List ℕ)
    → IsQueue m q (xs ++ c ∷ ys)
    → Removed m q xs c ys (rm m q c)
rm-remove m q xs c ys is = record {
  rest = record {
    head = head_ok;
    links = links_ok;
    distinct = Distinct-remove xs c ys is.distinct;
  };
  count = unfold rm in refl;
  frame = frame_ok;
}
  where
    next_is : (m c).next ≡ first ys
    next_is = next_of m none xs c ys q.tail is.links

    own : Distinct (c ∷ ys)
    own = Distinct-behind xs c ys is.distinct

    out_prev : Outside (m c).prev (c ∷ ys)
    out_prev = prev_out m xs c ys q.tail is.links is.distinct

    bridge : Bridged m (rm m q c).0 c (m c).prev (first ys)
    bridge =
        rm_bridge m q c (m c).prev (first ys) refl next_is
          (Outside-ne c (m c).prev (c ∷ ys) out_prev (has_head c ys))
          (λ e. let i = has-first c ys e in let o = own.0 in cc)

    head_ok : (rm m q c).1.head ≡ first (xs ++ ys)
    head_ok = unfold rm in rw next_is (first_append xs c ys q.head is.head is.distinct)

    links_ok : Linked (rm m q c).0 none (xs ++ ys) (rm m q c).1.tail
    links_ok =
        unfold rm in
        rw (same_comm q.tail (some c)) (
          remove_links m (rm m q c).0 c (m c).prev (first ys) bridge none xs ys q.tail refl refl
            is.links is.distinct (λ b e. let o = out_prev b e in ground arith))

    frame_ok : SameOutside (xs ++ c ∷ ys) m (rm m q c).0
    frame_ok z out =
        node_same m (rm m q c).0 c (m c).prev (first ys) bridge z (not_in_list z out)
          (λ e. let i = prev_within m xs c ys q.tail z is.links e in cc)
          (not_next m (rm m q c).0 c (m c).prev (first ys) bridge z xs ys out refl)
      where
        not_in_list : (z : ℕ) → has z (xs ++ c ∷ ys) ≡ false → (c == z) ≡ false
        not_in_list z out = not_in c z (xs ++ c ∷ ys) (has_right c xs (c ∷ ys) (has_head c ys)) out

-- The links of the node that is taken out are cut.
pub rm_self : (m : Nodes) (q : Queue) (c : ℕ) → (rm m q c).0 c ≡ blank
unfolding rm
rm_self m q c = ground arith

-- On a node that is in no list, `_pool_connect_queue_rm` leaves the list as it is and yet takes one
-- off its count.
pub rm-blank :
    (m : Nodes) (q : Queue) (xs : List ℕ) (c : ℕ)
    → IsQueue m q xs
    → m c ≡ blank
    → has c xs ≡ false
    → ((rm m q c).1 ≡ record q { count = q.count -ℤ pos 1 }) × ((z : ℕ) → (rm m q c).0 z ≡ m z)
unfolding rm
rm-blank m q [] c is alone out =
    rw alone (ground (arith, is.head, is.links), λ z. ground (arith, alone))
rm-blank m q (x ∷ xs) c is alone out =
    let no = tail_ne m none x xs q.tail c is.links out in
    rw (alone, same_comm q.tail (some c), not_same c q.tail no)
      (ground (arith, is.head), λ z. ground (arith, alone))
