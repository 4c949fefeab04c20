-- ===== src/Pool/Waiting/Laws.antt =====
-- The waiting queue of pool.cpp against the list of its nodes.
use redis_agent.Base.{
  ℕ, ◌≡◌, refl, ◌∙◌, List, [], ◌∷◌, ◌++◌, Option, none, some, true, false, arith, ◌==◌,
}
use redis_agent.Base.Int.{pos, ◌+ℤ◌, ◌-ℤ◌}
use redis_agent.Pool.Links.{Nodes, same, write, set_next}
use redis_agent.Pool.Links.Segment.{has, IsQueue, Linked-frame, Linked-tail, tail_ne}
use redis_agent.Pool.Links.Laws.{append_links, has_ne, Distinct-append, tail_test, not_same}
use redis_agent.Pool.Waiting.{Waiting, waiting_get, waiting_put}

abbrev pub IsWaiting : Waiting → List ℕ → Type 0
IsWaiting w ps = IsQueue w.nodes w.queue ps

pub waiting_get-nil : (w : Waiting) → IsWaiting w [] → waiting_get w ≡ (none, w)
unfolding waiting_get
waiting_get-nil w is = ground (arith, is.head)

pub record Served (w : Waiting) (p : ℕ) (ps : List ℕ) (r : Option ℕ × Waiting) : Type 0 where
  pub found : r.0 ≡ some (w.sub_req p)
  pub rest : IsWaiting r.1 ps
  pub reqs : r.1.sub_req ≡ w.sub_req
  pub count : r.1.queue.count ≡ w.queue.count -ℤ pos 1

Served-last : (w : Waiting) (p : ℕ) → IsWaiting w (p ∷ []) → Served w p [] (waiting_get w)
unfolding waiting_get
Served-last w p is =
    let one : same (some p) w.queue.tail ≡ true = rw (is.links.2) (ground arith) in
    rw (is.head, one)
      (record {
        found = refl;
        rest = record { head = refl; links = refl; distinct = tt };
        reqs = refl;
        count = refl;
      })

Served-more :
    (w : Waiting) (p y : ℕ) (ys : List ℕ)
    → IsWaiting w (p ∷ y ∷ ys)
    → Served w p (y ∷ ys) (waiting_get w)
unfolding waiting_get
Served-more w p y ys is =
    let more : same (some p) w.queue.tail ≡ false =
      not_same p w.queue.tail
        (tail_ne w.nodes (some p) y ys w.queue.tail p is.links.2 is.distinct.0) in
    rw (is.head, more, is.links.1)
      (record {
        found = refl;
        rest = record {
          head = refl;
          links = (
            ground arith,
            ground arith,
            Linked-frame w.nodes _ (some y) ys w.queue.tail is.links.2.2 (λ c e. ground arith),
          );
          distinct = is.distinct.1;
        };
        reqs = refl;
        count = refl;
      })

-- `_pool_waiting_queue_get` on a queue that is not empty returns the request that has waited
-- longest and leaves the others in their order.
pub waiting_get-cons :
    (w : Waiting) (p : ℕ) (ps : List ℕ) → IsWaiting w (p ∷ ps) → Served w p ps (waiting_get w)
waiting_get-cons w p [] is = Served-last w p is
waiting_get-cons w p (y ∷ ys) is = Served-more w p y ys is

-- The nodes after a put behind the node `t`.
put_nodes :
    (m : Nodes) (t c : ℕ)
    → (c == t) ≡ false
    → let w = set_next (write m c (record { next = none; prev = some t })) (some t) (some c) in
      (w c ≡ record { next = none; prev = some t })
      × (w t ≡ record { next = some c; prev = (m t).prev })
      × ((z : ℕ) → (c == z) ≡ false → (t == z) ≡ false → w z ≡ m z)
put_nodes m t c ne = (ground arith, ground arith, λ z e f. ground arith)

pub record Queued (w : Waiting) (ps : List ℕ) (p req : ℕ) (r : Waiting) : Type 0 where
  pub whole : IsWaiting r (ps ++ p ∷ [])
  pub request : r.sub_req p ≡ req
  pub others : (c : ℕ) → has c ps ≡ true → r.sub_req c ≡ w.sub_req c
  pub count : r.queue.count ≡ w.queue.count +ℤ pos 1

-- `_pool_waiting_queue_put` of a fresh node adds its request at the end of the queue.
pub waiting_put-append :
    (w : Waiting) (ps : List ℕ) (p req : ℕ)
    → IsWaiting w ps
    → has p ps ≡ false
    → Queued w ps p req (waiting_put w p req)
unfolding waiting_put
waiting_put-append w [] p req is out =
    simp (is.head, waiting_put)
      (record {
        whole = record { head = refl; links = ground arith; distinct = ground arith };
        request = ground arith;
        others = λ c e. cc;
        count = refl;
      })
waiting_put-append w (x ∷ xs) p req is out =
    let m = w.nodes in
    let (t, at, i) = Linked-tail m none x xs w.queue.tail is.links in
    let ne : (p == t) ≡ false = has_ne p t (x ∷ xs) out i in
    let v =
      set_next (write m p (record { next = none; prev = w.queue.tail })) w.queue.tail (some p) in
    let (new, last, other) = put_nodes m t p ne in
    let new' : v p ≡ record { next = none; prev = w.queue.tail } = rw at new in
    let last' : v t ≡ record { next = some p; prev = (m t).prev } = rw at last in
    let other' : (z : ℕ) → (p == z) ≡ false → (t == z) ≡ false → v z ≡ m z = rw at other in
    simp (is.head, waiting_put)
      (record {
        whole = record {
          head = refl;
          links =
              append_links m v none x xs w.queue.tail p is.links is.distinct out new'
                (λ z e. let s : t ≡ z = cc in rw (← s) last')
                (λ z j e. other' z (has_ne p z (x ∷ xs) out j) (tail_test t z (λ h. e (at ∙ h))));
          distinct = Distinct-append (x ∷ xs) p is.distinct out;
        };
        request = ground arith;
        others = λ c e. rw (has_ne p c (x ∷ xs) out e);
        count = refl;
      })
