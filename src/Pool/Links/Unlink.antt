-- ===== src/Pool/Links/Unlink.antt =====
-- The removal from the waiting queue of pool.cpp and from the sub requests of req.cpp: the two writes to
-- the neighbours of a node that is then freed.
use redis_agent.Base.{
  ℕ, ◌≡◌, refl, ◌≢◌, List, ◌∷◌, ◌++◌, Option, none, some, false, arith, ◌==◌, if◌then◌else◌,
}
use redis_agent.Pool.Links.{Nodes, same, set_prev, set_next}
use redis_agent.Pool.Links.Segment.{Distinct, first, Linked, has_head, has-first}
use redis_agent.Pool.Links.Laws.{tail_test}
use redis_agent.Pool.Links.Bridge.{Bridged, next_of, Outside, Outside-ne, remove_links}
use redis_agent.Pool.Links.Remove.{prev_out, Distinct-behind}

abbrev pub unlinked : Nodes → ℕ → Nodes
unlinked m c = let m₁ = set_next m (m c).prev (m c).next in set_prev m₁ (m₁ c).next (m₁ c).prev

-- The node itself keeps its links, and its neighbours are bridged.
record Unlinked (m w : Nodes) (c : ℕ) (p n : Option ℕ) : Type 0 where
  bridge : Bridged m w c p n
  own_next : (w c).next ≡ n
  own_prev : (w c).prev ≡ p

unlink :
    (m : Nodes) (c : ℕ) (p n : Option ℕ)
    → (m c).prev ≡ p
    → (m c).next ≡ n
    → p ≢ some c
    → n ≢ some c
    → Unlinked m (unlinked m c) c p n
unlink m c none none e f ne nf =
    rw (e, f)
      (record {
        bridge = record {
          prev_next = λ z h. cc;
          next_prev = λ z h. cc;
          prev_same = λ z h g. refl;
          next_same = λ z h g. refl;
        };
        own_next = f;
        own_prev = e;
      })
unlink m c none (some b) e f ne nf =
    let nb : (b == c) ≡ false = tail_test b c nf in
    rw (e, f)
      (record {
        bridge = record {
          prev_next = λ z h. ground (arith, e);
          next_prev = λ z h. cc;
          prev_same = λ z h g. rw (tail_test b z g) refl;
          next_same = λ z h g. ground arith;
        };
        own_next = ground (arith, f, nb);
        own_prev = ground (arith, e, nb);
      })
unlink m c (some a) none e f ne nf =
    let na : (a == c) ≡ false = tail_test a c ne in
    rw (e, f, na)
      (record {
        bridge = record {
          prev_next = λ z h. cc;
          next_prev = λ z h. ground (arith, f);
          prev_same = λ z h g. ground arith;
          next_same = λ z h g. rw (tail_test a z g) refl;
        };
        own_next = ground (arith, f, na);
        own_prev = ground (arith, e, na);
      })
unlink m c (some a) (some b) e f ne nf =
    let na : (a == c) ≡ false = tail_test a c ne in
    let nb : (b == c) ≡ false = tail_test b c nf in
    rw (e, f, na)
      (record {
        bridge = record {
          prev_next = λ z h. ground (arith, e);
          next_prev = λ z h. ground (arith, f);
          prev_same = λ z h g. ground (arith, tail_test b z g);
          next_same = λ z h g. ground (arith, tail_test a z g);
        };
        own_next = ground (arith, f, na, nb);
        own_prev = ground (arith, e, na, nb);
      })

-- Taking the node `c` out of a list.
pub record Without (m w : Nodes) (tail : Option ℕ) (xs : List ℕ) (c : ℕ) (ys : List ℕ)
    : Type 0 where
  pub links : Linked w none (xs ++ ys) (if same (some c) tail then (m c).prev else tail)
  pub next : (w c).next ≡ first ys
  pub prev : (w c).prev ≡ (m c).prev

pub unlinked-Without :
    (m : Nodes) (tail : Option ℕ) (xs : List ℕ) (c : ℕ) (ys : List ℕ)
    → Linked m none (xs ++ c ∷ ys) tail
    → Distinct (xs ++ c ∷ ys)
    → Without m (unlinked m c) tail xs c ys
unlinked-Without m tail xs c ys links distinct =
    let next_is = next_of m none xs c ys tail links in
    let own : Distinct (c ∷ ys) = Distinct-behind xs c ys distinct in
    let out : Outside (m c).prev (c ∷ ys) = prev_out m xs c ys tail links distinct in
    let all =
      unlink m c (m c).prev (first ys) refl next_is
        (Outside-ne c (m c).prev (c ∷ ys) out (has_head c ys))
        (λ e. let i = has-first c ys e in let o = own.0 in cc) in
    record {
      links =
          remove_links m (unlinked m c) c (m c).prev (first ys) all.bridge none xs ys tail refl refl
            links distinct (λ b e. let o = out b e in ground arith);
      next = all.own_next;
      prev = all.own_prev;
    }
