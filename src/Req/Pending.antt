-- ===== src/Req/Pending.antt =====
-- The list of the sub requests of req.cpp that are not done.
use redis_agent.Base.{ℕ, ◌≡◌, refl, List, [], ◌∷◌, ◌++◌, some, false, arith, if◌then◌else◌}
use redis_agent.Pool.Links.{blank, same}
use redis_agent.Pool.Links.Segment.{has, Linked-frame}
use redis_agent.Pool.Links.Bridge.{Distinct-remove, first_append}
use redis_agent.Pool.Links.Remove.{same_comm}
use redis_agent.Pool.Links.Unlink.{Without, unlinked, unlinked-Without}
use redis_agent.Req.{Subs, push, rm}
use redis_agent.Req.Timeout.{IsSubs}

-- `_req_subreq_queue_push` of a new sub request puts it before the others.
pub push-cons :
    (q : Subs) (p : ℕ) (xs : List ℕ)
    → IsSubs q xs
    → q.nodes p ≡ blank
    → has p xs ≡ false
    → IsSubs (push q p) (p ∷ xs)
unfolding push
push-cons q p [] is alone out =
    rw (is.head, push)
      (record {
        head = refl;
        tail = some p;
        links = (ground (arith, alone), ground (arith, alone), refl);
        distinct = (refl, tt);
      })
push-cons q p (y ∷ ys) is alone out =
    rw (is.head, push)
      (record {
        head = refl;
        tail = is.tail;
        links = (
          ground arith,
          ground arith,
          (
            ground arith,
            ground (arith, is.links.1),
            Linked-frame q.nodes _ (some y) ys is.tail is.links.2
                (λ c e. let d = is.distinct.0 in ground arith),
          ),
        );
        distinct = (out, is.distinct);
      })

-- `_req_subreq_queue_rm` takes just the given sub request out, and keeps the order of the others.
pub rm-IsSubs :
    (q : Subs) (xs : List ℕ) (p : ℕ) (ys : List ℕ)
    → IsSubs q (xs ++ p ∷ ys)
    → IsSubs (rm q p) (xs ++ ys)
unfolding rm
rm-IsSubs q xs p ys is =
    let gone : Without q.nodes (unlinked q.nodes p) is.tail xs p ys =
      unlinked-Without q.nodes is.tail xs p ys is.links is.distinct in
    record {
      head =
          rw (gone.next, same_comm (some p) q.head)
            (first_append xs p ys q.head is.head is.distinct);
      tail = if same (some p) is.tail then (q.nodes p).prev else is.tail;
      links = gone.links;
      distinct = Distinct-remove xs p ys is.distinct;
    }
