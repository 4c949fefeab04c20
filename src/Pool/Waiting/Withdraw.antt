-- ===== src/Pool/Waiting/Withdraw.antt =====
-- `_pool_waiting_queue_rm` of pool.cpp: a request gives up waiting.
use redis_agent.Base.{ℕ, ◌≡◌, refl, List, ◌∷◌, ◌++◌, some}
use redis_agent.Base.Int.{pos, ◌-ℤ◌}
use redis_agent.Pool.Links.Bridge.{Distinct-remove, first_append}
use redis_agent.Pool.Links.Remove.{same_comm}
use redis_agent.Pool.Links.Unlink.{Without, unlinked, unlinked-Without}
use redis_agent.Pool.Waiting.{Waiting, waiting_rm}
use redis_agent.Pool.Waiting.Laws.{IsWaiting}

pub record Withdrawn (w : Waiting) (xs : List ℕ) (p : ℕ) (ys : List ℕ) (r : Waiting) : Type 0 where
  pub rest : IsWaiting r (xs ++ ys)
  pub reqs : r.sub_req ≡ w.sub_req
  pub count : r.queue.count ≡ w.queue.count -ℤ pos 1

-- `_pool_waiting_queue_rm` takes just the given request out of the waiting queue, wherever it stands,
-- and the others wait on in their order.
pub waiting_rm-remove :
    (w : Waiting) (xs : List ℕ) (p : ℕ) (ys : List ℕ)
    → IsWaiting w (xs ++ p ∷ ys)
    → Withdrawn w xs p ys (waiting_rm w p)
unfolding waiting_rm
waiting_rm-remove w xs p ys is =
    let gone : Without w.nodes (unlinked w.nodes p) w.queue.tail xs p ys =
      unlinked-Without w.nodes w.queue.tail xs p ys is.links is.distinct in
    record {
      rest = record {
        head =
            rw (gone.next, same_comm (some p) w.queue.head)
              (first_append xs p ys w.queue.head is.head is.distinct);
        links = rw (gone.prev) (gone.links);
        distinct = Distinct-remove xs p ys is.distinct;
      };
      reqs = refl;
      count = refl;
    }
