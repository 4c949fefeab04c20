-- ===== src/Pool/Waiting.antt =====
-- The waiting queue of one server in pool.cpp: requests without a connection, in order of arrival.
-- A node is named by its address; its `last` is the `prev` of the links.
pub mod Laws
pub mod Withdraw
use redis_agent.Base.{ℕ, Option, none, some, Bool, ◌==◌, if◌then◌else◌}
use redis_agent.Base.Int.{ℤ, pos, ◌+ℤ◌, ◌-ℤ◌}
use redis_agent.Pool.Links.{Nodes, Queue, blank, same, write, set_prev, set_next}

-- The queue with the nodes' links and their `sub_req`.
pub record Waiting : Type 0 where
  pub nodes : Nodes
  pub queue : Queue
  pub sub_req : ℕ → ℕ

-- `_pool_waiting_queue_get`: the request at the head, whose node is freed.
pub waiting_get : Waiting → Option ℕ × Waiting
waiting_get w = elim (w.queue.head) [
  | none ↦ (none, w)
  | some h ↦ (
    some (w.sub_req h),
    if same (some h) w.queue.tail
        then record {
          nodes = w.nodes;
          queue = record { head = none; tail = none; count = w.queue.count -ℤ pos 1 };
          sub_req = w.sub_req;
        }
        else record {
          nodes = set_prev w.nodes (w.nodes h).next none;
          queue = record {
            head = (w.nodes h).next;
            tail = w.queue.tail;
            count = w.queue.count -ℤ pos 1;
          };
          sub_req = w.sub_req;
        },
  )
]

-- `_pool_waiting_queue_put` of a node made by `_pool_add_req_into_waitingqueue`.
pub waiting_put : Waiting → ℕ → ℕ → Waiting
waiting_put w p req = elim (w.queue.head) [
  | none ↦ record {
    nodes = write w.nodes p blank;
    queue = record { head = some p; tail = some p; count = w.queue.count +ℤ pos 1 };
    sub_req = λ q. if p == q then req else w.sub_req q;
  }
  | some h ↦ record {
    nodes =
        set_next (write w.nodes p (record { next = none; prev = w.queue.tail })) w.queue.tail
          (some p);
    queue = record { head = some h; tail = some p; count = w.queue.count +ℤ pos 1 };
    sub_req = λ q. if p == q then req else w.sub_req q;
  }
]

-- The unlinking in `_pool_waiting_queue_rm`.
pub waiting_rm : Waiting → ℕ → Waiting
waiting_rm w p =
    let m₁ = set_next w.nodes (w.nodes p).prev (w.nodes p).next in
    let m₂ = set_prev m₁ (m₁ p).next (m₁ p).prev in
    record {
      nodes = m₂;
      queue = record {
        head = if same (some p) w.queue.head then (m₂ p).next else w.queue.head;
        tail = if same (some p) w.queue.tail then (m₂ p).prev else w.queue.tail;
        count = w.queue.count -ℤ pos 1;
      };
      sub_req = w.sub_req;
    }
