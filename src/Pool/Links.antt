-- ===== src/Pool/Links.antt =====
-- The intrusive lists of pool.cpp: `connect_queue_t` nodes, linked both ways, with the two ends and
-- the count held by the server. A node is named by its `connect_id`, which is also its index in
-- `m_connectArr`, so that a pointer is a number and NULL is `none`.
pub mod Segment
pub mod Laws
pub mod Bridge
pub mod Remove
pub mod Unlink
use redis_agent.Base.{ℕ, Option, none, some, Bool, true, false, ◌==◌, if◌then◌else◌}
use redis_agent.Base.Int.{ℤ, pos, ◌+ℤ◌, ◌-ℤ◌}

-- `struct connect_queue`
pub record Node : Type 0 where
  pub next : Option ℕ
  pub prev : Option ℕ

abbrev pub Nodes : Type 0
Nodes = ℕ → Node

-- Head, tail and count of one list.
pub record Queue : Type 0 where
  pub head : Option ℕ
  pub tail : Option ℕ
  pub count : ℤ

abbrev pub blank : Node
blank = record { next = none; prev = none }

-- Equality of pointers.
abbrev pub same : Option ℕ → Option ℕ → Bool
same none none = true
same none (some b) = false
same (some a) none = false
same (some a) (some b) = a == b

abbrev pub write : Nodes → ℕ → Node → Nodes
write m p v q = if p == q then v else m q

-- `p->prev = v` and `p->next = v`. A write through NULL changes nothing: the source tests for NULL,
-- or `IsQueue` (below) rules it out.
abbrev pub set_prev : Nodes → Option ℕ → Option ℕ → Nodes
set_prev m none v = m
set_prev m (some p) v = write m p (record { next = (m p).next; prev = v })

abbrev pub set_next : Nodes → Option ℕ → Option ℕ → Nodes
set_next m none v = m
set_next m (some p) v = write m p (record { next = v; prev = (m p).prev })

-- The body that `_pool_unconnect_queue_get` and `_pool_connect_queue_get` share; -1 is `none`.
pub get : Nodes → Queue → Option ℕ × Nodes × Queue
get m q = elim (q.head) [
  | none ↦ (none, m, q)
  | some c ↦ (
    some c,
    write (set_prev m (m c).next none) c blank,
    record {
      head = (m c).next;
      tail = if same q.head q.tail then none else q.tail;
      count = q.count -ℤ pos 1;
    },
  )
]

-- `_pool_unconnect_queue_put` and `_pool_connect_queue_put`.
pub put : Nodes → Queue → ℕ → Nodes × Queue
put m q c = elim (q.head) [
  | none ↦ (write m c blank, record { head = some c; tail = some c; count = q.count +ℤ pos 1 })
  | some h ↦ (
    set_prev (set_next (write m c blank) q.tail (some c)) (some c) q.tail,
    record { head = some h; tail = some c; count = q.count +ℤ pos 1 },
  )
]

-- `_pool_connect_queue_rm`
pub rm : Nodes → Queue → ℕ → Nodes × Queue
rm m q c =
    let after = (m c).next in
    let m₁ = set_prev m after (m c).prev in
    let m₂ = set_next m₁ (m₁ c).prev (m₁ c).next in
    (
      write m₂ c blank,
      record {
        head = if same q.head (some c) then after else q.head;
        tail = if same q.tail (some c) then (m c).prev else q.tail;
        count = q.count -ℤ pos 1;
      },
    )
