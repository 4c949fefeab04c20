-- ===== src/Router/Acquire.antt =====
-- `router_acquire_shards` of router.cpp: the keys of a request are given their shards, sorted by
-- shard, and each run of keys of one shard is handed to the callback once.
pub mod Groups
use redis_agent.Base.{
  ℕ, zero, suc, ◌+◌, ◌-◌, List, [], ◌∷◌, Option, none, some, ◌==◌, if◌then◌else◌,
}
use redis_agent.Router.Sort.{BackendReq, Batch, put, quicksort}

-- What the function does to the request and through the callback, in order. `shard` is
-- `last_partition`, with `none` for the -1 before the first key.
pub record Call : Type 0 where
  pub start : ℕ
  pub num : ℕ
  pub shard : Option ℕ

pub data Action : Type 0 where
  set_count : ℕ → Action
  drop_count : Action
  call : Call → Action

-- The first loop; `shard_of` is the shard function after the hash.
unfoldable pub assign : (List ℕ → ℕ) → ℕ → Batch → Batch
assign shard_of zero a = a
assign shard_of (suc n) a =
    let a' = assign shard_of n a in put a' n (record (a' n) { shard_key = shard_of (a' n).key })

-- The second loop with the call behind it: `n` keys are left, the next one is at `i`. A shard is
-- an index into the partitions, so no key has the shard -1.
unfoldable pub group_loop : Batch → ℕ → ℕ → Option ℕ → ℕ → List Action
group_loop a zero i last start = call (record { start = start; num = i - start; shard = last }) ∷ []
group_loop a (suc n) i none start = group_loop a n (i + 1) (some (a i).shard_key) start
group_loop a (suc n) i (some last) start =
    let same = drop_count ∷ group_loop a n (i + 1) (some (a i).shard_key) start in
    let next =
      call (record { start = start; num = i - start; shard = some last })
      ∷ group_loop a n (i + 1) (some (a i).shard_key) i in
    if (a i).shard_key == last then same else next

unfoldable pub sorted_batch : (List ℕ → ℕ) → Batch → ℕ → Batch
sorted_batch shard_of a key_num = quicksort key_num (assign shard_of key_num a) 0 key_num

unfoldable pub acquire_shards : (List ℕ → ℕ) → Batch → ℕ → Batch × List Action
unfolding sorted_batch
acquire_shards shard_of a key_num =
    let sorted = sorted_batch shard_of a key_num in
    (sorted, set_count key_num ∷ group_loop sorted key_num 0 none 0)
