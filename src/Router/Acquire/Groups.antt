-- ===== src/Router/Acquire/Groups.antt =====
-- What the callback is given: each shard once, with all the keys of the batch that it holds.
use redis_agent.Base.{
  ℕ, zero, suc, ◌+◌, ◌-◌, ◌≤◌, ◌<◌, ◌≡◌, refl, inl, inr, List, [], ◌∷◌, none, some, not, arith,
  ◌==◌, Bool-cases,
}
use redis_agent.Router.Sort.{Batch}
use redis_agent.Router.Sort.Memory.{keeps_none}
use redis_agent.Router.Sort.Correct.{Sorted, quicksort-Sorted}
use redis_agent.Router.Acquire.{
  Call, Action, set_count, drop_count, call, assign, group_loop, sorted_batch, acquire_shards,
}

unfoldable pub calls : List Action → List Call
calls [] = []
calls (set_count n ∷ xs) = calls xs
calls (drop_count ∷ xs) = calls xs
calls (call c ∷ xs) = c ∷ calls xs

unfoldable pub drops : List Action → ℕ
drops [] = 0
drops (set_count n ∷ xs) = drops xs
drops (drop_count ∷ xs) = suc (drops xs)
drops (call c ∷ xs) = drops xs

abbrev pub count_calls : List Action → ℕ
count_calls [] = 0
count_calls (set_count n ∷ xs) = count_calls xs
count_calls (drop_count ∷ xs) = count_calls xs
count_calls (call c ∷ xs) = suc (count_calls xs)

-- The calls cover the positions from `i` to `stop` one after the other, none of them empty; the
-- keys of a call all have its shard; and the shards go up, from `v` at least.
abbrev pub Grouped : Batch → ℕ → ℕ → ℕ → List Call → Type 0
Grouped a i stop v [] = i ≡ stop
Grouped a i stop v (c ∷ cs) =
    (k : ℕ) × (c.shard ≡ some k)
    × (v ≤ k)
    × (c.start ≡ i)
    × (0 < c.num)
    × ((j : ℕ) → i ≤ j → j < i + c.num → (a j).shard_key ≡ k)
    × Grouped a (i + c.num) stop (suc k) cs

abbrev Ascends : Batch → ℕ → Type 0
Ascends a stop = (i j : ℕ) → i ≤ j → j < stop → (a i).shard_key ≤ (a j).shard_key

group_loop-Grouped :
    (a : Batch) (stop n i last start v : ℕ)
    → Ascends a stop
    → i + n ≡ stop
    → start < i
    → v ≤ last
    → ((j : ℕ) → start ≤ j → j < i → (a j).shard_key ≡ last)
    → Grouped a start stop v (calls (group_loop a n i (some last) start))
unfolding group_loop calls
group_loop-Grouped a stop zero i last start v up e lt le run =
    (last, refl, le, refl, omega arith, λ j p q. run j p (omega arith), omega arith)
group_loop-Grouped a stop (suc n) i last start v up e lt le run =
    elim (Bool-cases ((a i).shard_key == last)) [
      | inl same ↦
          let at : (a i).shard_key ≡ last = ground arith in
          rw same (
            rw at (
              group_loop-Grouped a stop n (i + 1) last start v up (omega arith) (omega arith) le
                λ j p q. ground (arith, run j p)))
      | inr next ↦
          let grows : last < (a i).shard_key = ground (
            arith,
            run (i - 1) (omega arith) (omega arith),
            up (i - 1) i (omega arith) (omega arith),
          ) in
          let reach : start + (i - start) ≡ i = omega arith in
          rw next (
            last,
            refl,
            le,
            refl,
            omega arith,
            λ j p q. run j p (omega arith),
            rw reach (
                group_loop-Grouped a stop n (i + 1) (a i).shard_key i (suc last) up (omega arith)
                  (omega arith) grows (λ j p q. let at : j ≡ i = omega arith in rw at)),
          )
    ]

-- Each key either opens a group or takes one off the count.
group_loop-count :
    (a : Batch) (n i last start : ℕ)
    → drops (group_loop a n i (some last) start) + count_calls (group_loop a n i (some last) start)
      ≡ suc n
unfolding group_loop drops
group_loop-count a zero i last start = omega arith
group_loop-count a (suc n) i last start = ground (
  arith,
  group_loop-count a n (i + 1) (a i).shard_key start,
  group_loop-count a n (i + 1) (a i).shard_key i,
)

started-Grouped :
    (a : Batch) (n : ℕ) → 0 < n → Ascends a n → Grouped a 0 n 0 (calls (group_loop a n 0 none 0))
unfolding group_loop
started-Grouped a zero h up = elim h [ ]
started-Grouped a (suc n) h up =
    group_loop-Grouped a (suc n) n 1 (a 0).shard_key 0 0 up (omega arith) (omega arith)
      (omega arith) λ j p q. let at : j ≡ 0 = omega arith in rw at

started-count :
    (a : Batch) (n : ℕ)
    → 0 < n
    → drops (group_loop a n 0 none 0) + count_calls (group_loop a n 0 none 0) ≡ n
unfolding group_loop
started-count a zero h = elim h [ ]
started-count a (suc n) h = group_loop-count a n 1 (a 0).shard_key 0

-- The first loop sets the shard of every key of the batch, and nothing else.
assign-shard :
    (shard_of : List ℕ → ℕ) (a : Batch) (n i : ℕ)
    → i < n
    → (assign shard_of n a i).shard_key ≡ shard_of (assign shard_of n a i).key
unfolding assign
assign-shard shard_of a zero i h = elim h [ ]
assign-shard shard_of a (suc n) i h = ground (arith, assign-shard shard_of a n i)

assign-key :
    (shard_of : List ℕ → ℕ) (a : Batch) (n i : ℕ)
    → ((assign shard_of n a i).key ≡ (a i).key) × ((assign shard_of n a i).value ≡ (a i).value)
unfolding assign
assign-key shard_of a zero i = (refl, refl)
assign-key shard_of a (suc n) i =
    ground (arith, assign-key shard_of a n i, assign-key shard_of a n n)

module _ (shard_of : List ℕ → ℕ) (a : Batch) (key_num : ℕ) where
  -- The batch is sorted by shard over its first `key_num` positions, the entries there are a
  -- rearrangement of those that the first loop leaves, and no other position is written.
  pub sorted_batch-Sorted :
      Sorted (assign shard_of key_num a) 0 key_num (sorted_batch shard_of a key_num)
  unfolding sorted_batch
  sorted_batch-Sorted = quicksort-Sorted key_num (assign shard_of key_num a) 0 key_num (omega arith)

  -- After the sort every position below `key_num` still carries the shard of its own key.
  pub sorted_batch-shard :
      (i : ℕ)
      → i < key_num
      → (sorted_batch shard_of a key_num i).shard_key
        ≡ shard_of (sorted_batch shard_of a key_num i).key
  sorted_batch-shard i h = ground (
    arith,
    keeps_none (λ x. not (x.shard_key == shard_of x.key)) (assign shard_of key_num a)
        (sorted_batch shard_of a key_num) 0 key_num (omega arith) (λ j q. absurd (omega arith))
        (sorted_batch-Sorted.count (λ x. not (x.shard_key == shard_of x.key)) key_num (omega arith))
        (λ j p q. ground (arith, assign-shard shard_of a key_num j q)) i (omega arith) h,
  )

  -- For a request with at least one key, the callback is called for consecutive, non-empty ranges
  -- that together are the whole batch; every key of a range has the shard of that call; and the
  -- shards of the calls go up strictly, so that no shard is called twice.
  pub acquire_shards-Grouped :
      0 < key_num
      → Grouped
          (acquire_shards shard_of a key_num).0
          0
          key_num
          0
          (calls (acquire_shards shard_of a key_num).1)
  unfolding acquire_shards calls
  acquire_shards-Grouped h =
      started-Grouped (sorted_batch shard_of a key_num) key_num h
        (λ i j p q. sorted_batch-Sorted.ordered i j (omega arith) p q)

  -- For a request with at least one key, the keys taken off `shard_count` and the calls made add
  -- up to `key_num`: when the loop ends, the count is the number of shards called.
  pub acquire_shards-count :
      0 < key_num
      → drops (acquire_shards shard_of a key_num).1
          + count_calls (acquire_shards shard_of a key_num).1
        ≡ key_num
  unfolding acquire_shards drops
  acquire_shards-count h = started-count (sorted_batch shard_of a key_num) key_num h
