-- ===== src/Examples/Partition.antt =====
-- Two partitions, written as `0-1,3` and `2`, for arrays of four numbers.
use redis_agent.Base.{ℕ, zero, suc, ◌%◌, ◌^◌, ◌<◌, ◌≡◌, refl, List, [], ◌∷◌, map, some, arith}
use redis_agent.Meta.Partition.{loaded, load_partition}
use redis_agent.Meta.Partition.RoundTrip.{single, range, print, load_partition-print}
use redis_agent.Meta.Partition.Routing.{
  Written, load_partitions, text_of, numbers_of, Lists, written-routed,
}
use redis_agent.Router.Shards.{ShardTable, accepted, shard_init_part, shard_func_part}
use redis_agent.Router.Shards.Table.{listed, listed_all}
use redis_agent.Meta.Partition.Print.{decimal, decimal_on}

abbrev parts : List Written
parts = (range 0 1, single 3 ∷ []) ∷ (single 2, []) ∷ []

-- The bytes of `0-1,3`.
printed : map text_of parts ≡ (48 ∷ 45 ∷ 49 ∷ 44 ∷ 51 ∷ []) ∷ (50 ∷ []) ∷ []
unfolding decimal decimal_on
printed = refl

load_partition-print_example :
    load_partition 4 (print (range 0 1 ∷ single 3 ∷ [])) ≡ loaded (0 ∷ 1 ∷ 3 ∷ [])
load_partition-print_example =
    load_partition-print 4 (range 0 1) (single 3 ∷ []) (omega arith) (omega arith) (omega arith)

each_once : (n : ℕ) → n < 4 → listed_all n (map numbers_of parts) ≡ 1
unfolding listed_all listed
each_once zero h = refl
each_once (suc zero) h = refl
each_once (suc (suc zero)) h = refl
each_once (suc (suc (suc zero))) h = refl
each_once (suc (suc (suc (suc n)))) h = absurd (omega arith)

written-routed_example :
    (tables : List (List ℕ)) × (u : ShardTable) × (load_partitions 4 (map text_of parts)
      ≡ some tables)
    × (shard_init_part 4 tables ≡ accepted u)
    × ((hash : ℕ) → hash % 2 ^ 16 < 4 → Lists parts (shard_func_part u hash) (hash % 2 ^ 16))
written-routed_example = written-routed 4 parts (omega arith) (omega arith) each_once
