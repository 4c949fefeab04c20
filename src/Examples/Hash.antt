-- ===== src/Examples/Hash.antt =====
-- A configuration of two ranges for tools/shardtool.cpp.
use redis_agent.Base.{ℕ, ◌<◌, ◌≡◌, List, [], ◌∷◌, arith, All}
use redis_agent.Router.Shards.{
  ShardTable, accepted, shard_init_part, shard_func_part, partition_mod_key,
}
use redis_agent.Router.Shards.Table.{listed_all, shard_init_part_iff}
use redis_agent.Hash.{strhash}
use redis_agent.Hash.ShardTool.{
  shard_of, numbers, listed-seq_once, seq-below, shard_of-shard_func_part,
}

abbrev ranges : List (ℕ × ℕ)
ranges = (0, 32767) ∷ (32768, 65535) ∷ []

two_ranges : (u : ShardTable) × (shard_init_part partition_mod_key (numbers ranges) ≡ accepted u)
two_ranges = (shard_init_part_iff partition_mod_key (numbers ranges) below).1 λ p h.
    let first = listed-seq_once p 0 32768 in
    let second = listed-seq_once p 32768 32768 in unfold listed_all in ground (arith, first, second)
  where
    below : All (All (λ q. q < partition_mod_key)) (numbers ranges)
    below = (
      seq-below partition_mod_key 0 32768 (omega arith),
      (seq-below partition_mod_key 32768 32768 (omega arith), tt),
    )

shard_of-shard_func_part_example :
    shard_of ranges (97 ∷ []) ≡ shard_func_part two_ranges.0 (strhash (97 ∷ []))
shard_of-shard_func_part_example =
    shard_of-shard_func_part ranges two_ranges.0 (97 ∷ [])
      (omega arith, omega arith, (omega arith, omega arith, tt)) two_ranges.1
