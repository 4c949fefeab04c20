-- ===== src/Router/Shards.antt =====
-- The shard table of router.cpp: `_shard_init_part` and `_shard_func_part`.
pub mod Table
use redis_agent.Base.{
  ℕ, zero, suc, ◌+◌, ◌%◌, ◌^◌, List, [], ◌∷◌, Bool, true, false, ltb, ◌==◌, if◌then◌else◌,
}

-- `PARTITION_MOD_KEY`, the size of both arrays.
abbrev pub partition_mod_key : ℕ
partition_mod_key = 65536

-- `_shard_params[router_next_flag].router_map` with the local `partition_check`.
pub record ShardTable : Type 0 where
  pub router_map : ℕ → ℕ
  pub partition_check : ℕ → Bool

-- `fault` is an access behind the end of an array; the other two are the return values -1 and 0.
pub data Built : Type 0 where
  fault : Built
  refused : ShardTable → Built
  accepted : ShardTable → Built

-- Both arrays after `memset`.
abbrev pub cleared : ShardTable
cleared = record { router_map = λ _. 0; partition_check = λ _. false }

abbrev pub allocate : ShardTable → ℕ → ℕ → ShardTable
allocate t p i = record {
  router_map = λ q. if p == q then i else t.router_map q;
  partition_check = λ q. if p == q then true else t.partition_check q;
}

-- The inner loop, over the `num` numbers of partition `i`; `size` is the size of the arrays.
unfoldable pub fill_partition : ℕ → ℕ → List ℕ → ShardTable → Built
fill_partition size i [] t = accepted t
fill_partition size i (p ∷ ps) t =
    let rest = fill_partition size i ps (allocate t p i) in
    if ltb p size then (if t.partition_check p then refused t else rest) else fault

-- The outer loop.
unfoldable pub fill_partitions : ℕ → ℕ → List (List ℕ) → ShardTable → Built
fill_partitions size i [] t = accepted t
fill_partitions size i (ps ∷ parts) t = elim (fill_partition size i ps t) [
  | fault ↦ fault
  | refused t' ↦ refused t'
  | accepted t' ↦ fill_partitions size (i + 1) parts t'
]

-- The last loop: is every number below `n` allocated? It stops at the first that is not.
unfoldable pub all_allocated : ℕ → ShardTable → Bool
all_allocated zero t = true
all_allocated (suc n) t = if all_allocated n t then t.partition_check n else false

unfoldable pub shard_init_part : ℕ → List (List ℕ) → Built
shard_init_part size parts = elim (fill_partitions size 0 parts cleared) [
  | fault ↦ fault
  | refused t ↦ refused t
  | accepted t ↦ if all_allocated size t then accepted t else refused t
]

-- `partition_key & 0xFFFF`, the low 16 bits, and the look-up.
pub shard_func_part : ShardTable → ℕ → ℕ
shard_func_part t partition_key = t.router_map (partition_key % 2 ^ 16)
