-- ===== src/Examples/Router.antt =====
-- Requests and configurations for router.cpp.
use redis_agent.Base.{
  ℕ, ◌+◌, ◌<◌, ◌%◌, ◌^◌, ◌≡◌, ◌↔◌, refl, List, [], ◌∷◌, Option, some, Bool, true, false, not, arith,
  ◌==◌, if◌then◌else◌,
}
use redis_agent.Base.Int.{ℤ, pos, negsuc}
use redis_agent.Router.Sort.{Batch, quicksort}
use redis_agent.Router.Sort.Correct.{Sorted, quicksort-Sorted}
use redis_agent.Router.Acquire.{acquire_shards}
use redis_agent.Router.Acquire.Groups.{Grouped, calls, acquire_shards-Grouped}
use redis_agent.Router.Shards.{
  ShardTable, Built, fault, refused, accepted, cleared, shard_init_part, shard_func_part,
  fill_partitions, fill_partition, all_allocated,
}
use redis_agent.Router.Shards.Table.{listed_all, Owns, shard_init_part_iff, shard_func_part-Owns}
use redis_agent.Router.Switch.{
  Router, built, router_init, router_build, router_destroy, router_on_destroy, read_idx, write_idx,
  get_shard,
}
use redis_agent.Router.Switch.Serving.{prepared, as_built, router_build-get_shard}
use redis_agent.Router.Switch.Isolation.{Halves, router_build-failed, router_on_destroy-get_shard}
use redis_agent.Router.Switch.Handover.{on_destroys, on_destroys-switching}

-- Three keys of the shards 2, 0 and 1.
abbrev keys : Batch
keys i = record {
  key = i ∷ [];
  value = i;
  shard_key = if i == 0 then 2 else (if i == 1 then 0 else 1);
}

-- Keys of one byte go to shard 0 or 1.
abbrev parity : List ℕ → ℕ
parity [] = 0
parity (b ∷ bs) = b % 2

quicksort-Sorted_example : Sorted keys 0 3 (quicksort 3 keys 0 3)
quicksort-Sorted_example = quicksort-Sorted 3 keys 0 3 (omega arith)

acquire_shards-Grouped_example :
    Grouped (acquire_shards parity keys 3).0 0 3 0 (calls (acquire_shards parity keys 3).1)
acquire_shards-Grouped_example = acquire_shards-Grouped parity keys 3 (omega arith)

-- Two partitions of the numbers below 4.
abbrev two_parts : List (List ℕ)
two_parts = (0 ∷ 2 ∷ []) ∷ (1 ∷ 3 ∷ []) ∷ []

shard_init_part_iff_example :
    ((u : ShardTable) × (shard_init_part 4 two_parts ≡ accepted u))
    ↔ ((p : ℕ) → p < 4 → listed_all p two_parts ≡ 1)
shard_init_part_iff_example =
    shard_init_part_iff 4 two_parts
      ((omega arith, (omega arith, tt)), ((omega arith, (omega arith, tt)), tt))

abbrev table_of : Built → ShardTable
table_of fault = cleared
table_of (refused t) = t
table_of (accepted t) = t

two_parts_accepted : shard_init_part 4 two_parts ≡ accepted (table_of (shard_init_part 4 two_parts))
unfolding shard_init_part fill_partitions fill_partition all_allocated
two_parts_accepted = refl

shard_func_part-Owns_example :
    Owns two_parts (shard_func_part (table_of (shard_init_part 4 two_parts)) 65539) (65539 % 2 ^ 16)
shard_func_part-Owns_example =
    shard_func_part-Owns 4 two_parts (table_of (shard_init_part 4 two_parts)) 65539
      two_parts_accepted (omega arith)

abbrev first_build : Router × List (Option ℤ)
first_build = router_destroy (prepared 2 (table_of (shard_init_part 4 two_parts)) router_init)

first_build_built : router_build 4 0 two_parts 2 router_init ≡ built first_build.0 first_build.1
unfolding router_build shard_init_part fill_partitions fill_partition all_allocated
first_build_built = refl

router_build-get_shard_example :
    (get_shard first_build.0 1 true ≡ some (read_idx router_init.next_flag 1))
    × (get_shard first_build.0 1 false ≡ some (write_idx router_init.next_flag 1))
    × (as_built (first_build.0.shard_params first_build.0.flag) ≡ shard_init_part 4 two_parts)
router_build-get_shard_example =
    router_build-get_shard 4 0 two_parts 2 router_init first_build.0 first_build.1 1
      first_build_built (omega arith)

init_Halves : Halves router_init
unfolding router_init
init_Halves = record { flag_half = omega arith; next_half = omega arith; other = λ e. omega arith }

-- A mode that is not supported.
router_build-failed_example :
    ((i : ℕ) (is_read : Bool)
      → get_shard (record (router_init) { switching = true }) i is_read
        ≡ get_shard router_init i is_read)
    × (router_init.shard_params router_init.flag ≡ router_init.shard_params router_init.flag)
    × (true ≡ not (1 == 0))
unfolding router_build
router_build-failed_example =
    router_build-failed 4 1 two_parts 2 router_init (record (router_init) { switching = true })
      init_Halves refl

router_on_destroy-get_shard_example :
    get_shard (router_on_destroy (write_idx router_init.next_flag 1) router_init) 1 false
    ≡ get_shard router_init 1 false
router_on_destroy-get_shard_example =
    router_on_destroy-get_shard router_init 1 1 false false init_Halves (omega arith) (omega arith)

-- Two old pools are left, a read pool and a write pool.
abbrev tearing : Router
tearing = record (router_init) {
  switching = true;
  pool_num_r = λ f. pos 1;
  pool_num_w = λ f. pos 1;
}

on_destroys-switching_example :
    (on_destroys (negsuc 0 ∷ pos 0 ∷ []) tearing).switching ≡ (if 0 + 0 == 0 then false else true)
on_destroys-switching_example =
    on_destroys-switching (negsuc 0 ∷ pos 0 ∷ []) tearing 0 0 refl refl refl (omega arith)
