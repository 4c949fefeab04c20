-- ===== src/Router/Switch.antt =====
-- The double buffer of router.cpp: two halves of the pool tables, one in use and one being built or
-- torn down, as `router_flag` and `router_next_flag` say.
pub mod Handover
pub mod Serving
pub mod Isolation
use redis_agent.Base.{
  ℕ, zero, suc, ◌+◌, ◌-◌, ◌*◌, Option, none, some, Bool, true, false, ◌&&◌, List, [], ◌∷◌, ◌++◌,
  ◌==◌, if◌then◌else◌,
}
use redis_agent.Base.Int.{ℤ, pos, negsuc, pos_part, ◌+ℤ◌, ◌-ℤ◌, eqb_ℤ}
use redis_agent.Router.Shards.{
  Built, fault, refused, accepted, partition_mod_key, shard_init_part, ShardTable,
}

-- The globals of router.cpp. A pool is its `m_poolIdx`, which is also what its slot holds; the two
-- shard tables are those of Router/Shards.
pub record Router : Type 0 where
  pub flag : ℕ
  pub next_flag : ℕ
  pub switching : Bool
  pub pool_map_r : ℕ → Option ℤ
  pub pool_map_w : ℕ → Option ℤ
  pub pool_num_r : ℕ → ℤ
  pub pool_num_w : ℕ → ℤ
  pub shard_params : ℕ → Option ShardTable

abbrev pub set {ℓ} : {A : Type ℓ} → (ℕ → A) → ℕ → A → ℕ → A
set m i v j = if i == j then v else m j

-- `router_init`
unfoldable pub router_init : Router
router_init = record {
  flag = 1;
  next_flag = 0;
  switching = false;
  pool_map_r = λ i. none;
  pool_map_w = λ i. none;
  pool_num_r = λ f. pos 0;
  pool_num_w = λ f. pos 0;
  shard_params = λ f. none;
}

-- The index a read pool and a write pool of shard `i` of half `f` are built with.
abbrev pub read_idx : ℕ → ℕ → ℤ
read_idx f i = pos (partition_mod_key * f + i)

-- `-PARTITION_MOD_KEY*f - i - 1`
abbrev pub write_idx : ℕ → ℕ → ℤ
write_idx f i = negsuc (partition_mod_key * f + i)

-- The loops of `_shard_build_pool`, for the first `n` partitions.
pub build_read : ℕ → Router → Router
build_read zero r = r
build_read (suc n) r =
    let s = build_read n r in
    let f = s.next_flag in
    record (s) {
      pool_map_r = set s.pool_map_r (partition_mod_key * f + n) (some (read_idx f n));
      pool_num_r = set s.pool_num_r f (s.pool_num_r f +ℤ pos 1);
    }

pub build_write : ℕ → Router → Router
build_write zero r = r
build_write (suc n) r =
    let s = build_write n r in
    let f = s.next_flag in
    record (s) {
      pool_map_w = set s.pool_map_w (partition_mod_key * f + n) (some (write_idx f n));
      pool_num_w = set s.pool_num_w f (s.pool_num_w f +ℤ pos 1);
    }

pub shard_build_pool : ℕ → Router → Router
shard_build_pool partition_num r = build_write partition_num (build_read partition_num r)

-- `_get_shard`
pub get_shard : Router → ℕ → Bool → Option ℤ
get_shard r shard_key is_read =
    if is_read
    then r.pool_map_r (partition_mod_key * r.flag + shard_key)
    else r.pool_map_w (partition_mod_key * r.flag + shard_key)

-- The slots from `i` on for which `router_destroy` calls `pool_destroy`; a slot without a pool is a
-- fault there.
pub slots : (ℕ → Option ℤ) → ℕ → ℕ → List (Option ℤ)
slots m i zero = []
slots m i (suc n) = m i ∷ slots m (i + 1) n

-- `router_destroy`, with the pools it calls `pool_destroy` for.
pub router_destroy : Router → Router × List (Option ℤ)
router_destroy r =
    let f = r.next_flag in
    let n = r.pool_num_r f in
    let k = r.pool_num_w f in
    if eqb_ℤ n (pos 0) && eqb_ℤ k (pos 0) then (record (r) { switching = false }, []) else (
      r,
      slots r.pool_map_r (partition_mod_key * f) (pos_part n)
          ++ slots r.pool_map_w (partition_mod_key * f) (pos_part k),
    )

-- `_router_on_destroy` of the pool with the index `idx`.
pub router_on_destroy : ℤ → Router → Router
router_on_destroy (pos i) r =
    let f = r.next_flag in
    let s = record (r) {
      pool_map_r = set r.pool_map_r i none;
      pool_num_r = set r.pool_num_r f (r.pool_num_r f -ℤ pos 1);
    } in
    if eqb_ℤ (s.pool_num_r f) (pos 0) && eqb_ℤ (s.pool_num_w f) (pos 0)
    then record (s) { switching = false }
    else s
router_on_destroy (negsuc i) r =
    let f = r.next_flag in
    let s = record (r) {
      pool_map_w = set r.pool_map_w i none;
      pool_num_w = set r.pool_num_w f (r.pool_num_w f -ℤ pos 1);
    } in
    if eqb_ℤ (s.pool_num_r f) (pos 0) && eqb_ℤ (s.pool_num_w f) (pos 0)
    then record (s) { switching = false }
    else s

-- What `router_build` ends in.
pub data Outcome : Type 0 where
  broken : Outcome
  failed : Router → Outcome
  built : Router → List (Option ℤ) → Outcome

abbrev pub with_table : ShardTable → Router → Router
with_table t r = record (r) { shard_params = set r.shard_params r.next_flag (some t) }

abbrev pub switched : Router → Router
switched r = record (r) { flag = r.next_flag; next_flag = if r.next_flag == 0 then 1 else 0 }

-- `router_build` on a configuration with the given mode and partitions; `size` is the size of the
-- tables of `_shard_init_part`, `PARTITION_MOD_KEY`.
unfoldable pub router_build : ℕ → ℕ → List (List ℕ) → ℕ → Router → Outcome
router_build size shard_mode parts partition_num r₀ =
    let r = record (r₀) { switching = true } in
    elim shard_mode [
      | zero ↦ elim (shard_init_part size parts) [
        | fault ↦ broken
        | refused t ↦ failed (record (with_table t r) { switching = false })
        | accepted t ↦
            let s = switched (shard_build_pool partition_num (with_table t r)) in
            let d = router_destroy s in built d.0 d.1
      ]
      | suc m ↦ failed r
    ]
