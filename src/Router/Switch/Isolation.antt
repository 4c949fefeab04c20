-- ===== src/Router/Switch/Isolation.antt =====
-- The half of the tables of router.cpp that is in use is not touched while the other half is built
-- or torn down.
use redis_agent.Base.{
  ℕ, zero, suc, ◌+◌, ◌*◌, ◌<◌, ◌≡◌, ◌≢◌, refl, sym, ◌∙◌, none, some, Bool, true, false, List, ◌==◌,
  arith, if◌then◌else◌, not,
}
use redis_agent.Base.Int.{pos, ◌-ℤ◌}
use redis_agent.Router.Shards.{Built, fault, refused, accepted, partition_mod_key, shard_init_part}
use redis_agent.Router.Switch.{
  Router, broken, failed, built, set, read_idx, write_idx, get_shard, router_destroy,
  router_on_destroy, router_build, with_table,
}
use redis_agent.Router.Switch.Serving.{prepared}

-- The two flags name the two halves.
pub record Halves (r : Router) : Type 0 where
  pub flag_half : r.flag < 2
  pub next_half : r.next_flag < 2
  pub other : r.flag ≢ r.next_flag

-- A slot of one half is not a slot of the other.
slot_other :
    (f g i j : ℕ)
    → f < 2
    → g < 2
    → f ≢ g
    → i < partition_mod_key
    → j < partition_mod_key
    → (partition_mod_key * f + i == partition_mod_key * g + j) ≡ false
slot_other f g i j hf hg ne hi hj = ground arith

set_other {ℓ} : {A : Type ℓ} (m : ℕ → A) (i j : ℕ) (v : A) → (i == j) ≡ false → set m i v j ≡ m j
set_other m i j v e = rw e refl

-- A configuration that is refused leaves every shard with its pools and the table in use as it was;
-- `router_switching` is cleared just if the mode was 0, so that with another mode it stays set.
pub router_build-failed :
    (size mode : ℕ) (parts : List (List ℕ)) (n : ℕ) (r s : Router)
    → Halves r
    → router_build size mode parts n r ≡ failed s
    → ((i : ℕ) (is_read : Bool) → get_shard s i is_read ≡ get_shard r i is_read)
      × (s.shard_params s.flag ≡ r.shard_params r.flag)
      × (s.switching ≡ not (mode == 0))
unfolding router_build get_shard
router_build-failed size (suc m) parts n r s halves e =
    let same : record (r) { switching = true } ≡ s = cc in
    rw (← same) (λ i b. refl, refl, ground arith)
router_build-failed size zero parts n r s halves e = go (shard_init_part size parts) e
  where
    go :
        (b : Built)
        → (elim b [
          | fault ↦ broken
          | refused t ↦
              failed (record (with_table t (record (r) { switching = true })) { switching = false })
          | accepted t ↦
              built (router_destroy (prepared n t r)).0 (router_destroy (prepared n t r)).1
        ])
          ≡ failed s
        → ((i : ℕ) (is_read : Bool) → get_shard s i is_read ≡ get_shard r i is_read)
          × (s.shard_params s.flag ≡ r.shard_params r.flag)
          × (s.switching ≡ not (zero == 0))
    go fault h = cc
    go (refused t) h =
        let same : record (with_table t (record (r) { switching = true })) { switching = false }
            ≡ s =
          cc in
        rw (← same) (
          λ i b. refl,
          set_other r.shard_params r.next_flag r.flag (some t)
              (let o = halves.other in ground arith),
          ground arith,
        )
    go (accepted t) h = cc

either :
    (b : Bool) (s : Router) (j : ℕ) (is_read : Bool)
    → get_shard (if b then record (s) { switching = false } else s) j is_read
      ≡ get_shard s j is_read
unfolding get_shard
either true s j is_read = refl
either false s j is_read = refl

abbrev without_read : Router → ℕ → Router
without_read r i = record (r) {
  pool_map_r = set r.pool_map_r (partition_mod_key * r.next_flag + i) none;
  pool_num_r = set r.pool_num_r r.next_flag (r.pool_num_r r.next_flag -ℤ pos 1);
}

abbrev without_write : Router → ℕ → Router
without_write r i = record (r) {
  pool_map_w = set r.pool_map_w (partition_mod_key * r.next_flag + i) none;
  pool_num_w = set r.pool_num_w r.next_flag (r.pool_num_w r.next_flag -ℤ pos 1);
}

other_slot :
    (r : Router) (i j : ℕ)
    → Halves r
    → i < partition_mod_key
    → j < partition_mod_key
    → (partition_mod_key * r.next_flag + i == partition_mod_key * r.flag + j) ≡ false
other_slot r i j halves hi hj =
    slot_other r.next_flag r.flag i j halves.next_half halves.flag_half (λ e. halves.other (sym e))
      hi hj

-- The callback of a destroyed pool of the half that is torn down leaves every shard of the half in
-- use with its pools.
pub router_on_destroy-get_shard :
    (r : Router) (i j : ℕ) (of_read is_read : Bool)
    → Halves r
    → i < partition_mod_key
    → j < partition_mod_key
    → get_shard
        (router_on_destroy (if of_read then read_idx r.next_flag i else write_idx r.next_flag i) r)
        j
        is_read
      ≡ get_shard r j is_read
unfolding router_on_destroy get_shard
router_on_destroy-get_shard r i j true true halves hi hj =
    either _ (without_read r i) j true
    ∙ set_other r.pool_map_r _ _ none (other_slot r i j halves hi hj)
router_on_destroy-get_shard r i j true false halves hi hj = either _ (without_read r i) j false
router_on_destroy-get_shard r i j false true halves hi hj = either _ (without_write r i) j true
router_on_destroy-get_shard r i j false false halves hi hj =
    either _ (without_write r i) j false
    ∙ set_other r.pool_map_w _ _ none (other_slot r i j halves hi hj)
