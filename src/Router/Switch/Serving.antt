-- ===== src/Router/Switch/Serving.antt =====
-- Which pools the two halves of the tables of router.cpp hold.
use redis_agent.Base.{
  ℕ, zero, suc, ◌+◌, ◌*◌, ◌<◌, ◌≡◌, refl, sym, ◌∙◌, ap, inl, inr, Option, none, some, true, false,
  ◌&&◌, List, ltb, arith, Bool-cases, if◌then◌else◌,
}
use redis_agent.Base.Int.{ℤ, pos, eqb_ℤ}
use redis_agent.Router.Shards.{
  Built, fault, refused, accepted, partition_mod_key, shard_init_part, ShardTable,
}
use redis_agent.Router.Switch.{
  Router, broken, failed, built, read_idx, write_idx, build_read, build_write, shard_build_pool,
  get_shard, router_destroy, router_build, with_table, switched,
}
use redis_agent.Router.Switch.Handover.{set_at}

-- What the loops of `_shard_build_pool` leave alone.
pub record SameFlags (r t : Router) : Type 0 where
  pub flag : t.flag ≡ r.flag
  pub next_flag : t.next_flag ≡ r.next_flag
  pub switching : t.switching ≡ r.switching
  pub shard_params : t.shard_params ≡ r.shard_params

pub build_read-flags :
    (n : ℕ) (r : Router)
    → SameFlags r (build_read n r) × ((build_read n r).pool_map_w ≡ r.pool_map_w)
unfolding build_read
build_read-flags zero r =
    (record { flag = refl; next_flag = refl; switching = refl; shard_params = refl }, refl)
build_read-flags (suc n) r =
    let (s, w) = build_read-flags n r in
    (
      record {
        flag = s.flag;
        next_flag = s.next_flag;
        switching = s.switching;
        shard_params = s.shard_params;
      },
      w,
    )

pub build_write-flags :
    (n : ℕ) (r : Router)
    → SameFlags r (build_write n r) × ((build_write n r).pool_map_r ≡ r.pool_map_r)
unfolding build_write
build_write-flags zero r =
    (record { flag = refl; next_flag = refl; switching = refl; shard_params = refl }, refl)
build_write-flags (suc n) r =
    let (s, w) = build_write-flags n r in
    (
      record {
        flag = s.flag;
        next_flag = s.next_flag;
        switching = s.switching;
        shard_params = s.shard_params;
      },
      w,
    )

-- After the first loop the slots of the half that is built hold the read pools, and no other slot
-- has changed.
build_read-slots :
    (n : ℕ) (r : Router) (j : ℕ)
    → (build_read n r).pool_map_r (partition_mod_key * r.next_flag + j) ≡ (
        if ltb j n
        then some (read_idx r.next_flag j)
        else r.pool_map_r (partition_mod_key * r.next_flag + j))
unfolding build_read
build_read-slots zero r j = ground arith
build_read-slots (suc n) r j =
    let (s, _) = build_read-flags n r in rw (s.next_flag) (ground (arith, build_read-slots n r j))

build_write-slots :
    (n : ℕ) (r : Router) (j : ℕ)
    → (build_write n r).pool_map_w (partition_mod_key * r.next_flag + j) ≡ (
        if ltb j n
        then some (write_idx r.next_flag j)
        else r.pool_map_w (partition_mod_key * r.next_flag + j))
unfolding build_write
build_write-slots zero r j = ground arith
build_write-slots (suc n) r j =
    let (s, _) = build_write-flags n r in rw (s.next_flag) (ground (arith, build_write-slots n r j))

-- The router that `router_build` hands to `router_destroy`.
abbrev pub prepared : ℕ → ShardTable → Router → Router
prepared n t r = switched (shard_build_pool n (with_table t (record (r) { switching = true })))

-- A build that got through.
record Through (size : ℕ) (parts : List (List ℕ)) (n : ℕ) (r s : Router) (ds : List (Option ℤ))
    : Type 0 where
  table : ShardTable
  accepted_table : shard_init_part size parts ≡ accepted table
  result : s ≡ (router_destroy (prepared n table r)).0
  destroyed : ds ≡ (router_destroy (prepared n table r)).1

router_build-Through :
    (size mode : ℕ) (parts : List (List ℕ)) (n : ℕ) (r s : Router) (ds : List (Option ℤ))
    → router_build size mode parts n r ≡ built s ds
    → Through size parts n r s ds
unfolding router_build
router_build-Through size (suc m) parts n r s ds e = cc
router_build-Through size zero parts n r s ds e = go (shard_init_part size parts) refl e
  where
    go :
        (b : Built)
        → shard_init_part size parts ≡ b
        → (elim b [
          | fault ↦ broken
          | refused t ↦
              failed (record (with_table t (record (r) { switching = true })) { switching = false })
          | accepted t ↦
              built (router_destroy (prepared n t r)).0 (router_destroy (prepared n t r)).1
        ])
          ≡ built s ds
        → Through size parts n r s ds
    go fault e h = cc
    go (refused t) e h = cc
    go (accepted t) e h = record { table = t; accepted_table = e; result = cc; destroyed = cc }

destroy-keeps :
    (r : Router)
    → let t = (router_destroy r).0 in
      (t.flag ≡ r.flag)
      × (t.pool_map_r ≡ r.pool_map_r)
      × (t.pool_map_w ≡ r.pool_map_w)
      × (t.shard_params ≡ r.shard_params)
unfolding router_destroy
destroy-keeps r =
    elim (Bool-cases
      (eqb_ℤ (r.pool_num_r r.next_flag) (pos 0) && eqb_ℤ (r.pool_num_w r.next_flag) (pos 0))) [
        | inl e ↦ rw (router_destroy, e) (refl, refl, refl, refl)
        | inr e ↦ rw (router_destroy, e) (refl, refl, refl, refl)
      ]

-- A table in use as the outcome of the run that made it.
abbrev pub as_built : Option ShardTable → Built
as_built none = fault
as_built (some t) = accepted t

-- After a build that got through, each shard of the configuration has its two new pools in use,
-- the read pool with the index of its slot and the write pool with the negative index of its slot,
-- and the shard table in use is the one just made.
pub router_build-get_shard :
    (size mode : ℕ) (parts : List (List ℕ)) (n : ℕ) (r s : Router) (ds : List (Option ℤ)) (i : ℕ)
    → router_build size mode parts n r ≡ built s ds
    → i < n
    → (get_shard s i true ≡ some (read_idx r.next_flag i))
      × (get_shard s i false ≡ some (write_idx r.next_flag i))
      × (as_built (s.shard_params s.flag) ≡ shard_init_part size parts)
unfolding get_shard shard_build_pool
router_build-get_shard size mode parts n r s ds i e h =
    let through = router_build-Through size mode parts n r s ds e in
    let t = through.table in
    let r₁ = with_table t (record (r) { switching = true }) in
    let u = prepared n t r in
    let (flag, maps_r, maps_w, params) = destroy-keeps u in
    let (flags, keep_w) = build_read-flags n r₁ in
    let (flags', keep_r) = build_write-flags n (build_read n r₁) in
    let next : u.flag ≡ r.next_flag = flags'.next_flag ∙ flags.next_flag in
    let slot_r = build_read-slots n r₁ i in
    let slot_w = build_write-slots n (build_read n r₁) i in
    rw (through.result) (
      rw (flag, maps_r, next)
          (ap (λ m. m (partition_mod_key * r.next_flag + i)) keep_r ∙ slot_r ∙ ground (arith, h)),
      rw (flag, maps_w, next) (ground (arith, slot_w, flags.next_flag, h)),
      rw (flag, params, next)
          (ap (λ m. as_built (m r.next_flag)) (flags'.shard_params ∙ flags.shard_params)
            ∙ ap as_built (set_at r.shard_params r.next_flag (some t))
            ∙ sym through.accepted_table),
    )
