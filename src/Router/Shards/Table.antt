-- ===== src/Router/Shards/Table.antt =====
-- When a configuration of partitions is accepted, and what the table then holds.
use redis_agent.Base.{
  ℕ, zero, suc, ◌+◌, ◌%◌, ◌^◌, ◌≤◌, ◌<◌, ◌≡◌, refl, ◌↔◌, inl, inr, List, [], ◌∷◌, some, Bool, true,
  false, arith, ltb, ◌==◌, Bool-cases, get_elem?, All, if◌then◌else◌,
}
use redis_agent.Router.Shards.{
  ShardTable, Built, fault, refused, accepted, cleared, allocate, fill_partition, fill_partitions,
  all_allocated, shard_init_part, shard_func_part,
}

abbrev one_if : Bool → ℕ
one_if true = 1
one_if false = 0

-- How often a number is listed in a partition, and in all of them.
unfoldable pub listed : ℕ → List ℕ → ℕ
listed p [] = 0
listed p (q ∷ ps) = one_if (q == p) + listed p ps

unfoldable pub listed_all : ℕ → List (List ℕ) → ℕ
listed_all p [] = 0
listed_all p (ps ∷ parts) = listed p ps + listed_all p parts

fill_partition-listed :
    (size i : ℕ) (ps : List ℕ) (t u : ShardTable)
    → fill_partition size i ps t ≡ accepted u
    → (p : ℕ)
    → (one_if (u.partition_check p) ≡ one_if (t.partition_check p) + listed p ps)
      × (listed p ps ≡ 0 → u.router_map p ≡ t.router_map p)
      × (0 < listed p ps → u.router_map p ≡ i)
unfolding fill_partition listed
fill_partition-listed size i [] t u e p = ground arith
fill_partition-listed size i (q ∷ ps) t u e p =
    ground (arith, fill_partition-listed size i ps (allocate t q i) u (ground arith) p)

-- A run that gets through the first partition of a list.
fill_partitions-cons :
    (size i : ℕ) (ps : List ℕ) (parts : List (List ℕ)) (t u : ShardTable)
    → fill_partitions size i (ps ∷ parts) t ≡ accepted u
    → (t' : ShardTable) × (fill_partition size i ps t ≡ accepted t')
      × (fill_partitions size (i + 1) parts t' ≡ accepted u)
unfolding fill_partitions
fill_partitions-cons size i ps parts t u = go (fill_partition size i ps t) refl
  where
    go :
        (b : Built)
        → fill_partition size i ps t ≡ b
        → (elim b [
          | fault ↦ fault
          | refused t' ↦ refused t'
          | accepted t' ↦ fill_partitions size (i + 1) parts t'
        ])
          ≡ accepted u
        → (t' : ShardTable) × (fill_partition size i ps t ≡ accepted t')
          × (fill_partitions size (i + 1) parts t' ≡ accepted u)
    go fault e h = cc
    go (refused t') e h = cc
    go (accepted t') e h = (t', e, h)

fill_partitions-listed :
    (size i : ℕ) (parts : List (List ℕ)) (t u : ShardTable)
    → fill_partitions size i parts t ≡ accepted u
    → (p : ℕ)
    → (one_if (u.partition_check p) ≡ one_if (t.partition_check p) + listed_all p parts)
      × (listed_all p parts ≡ 0 → u.router_map p ≡ t.router_map p)
unfolding listed_all
fill_partitions-listed size i [] t u e p =
    let same : t ≡ u = unfold fill_partitions in cc in rw same (omega arith, λ _. refl)
fill_partitions-listed size i (ps ∷ parts) t u e p =
    let (t', first, others) = fill_partitions-cons size i ps parts t u e in
    ground (
      arith,
      fill_partition-listed size i ps t t' first p,
      fill_partitions-listed size (i + 1) parts t' u others p,
    )

-- Partition `k` lists `p`.
abbrev pub Owns : List (List ℕ) → ℕ → ℕ → Type 0
Owns parts k p = (ps : List ℕ) × (get_elem? parts k ≡ some ps) × (0 < listed p ps)

fill_partitions-Owns :
    (size i : ℕ) (parts : List (List ℕ)) (t u : ShardTable)
    → fill_partitions size i parts t ≡ accepted u
    → (p : ℕ) → 0 < listed_all p parts
    → (k : ℕ) × (u.router_map p ≡ i + k) × Owns parts k p
unfolding listed_all
fill_partitions-Owns size i [] t u e p h = elim h [ ]
fill_partitions-Owns size i (ps ∷ parts) t u e p h =
    let (t', first, others) = fill_partitions-cons size i ps parts t u e in
    let here = fill_partition-listed size i ps t t' first p in
    let later = fill_partitions-listed size (i + 1) parts t' u others p in
    elim (Bool-cases (ltb 0 (listed_all p parts))) [
      | inl more ↦
          let (k, at, owns) =
            fill_partitions-Owns size (i + 1) parts t' u others p (ground arith) in
          (suc k, omega (arith, at), owns)
      | inr last ↦ (0, ground (arith, here, later), (ps, refl, ground arith))
    ]

all_allocated_sound :
    (n : ℕ) (t : ShardTable)
    → all_allocated n t ≡ true
    → (p : ℕ) → p < n
    → t.partition_check p ≡ true
unfolding all_allocated
all_allocated_sound zero t e p h = elim h [ ]
all_allocated_sound (suc n) t e p h = ground (arith, all_allocated_sound n t (ground arith) p)

all_allocated_complete :
    (n : ℕ) (t : ShardTable)
    → ((p : ℕ) → p < n → t.partition_check p ≡ true)
    → all_allocated n t ≡ true
unfolding all_allocated
all_allocated_complete zero t h = refl
all_allocated_complete (suc n) t h =
    ground (arith, h n (omega arith), all_allocated_complete n t (λ p q. h p (omega arith)))

fill_partition-accepts :
    (size i : ℕ) (ps : List ℕ) (t : ShardTable)
    → All (λ q. q < size) ps
    → ((p : ℕ) → one_if (t.partition_check p) + listed p ps ≤ 1)
    → (u : ShardTable) × (fill_partition size i ps t ≡ accepted u)
unfolding fill_partition listed
fill_partition-accepts size i [] t small once = (t, refl)
fill_partition-accepts size i (q ∷ ps) t small once =
    let (u, e) =
      fill_partition-accepts size i ps (allocate t q i) small.1 (λ p. ground (arith, once p)) in
    (u, ground (arith, once q, small.0, e))

fill_partitions-accepts :
    (size i : ℕ) (parts : List (List ℕ)) (t : ShardTable)
    → All (All (λ q. q < size)) parts
    → ((p : ℕ) → one_if (t.partition_check p) + listed_all p parts ≤ 1)
    → (u : ShardTable) × (fill_partitions size i parts t ≡ accepted u)
unfolding fill_partitions listed_all
fill_partitions-accepts size i [] t small once = (t, refl)
fill_partitions-accepts size i (ps ∷ parts) t small once =
    let (t', e) = fill_partition-accepts size i ps t small.0 (λ p. omega (arith, once p)) in
    let (u, e') =
      fill_partitions-accepts size (i + 1) parts t' small.1
        (λ p. ground (arith, once p, fill_partition-listed size i ps t t' e p)) in
    (u, rw (e, fill_partitions) e')

listed_above : (size p : ℕ) (ps : List ℕ) → size ≤ p → All (λ q. q < size) ps → listed p ps ≡ 0
unfolding listed
listed_above size p [] h small = refl
listed_above size p (q ∷ ps) h small = ground (arith, listed_above size p ps h small.1, small.0)

listed_all_above :
    (size p : ℕ) (parts : List (List ℕ))
    → size ≤ p
    → All (All (λ q. q < size)) parts
    → listed_all p parts ≡ 0
unfolding listed_all
listed_all_above size p [] h small = refl
listed_all_above size p (ps ∷ parts) h small =
    omega (arith, listed_above size p ps h small.0, listed_all_above size p parts h small.1)

shard_init_part-accepted :
    (size : ℕ) (parts : List (List ℕ)) (u : ShardTable)
    → shard_init_part size parts ≡ accepted u
    → (fill_partitions size 0 parts cleared ≡ accepted u) × (all_allocated size u ≡ true)
unfolding shard_init_part
shard_init_part-accepted size parts u = go (fill_partitions size 0 parts cleared) refl
  where
    go :
        (b : Built)
        → fill_partitions size 0 parts cleared ≡ b
        → (elim b [
          | fault ↦ fault
          | refused t ↦ refused t
          | accepted t ↦ if all_allocated size t then accepted t else refused t
        ])
          ≡ accepted u
        → (fill_partitions size 0 parts cleared ≡ accepted u) × (all_allocated size u ≡ true)
    go fault e h = cc
    go (refused t) e h = cc
    go (accepted t) e h = ground arith

-- A configuration whose numbers all lie below the size of the arrays is accepted exactly when
-- every number below that size is listed once, over all partitions together.
pub shard_init_part_iff :
    (size : ℕ) (parts : List (List ℕ))
    → All (All (λ q. q < size)) parts
    → ((u : ShardTable) × (shard_init_part size parts ≡ accepted u))
      ↔ ((p : ℕ) → p < size → listed_all p parts ≡ 1)
unfolding shard_init_part
shard_init_part_iff size parts small = (forth, back)
  where
    forth :
        (u : ShardTable) × (shard_init_part size parts ≡ accepted u)
        → (p : ℕ) → p < size
        → listed_all p parts ≡ 1
    forth (u, e) p h =
        let (filled, all) = shard_init_part-accepted size parts u e in
        ground (
          arith,
          fill_partitions-listed size 0 parts cleared u filled p,
          all_allocated_sound size u all p h,
        )

    at_most_once : ((p : ℕ) → p < size → listed_all p parts ≡ 1) → (p : ℕ) → listed_all p parts ≤ 1
    at_most_once once p = elim (Bool-cases (ltb p size)) [
      | inl e ↦ omega (arith, once p (ground arith))
      | inr e ↦ omega (arith, listed_all_above size p parts (ground arith) small)
    ]

    back :
        ((p : ℕ) → p < size → listed_all p parts ≡ 1)
        → (u : ShardTable) × (shard_init_part size parts ≡ accepted u)
    back once =
        let (u, filled) =
          fill_partitions-accepts size 0 parts cleared small
            (λ p. omega (arith, at_most_once once p)) in
        (
          u,
          rw (filled, shard_init_part)
              (rw (
                all_allocated_complete size u (λ p h.
                  ground
                    (arith, once p h, fill_partitions-listed size 0 parts cleared u filled p)))),
        )

-- With an accepted table, a hash whose low 16 bits lie below the size of the arrays is sent to a
-- partition of the configuration that lists those bits. (The arrays have 2 ^ 16 places.)
pub shard_func_part-Owns :
    (size : ℕ) (parts : List (List ℕ)) (u : ShardTable) (hash : ℕ)
    → shard_init_part size parts ≡ accepted u
    → hash % 2 ^ 16 < size
    → Owns parts (shard_func_part u hash) (hash % 2 ^ 16)
unfolding shard_func_part
shard_func_part-Owns size parts u hash e h =
    let (filled, all) = shard_init_part-accepted size parts u e in
    let (k, at, owns) = fill_partitions-Owns size 0 parts cleared u filled (hash % 2 ^ 16) (
      ground (
        arith,
        fill_partitions-listed size 0 parts cleared u filled (hash % 2 ^ 16),
        all_allocated_sound size u all (hash % 2 ^ 16) h,
      )) in
    let same : u.router_map (hash % 2 ^ 16) ≡ k = omega (arith, at) in rw same owns
