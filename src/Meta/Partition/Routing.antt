-- ===== src/Meta/Partition/Routing.antt =====
-- From the texts of a configuration (meta.cpp) to the partition of a key (router.cpp).
use redis_agent.Base.{
  ℕ, zero, suc, ◌%◌, ◌^◌, ◌≤◌, ◌<◌, ◌≡◌, refl, Option, none, some, List, [], ◌∷◌, map, get_elem?,
  All, length,
}
use redis_agent.Meta.Partition.{Loaded, fault, refused, loaded, load_partition}
use redis_agent.Meta.Partition.RoundTrip.{Word, Fits, print, all_numbers, load_partition-print}
use redis_agent.Router.Shards.{ShardTable, accepted, shard_init_part, shard_func_part}
use redis_agent.Router.Shards.Table.{
  listed, listed_all, Owns, shard_init_part_iff, shard_func_part-Owns,
}

abbrev and_then : Loaded → Option (List (List ℕ)) → Option (List (List ℕ))
and_then (loaded ns) (some rest) = some (ns ∷ rest)
and_then (loaded ns) none = none
and_then refused rest = none
and_then fault rest = none

-- The loop of `_meta_load_conf` over the texts of the partitions. It goes on behind a text that is
-- refused, with what was stored before the refused word; that case is left open here (`none`).
unfoldable pub load_partitions : ℕ → List (List ℕ) → Option (List (List ℕ))
load_partitions key [] = some []
load_partitions key (text ∷ texts) = and_then (load_partition key text) (load_partitions key texts)

-- A partition that lists at least one word.
abbrev pub Written : Type 0
Written = Word × List Word

abbrev pub text_of : Written → List ℕ
text_of (w, ws) = print (w ∷ ws)

abbrev pub numbers_of : Written → List ℕ
numbers_of (w, ws) = all_numbers (w ∷ ws)

abbrev pub WellWritten : ℕ → Written → Type 0
WellWritten key (w, ws) =
    All (Fits key) (w ∷ ws)
    × (length (all_numbers (w ∷ ws)) ≤ key)
    × All (λ n. n < key) (all_numbers (w ∷ ws))

texts_read :
    (key : ℕ) (ps : List Written)
    → key < 2 ^ 32
    → All (WellWritten key) ps
    → load_partitions key (map text_of ps) ≡ some (map numbers_of ps)
unfolding load_partitions
texts_read key [] small h = refl
texts_read key ((w, ws) ∷ ps) small h =
    let first = load_partition-print key w ws small h.0.0 h.0.1 in
    let rest = texts_read key ps small h.1 in rw (first, rest) refl

numbers_below :
    (key : ℕ) (ps : List Written)
    → All (WellWritten key) ps
    → All (All (λ n. n < key)) (map numbers_of ps)
numbers_below key [] h = tt
numbers_below key ((w, ws) ∷ ps) h = (h.0.2, numbers_below key ps h.1)

-- Which partition lists a number.
abbrev pub Lists : List Written → ℕ → ℕ → Type 0
Lists ps k n = (w : Written) × (get_elem? ps k ≡ some w) × (0 < listed n (numbers_of w))

Owns-Lists : (ps : List Written) (k n : ℕ) → Owns (map numbers_of ps) k n → Lists ps k n
Owns-Lists [] k n (ns, e, h) = cc
Owns-Lists (p ∷ ps) zero n (ns, e, h) = let same : numbers_of p ≡ ns = cc in (p, refl, rw same h)
Owns-Lists (p ∷ ps) (suc k) n (ns, e, h) = Owns-Lists ps k n (ns, e, h)

-- A configuration whose texts list every number below the size of the arrays once, in all of them
-- together, is loaded and accepted, and every hash whose low 16 bits lie below that size is sent to a
-- partition whose text lists those bits. (Each text has room in its array.)
pub written-routed :
    (key : ℕ) (ps : List Written)
    → key < 2 ^ 32
    → All (WellWritten key) ps
    → ((n : ℕ) → n < key → listed_all n (map numbers_of ps) ≡ 1)
    → (parts : List (List ℕ)) × (u : ShardTable) × (load_partitions key (map text_of ps)
        ≡ some parts)
      × (shard_init_part key parts ≡ accepted u)
      × ((hash : ℕ) → hash % 2 ^ 16 < key → Lists ps (shard_func_part u hash) (hash % 2 ^ 16))
written-routed key ps small h once =
    let parts = map numbers_of ps in
    let (u, built) = (shard_init_part_iff key parts (numbers_below key ps h)).1 once in
    (
      parts,
      u,
      texts_read key ps small h,
      built,
      λ hash below.
          Owns-Lists ps (shard_func_part u hash) (hash % 2 ^ 16)
            (shard_func_part-Owns key parts u hash built below),
    )
