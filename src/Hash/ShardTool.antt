-- ===== src/Hash/ShardTool.antt =====
-- tools/shardtool.cpp: the shard of a key by the ends of the shards' ranges, and the router's answer.
use Prim.Native.Nat.{zero, suc}
use redis_agent.Base.{
  ℕ, ◌+◌, ◌-◌, ◌%◌, ◌^◌, ◌<◌, ◌≤◌, ◌≡◌, List, [], ◌∷◌, arith, leb, ◌==◌, if◌then◌else◌, Bool-cases,
  inl, inr, map, All, ltb, ◌&&◌,
}
use mathlib.Core.Option.{some_inj}
use redis_agent.Router.Shards.{
  ShardTable, accepted, shard_init_part, shard_func_part, partition_mod_key,
}
use redis_agent.Router.Shards.Table.{listed, Owns, shard_func_part-Owns}
use redis_agent.Hash.{strhash}

-- The loop that looks for the first shard whose end is not below the value.
unfoldable pub find_shard : List ℕ → ℕ → ℕ
find_shard [] value = 0
find_shard (e ∷ ends) value =
    let later = find_shard ends value in if leb value e then 0 else suc later

-- The shard that `main` prints for a key, from the pairs that sscanf reads.
unfoldable pub shard_of : List (ℕ × ℕ) → List ℕ → ℕ
shard_of ranges key = find_shard (map (λ r. r.1) ranges) (strhash key % 2 ^ 16)

-- The numbers of the ranges, as the proxy reads them.
abbrev pub seq : ℕ → ℕ → List ℕ
seq s zero = []
seq s (suc n) = s ∷ seq (suc s) n

abbrev pub numbers : List (ℕ × ℕ) → List (List ℕ)
numbers [] = []
numbers (r ∷ rs) = seq r.0 (r.1 + 1 - r.0) ∷ numbers rs

-- Every range begins behind the one before it, and ends no earlier than it begins.
abbrev pub Ascending : ℕ → List (ℕ × ℕ) → Type 0
Ascending s [] = Unit
Ascending s (r ∷ rs) = (s ≤ r.0) × (r.0 ≤ r.1) × Ascending (r.1 + 1) rs

listed-seq : (p s n : ℕ) → 0 < listed p (seq s n) → (s ≤ p) × (p < s + n)
unfolding listed
listed-seq p s zero h = absurd (omega arith)
listed-seq p s (suc n) h = elim (Bool-cases (s == p)) [
  | inl e ↦ ground arith
  | inr e ↦ (let rest = listed-seq p (suc s) n (ground arith) in omega (arith, rest))
]

-- A range lists each of its numbers once.
pub listed-seq_once : (p s n : ℕ) → listed p (seq s n) ≡ (if leb s p && ltb p (s + n) then 1 else 0)
unfolding listed
listed-seq_once p s zero = ground arith
listed-seq_once p s (suc n) = let rest = listed-seq_once p (suc s) n in ground (arith, rest)

pub seq-below : (m s n : ℕ) → s + n ≤ m → All (λ q. q < m) (seq s n)
seq-below m s zero h = tt
seq-below m s (suc n) h = (omega arith, seq-below m (suc s) n (omega arith))

Owns-least : (s k p : ℕ) (rs : List (ℕ × ℕ)) → Ascending s rs → Owns (numbers rs) k p → s ≤ p
Owns-least s k p [] a (ps, at, l) = cc
Owns-least s zero p (r ∷ rs) a (ps, at, l) =
    let here : seq r.0 (r.1 + 1 - r.0) ≡ ps = some_inj.0 at in
    let first = listed-seq p r.0 (r.1 + 1 - r.0) (rw here l) in omega (arith, first, a.0)
Owns-least s (suc k) p (r ∷ rs) a owns =
    let rest = Owns-least (r.1 + 1) k p rs a.2 owns in omega (arith, a.0, a.1, rest)

find_shard-Owns :
    (s k p : ℕ) (rs : List (ℕ × ℕ))
    → Ascending s rs
    → Owns (numbers rs) k p
    → find_shard (map (λ r. r.1) rs) p ≡ k
unfolding find_shard
find_shard-Owns s k p [] a (ps, at, l) = cc
find_shard-Owns s zero p (r ∷ rs) a (ps, at, l) =
    let here : seq r.0 (r.1 + 1 - r.0) ≡ ps = some_inj.0 at in
    let first = listed-seq p r.0 (r.1 + 1 - r.0) (rw here l) in ground (arith, first)
find_shard-Owns s (suc k) p (r ∷ rs) a owns =
    let rest = find_shard-Owns (r.1 + 1) k p rs a.2 owns in
    let after = Owns-least (r.1 + 1) k p rs a.2 owns in ground (arith, rest, after)

-- For a configuration of ascending ranges that the proxy accepts, the tool and the router send every
-- key to the same shard.
pub shard_of-shard_func_part :
    (rs : List (ℕ × ℕ)) (u : ShardTable) (key : List ℕ)
    → Ascending 0 rs
    → shard_init_part partition_mod_key (numbers rs) ≡ accepted u
    → shard_of rs key ≡ shard_func_part u (strhash key)
unfolding shard_of
shard_of-shard_func_part rs u key a e =
    let owns =
      shard_func_part-Owns partition_mod_key (numbers rs) u (strhash key) e (omega arith) in
    find_shard-Owns 0 (shard_func_part u (strhash key)) (strhash key % 2 ^ 16) rs a owns
