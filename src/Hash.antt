-- ===== src/Hash.antt =====
-- The hash of hash.h, MurmurHash64A on the bytes of a key, on a little-endian machine; and the command line
-- tool tools/shardtool.cpp, which finds the shard of a key.
pub mod Bounds
pub mod ShardTool
use Prim.Native.Nat.{zero, suc, bit_xor}
use redis_agent.Base.{
  ℕ, ◌+◌, ◌*◌, ◌/◌, ◌%◌, ◌^◌, List, [], ◌∷◌, ◌==◌, if◌then◌else◌, length, take, drop,
}
use redis_agent.Connection.{c_string}

-- `m`, and a product of two words of 64 bits.
abbrev pub mul : ℕ
mul = 0xc6a4a7935bd1e995

abbrev pub times : ℕ → ℕ → ℕ
times a b = (a * b) % 2 ^ 64

-- `x ^= x >> r`, with `r` 47.
abbrev pub fold : ℕ → ℕ
fold x = bit_xor x (x / 2 ^ 47)

-- The word that eight bytes stand for.
abbrev pub word : List ℕ → ℕ
word [] = 0
word (b ∷ bs) = b + 256 * word bs

-- One turn of the loop, and the loop over the whole words.
abbrev pub mix : ℕ → ℕ → ℕ
mix h k = times (bit_xor h (times (fold (times k mul)) mul)) mul

abbrev pub blocks : ℕ → ℕ → List ℕ → ℕ
blocks zero h bs = h
blocks (suc n) h bs = blocks n (mix h (word (take 8 bs))) (drop 8 bs)

-- The cases of the switch that are entered for the bytes that are left, from the last byte to the first.
abbrev pub tail_bytes : ℕ → ℕ → List ℕ → ℕ
tail_bytes i h [] = h
tail_bytes i h (b ∷ bs) = bit_xor (tail_bytes (suc i) h bs) (b * 2 ^ (8 * i))

abbrev pub last_bytes : ℕ → List ℕ → ℕ
last_bytes h [] = h
last_bytes h (b ∷ bs) = times (tail_bytes 0 h (b ∷ bs)) mul

-- `MurmurHash64A`
unfoldable pub murmur_hash : List ℕ → ℕ → ℕ
murmur_hash key seed =
    let n = length key / 8 in
    let h₁ = blocks n (bit_xor seed (times (length key) mul)) key in
    fold (times (fold (last_bytes h₁ (drop (8 * n) key))) mul)

-- `hash` and `strhash`
unfoldable pub hash : List ℕ → ℕ
hash src = murmur_hash src 0xba1dba1d

pub strhash : List ℕ → ℕ
strhash s = hash (c_string s)
