-- ===== src/Hash/Bounds.antt =====
-- The hash of hash.h is a word of 64 bits.
use Prim.Native.Nat.{zero, suc, bit_xor, bit_xor-bitwise, digits, differ}
use native.Mathlib.Nat.{pow-suc}
use redis_agent.Base.{ℕ, ◌*◌, ◌/◌, ◌%◌, ◌^◌, ◌<◌, ◌≡◌, List, arith, length, drop}
use redis_agent.Hash.{times, mul, fold, blocks, last_bytes, murmur_hash, hash, strhash}
use redis_agent.Connection.{c_string}

differ-bound : (x y : ℕ) → x < 2 → y < 2 → differ x y < 2
differ-bound zero y p q = q
differ-bound (suc x) zero p q = p
differ-bound (suc x) (suc y) p q = differ-bound x y (omega arith) (omega arith)

-- An operation on the binary digits stays below a power of two.
digits-bound : (k n a b : ℕ) → a < 2 ^ k → b < 2 ^ k → digits (λ b. b) differ n a b < 2 ^ k
digits-bound k zero a b p q = q
digits-bound k (suc n) zero b p q = q
digits-bound zero (suc n) (suc a) b p q = absurd (omega arith)
digits-bound (suc k) (suc n) (suc a) b p q =
    let double : 2 ^ suc k ≡ 2 ^ k * 2 = pow-suc 2 k in
    let rest =
      digits-bound k n (suc a / 2) (b / 2) (omega (arith, double)) (omega (arith, double)) in
    let digit = differ-bound (suc a % 2) (b % 2) (omega arith) (omega arith) in
    omega (arith, double, rest, digit)

-- So it is with exclusive or of two words.
bit_xor-bound : (k a b : ℕ) → a < 2 ^ k → b < 2 ^ k → bit_xor a b < 2 ^ k
bit_xor-bound k a b p q = rw (bit_xor-bitwise a b) (digits-bound k a a b p q)

fold-bound : (x : ℕ) → x < 2 ^ 64 → fold x < 2 ^ 64
fold-bound x h = bit_xor-bound 64 x (x / 2 ^ 47) h (omega arith)

times-bound : (a b : ℕ) → times a b < 2 ^ 64
times-bound a b = omega arith

-- The hash of a key fits its type, whatever the key.
pub strhash-bound : (s : List ℕ) → strhash s < 2 ^ 64
unfolding strhash hash murmur_hash
strhash-bound s =
    let key = c_string s in
    let n = length key / 8 in
    let h =
      last_bytes (blocks n (bit_xor 0xba1dba1d (times (length key) mul)) key) (drop (8 * n) key) in
    fold-bound (times (fold h) mul) (times-bound (fold h) mul)
