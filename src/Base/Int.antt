-- ===== src/Base/Int.antt =====
-- Signed integers over the native numbers, under the library's names (its ℤ stands on the unary ℕ).
-- Sums go through the two parts of an integer, which are numbers that the tactics read.
use redis_agent.Base.{ℕ, suc, ◌+◌, ◌-◌, ◌≡◌, Bool, false, arith, ltb, leb, ◌==◌, if◌then◌else◌}

-- `negsuc n` is -(n + 1).
pub data ℤ : Type 0 where
  pos : ℕ → ℤ
  negsuc : ℕ → ℤ

abbrev pub pos_part : ℤ → ℕ
pos_part (pos n) = n
pos_part (negsuc n) = 0

abbrev pub neg_part : ℤ → ℕ
neg_part (pos n) = 0
neg_part (negsuc n) = suc n

-- a - b, as an integer.
abbrev pub sub_ℕ : ℕ → ℕ → ℤ
sub_ℕ a b = if leb b a then pos (a - b) else negsuc (b - a - 1)

infixl 65 ◌+ℤ◌ ◌-ℤ◌
unfoldable pub ◌+ℤ◌ : ℤ → ℤ → ℤ
a +ℤ b = sub_ℕ (pos_part a + pos_part b) (neg_part a + neg_part b)

unfoldable pub ◌-ℤ◌ : ℤ → ℤ → ℤ
a -ℤ b = sub_ℕ (pos_part a + neg_part b) (neg_part a + pos_part b)

abbrev pub ltb_ℤ : ℤ → ℤ → Bool
ltb_ℤ a b = ltb (pos_part a + neg_part b) (pos_part b + neg_part a)

abbrev pub eqb_ℤ : ℤ → ℤ → Bool
eqb_ℤ (pos a) (pos b) = a == b
eqb_ℤ (pos a) (negsuc b) = false
eqb_ℤ (negsuc a) (pos b) = false
eqb_ℤ (negsuc a) (negsuc b) = a == b

-- The count of a list one entry shorter, and one longer.
pub one_less : (n : ℕ) → pos (suc n) -ℤ pos 1 ≡ pos n
unfolding ◌-ℤ◌
one_less n = ground arith

pub one_more : (n : ℕ) → pos n +ℤ pos 1 ≡ pos (n + 1)
unfolding ◌+ℤ◌
one_more n = ground arith

-- The count of a list that is `k` short of its length.
pub short_less : (a : ℤ) (k n : ℕ) → a +ℤ pos k ≡ pos (suc n) → (a -ℤ pos 1) +ℤ pos k ≡ pos n
unfolding ◌+ℤ◌ ◌-ℤ◌
short_less (pos a) k n h = ground arith
short_less (negsuc a) k n h = ground arith

pub short_more : (a : ℤ) (k n : ℕ) → a +ℤ pos k ≡ pos n → (a +ℤ pos 1) +ℤ pos k ≡ pos (n + 1)
unfolding ◌+ℤ◌
short_more (pos a) k n h = ground arith
short_more (negsuc a) k n h = ground arith

-- One less, and one shorter.
pub shorter : (a : ℤ) (k n : ℕ) → a +ℤ pos k ≡ pos n → (a -ℤ pos 1) +ℤ pos (suc k) ≡ pos n
unfolding ◌+ℤ◌ ◌-ℤ◌
shorter (pos a) k n h = ground arith
shorter (negsuc a) k n h = ground arith

pub short_zero : (a : ℤ) → a +ℤ pos 0 ≡ a
unfolding ◌+ℤ◌
short_zero (pos n) = ground arith
short_zero (negsuc n) = ground arith
