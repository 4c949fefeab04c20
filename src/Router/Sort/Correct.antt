-- ===== src/Router/Sort/Correct.antt =====
-- `_quicksort` sorts its range, only rearranges it, and touches nothing outside.
use redis_agent.Base.{
  ℕ, zero, suc, ◌+◌, ◌-◌, ◌≤◌, ◌<◌, ◌≡◌, refl, inl, inr, Bool, arith, leb, ltb, Bool-cases,
}
use redis_agent.Router.Sort.{BackendReq, Batch, put, split, quicksort}
use redis_agent.Router.Sort.Memory.{occurrences, occurrences-put, keeps_none}
use redis_agent.Router.Sort.Partition.{Parting, partition-Parting}

-- What one level achieves: the first entry stands at `r`, between what is not larger and what is
-- not smaller.
record Halves (a₀ : Batch) (start stop : ℕ) (a : Batch) (r : ℕ) : Type 0 where
  low : start ≤ r
  high : r < stop
  small : (i : ℕ) → start ≤ i → i < r → (a i).shard_key ≤ (a r).shard_key
  large : (i : ℕ) → r < i → i < stop → (a r).shard_key ≤ (a i).shard_key
  below : (i : ℕ) → i < start → a i ≡ a₀ i
  above : (i : ℕ) → stop ≤ i → a i ≡ a₀ i
  count : (p : BackendReq → Bool) (m : ℕ) → stop ≤ m → occurrences p a m ≡ occurrences p a₀ m

started :
    (a : Batch) (start stop : ℕ)
    → start < stop
    → Parting a (a start) start stop a start (stop - start - 1) start
started a start stop h = record {
  low = omega arith;
  high = omega arith;
  small = λ i p q. absurd (omega arith);
  large = λ i p q. absurd (omega arith);
  below = λ i p. refl;
  above = λ i p. refl;
  count = λ p m q. refl;
}

put_back :
    (a₀ a : Batch) (t : BackendReq) (start stop r : ℕ)
    → Parting a₀ t start stop a r 0 r
    → Halves a₀ start stop (put a r t) r
put_back a₀ a t start stop r s = record {
  low = s.low;
  high = omega (arith, s.high);
  small = λ i p q. ground (arith, s.small i p q);
  large = λ i p q. ground (arith, s.large i);
  below = λ i p. ground (arith, s.below i p, s.low);
  above = λ i p. ground (arith, s.above i p, s.high);
  count = λ p m h. omega (arith, s.count p m h, occurrences-put p a m r t (omega (arith, s.high)));
}

split-Halves :
    (a : Batch) (start stop : ℕ)
    → start < stop
    → Halves a start stop (split a start stop).0 (split a start stop).1
unfolding split
split-Halves a start stop h = put_back a _ (a start) start stop _ (
    partition-Parting (stop - start) a start (stop - start - 1) (omega arith)
      (started a start stop h))

pub record Sorted (a₀ : Batch) (start stop : ℕ) (a : Batch) : Type 0 where
  pub ordered : (i j : ℕ) → start ≤ i → i ≤ j → j < stop → (a i).shard_key ≤ (a j).shard_key
  pub below : (i : ℕ) → i < start → a i ≡ a₀ i
  pub above : (i : ℕ) → stop ≤ i → a i ≡ a₀ i
  pub count : (p : BackendReq → Bool) (m : ℕ) → stop ≤ m → occurrences p a m ≡ occurrences p a₀ m

module _ {a₀ : Batch} (start stop : ℕ) (p : Batch) (r : ℕ) (h : Halves a₀ start stop p r)
    (a : Batch) (front : Sorted p start r a) (b : Batch) (back : Sorted a (r + 1) stop b) where
  front_small : (i : ℕ) → start ≤ i → i < r → (b i).shard_key ≤ (b r).shard_key
  front_small i lo hi = ground (
    arith,
    keeps_none (λ x. ltb (p r).shard_key x.shard_key) p a start r h.low front.below
        (front.count (λ x. ltb (p r).shard_key x.shard_key) r (omega arith))
        (λ j q k. ground (arith, h.small j q k)) i lo hi,
    back.below i (omega arith),
    back.below r (omega arith),
    front.above r (omega arith),
  )

  back_large : (i : ℕ) → r < i → i < stop → (b r).shard_key ≤ (b i).shard_key
  back_large i lo hi = ground (
    arith,
    keeps_none (λ x. ltb x.shard_key (p r).shard_key) a b (r + 1) stop (omega (arith, h.high))
        back.below (back.count (λ x. ltb x.shard_key (p r).shard_key) stop (omega arith))
        (λ j q k. ground (arith, h.large j (omega arith) k, front.above j (omega arith))) i
        (omega arith) hi,
    back.below r (omega arith),
    front.above r (omega arith),
  )

  ordered_within : (i j : ℕ) → start ≤ i → i ≤ j → j < stop → (b i).shard_key ≤ (b j).shard_key
  ordered_within i j lo le hi = elim (Bool-cases (ltb j r)) [
    | inl e ↦ ground (
      arith,
      front.ordered i j lo le (ground arith),
      back.below i (ground arith),
      back.below j (ground arith),
    )
    | inr e ↦ elim (Bool-cases (ltb r i)) [
      | inl e' ↦ back.ordered i j (ground arith) le hi
      | inr e' ↦ ground (arith, front_small i lo, back_large j)
    ]
  ]

  joined : Sorted a₀ start stop b
  joined = record {
    ordered = ordered_within;
    below =
        λ i q. ground (arith, back.below i (omega (arith, h.low)), front.below i q, h.below i q);
    above =
        λ i q. ground (arith, back.above i q, front.above i (omega (arith, h.high)), h.above i q);
    count = λ q m k.
        omega (arith, back.count q m k, front.count q m (omega (arith, h.high)), h.count q m k);
  }

-- `_quicksort` orders the positions from `start` to before `stop` by shard, leaves every other position
-- as it is, and rearranges the entries: any property holds for as many of them as before. Its
-- recursion is no deeper than the range is long.
pub quicksort-Sorted :
    (fuel : ℕ) (a : Batch) (start stop : ℕ)
    → stop - start ≤ fuel
    → Sorted a start stop (quicksort fuel a start stop)
unfolding quicksort
quicksort-Sorted zero a start stop h = record {
  ordered = λ i j lo le hi. absurd (omega arith);
  below = λ i q. refl;
  above = λ i q. refl;
  count = λ p m q. refl;
}
quicksort-Sorted (suc fuel) a start stop h = elim (Bool-cases (leb stop (start + 1))) [
  | inl e ↦
      let le : stop ≤ start + 1 = ground arith in
      rw e (record {
        ordered = λ i j lo q hi. let same : i ≡ j = omega arith in rw same (omega arith);
        below = λ i q. refl;
        above = λ i q. refl;
        count = λ p m q. refl;
      })
  | inr e ↦
      let lt : start < stop = ground arith in
      let parted = split a start stop in
      let halves : Halves a start stop parted.0 parted.1 = split-Halves a start stop lt in
      let left = quicksort fuel parted.0 start parted.1 in
      rw e (
        joined start stop parted.0 parted.1 halves left
          (quicksort-Sorted fuel parted.0 start parted.1 (omega (arith, halves.high)))
          (quicksort fuel left (parted.1 + 1) stop)
          (quicksort-Sorted fuel left (parted.1 + 1) stop (omega (arith, halves.low))))
]
