-- ===== src/Router/Sort/Partition.antt =====
-- The partition step of the sort: what each scan passes over, and the invariant of the outer loop.
use redis_agent.Base.{
  ℕ, zero, suc, ◌+◌, ◌-◌, ◌≤◌, ◌<◌, ◌≡◌, refl, ap, ◌⊎◌, inl, inr, Bool, arith, leb, ◌==◌,
  Bool-cases,
}
use redis_agent.Router.Sort.{BackendReq, Batch, put, scan_right, scan_left, partition}
use redis_agent.Router.Sort.Memory.{occurrences, one_if, occurrences-put}

record Right (a : Batch) (t : BackendReq) (l n k : ℕ) : Type 0 where
  within : k ≤ n
  passed : (i : ℕ) → l + k < i → i ≤ l + n → t.shard_key ≤ (a i).shard_key
  stopped : (k ≡ 0) ⊎ ((a (l + k)).shard_key < t.shard_key)

scan_right-Right : (a : Batch) (t : BackendReq) (l n : ℕ) → Right a t l n (scan_right a t l n)
unfolding scan_right
scan_right-Right a t l zero = record {
  within = omega arith;
  passed = λ i h k. absurd (omega arith);
  stopped = inl refl;
}
scan_right-Right a t l (suc n) = elim (Bool-cases (leb t.shard_key (a (l + suc n)).shard_key)) [
  | inl go ↦
      let rest : Right a t l n (scan_right a t l n) = scan_right-Right a t l n in
      rw go (record {
        within = omega (arith, rest.within);
        passed = λ i h k. elim (Bool-cases (i == l + suc n)) [
          | inl e ↦ ground arith
          | inr e ↦ rest.passed i h (ground arith)
        ];
        stopped = rest.stopped;
      })
  | inr stop ↦ rw stop (record {
    within = omega arith;
    passed = λ i h k. absurd (omega arith);
    stopped = inr (ground arith);
  })
]

record Left (a : Batch) (t : BackendReq) (r n k : ℕ) : Type 0 where
  within : k ≤ n
  passed : (i : ℕ) → r - n ≤ i → i < r - k → (a i).shard_key ≤ t.shard_key

scan_left-Left : (a : Batch) (t : BackendReq) (r n : ℕ) → n ≤ r → Left a t r n (scan_left a t r n)
unfolding scan_left
scan_left-Left a t r zero h = record {
  within = omega arith;
  passed = λ i p q. absurd (omega arith);
}
scan_left-Left a t r (suc n) h = elim (Bool-cases (leb (a (r - suc n)).shard_key t.shard_key)) [
  | inl go ↦
      let rest : Left a t r n (scan_left a t r n) = scan_left-Left a t r n (omega arith) in
      rw go (record {
        within = omega (arith, rest.within);
        passed = λ i p q. elim (Bool-cases (i == r - suc n)) [
          | inl e ↦ ground arith
          | inr e ↦ rest.passed i (ground arith) q
        ];
      })
  | inr stop ↦ rw stop (record { within = omega arith; passed = λ i p q. absurd (omega arith) })
]

-- If the right scan moved an entry to `l`, the left scan passes over it.
scan_left-lt :
    (a : Batch) (t : BackendReq) (r n : ℕ)
    → n ≤ r
    → 0 < n
    → (a (r - n)).shard_key < t.shard_key
    → scan_left a t r n < n
unfolding scan_left
scan_left-lt a t r zero h pos small = elim pos [ ]
scan_left-lt a t r (suc n) h pos small =
    let rest : Left a t r n (scan_left a t r n) = scan_left-Left a t r n (omega arith) in
    ground (arith, rest.within)

-- Each round of the outer loop brings the pointers nearer.
shorter :
    (a : Batch) (t : BackendReq) (l n k fuel : ℕ)
    → 0 < n
    → n ≤ suc fuel
    → Right a t l n k
    → scan_left (put a l (a (l + k))) t (l + k) k ≤ fuel
shorter a t l n k fuel pos h r =
    let a' = put a l (a (l + k)) in
    let s : Left a' t (l + k) k (scan_left a' t (l + k) k) =
      scan_left-Left a' t (l + k) k (omega arith) in
    let back : l + k - k ≡ l = omega arith in
    elim (Bool-cases (k == 0)) [
      | inl e ↦ ground (arith, r.within, s.within)
      | inr e ↦ ground (arith, r.within, r.stopped, scan_left-lt a' t (l + k) k, ap a' back)
    ]

-- The state of the outer loop: `t` is the entry taken out, and position `hole` is free.
pub record Parting (a₀ : Batch) (t : BackendReq) (start stop : ℕ) (a : Batch) (l n hole : ℕ)
    : Type 0 where
  pub low : start ≤ l
  pub high : l + n < stop
  pub small : (i : ℕ) → start ≤ i → i < l → (a i).shard_key ≤ t.shard_key
  pub large : (i : ℕ) → l + n < i → i < stop → t.shard_key ≤ (a i).shard_key
  pub below : (i : ℕ) → i < start → a i ≡ a₀ i
  pub above : (i : ℕ) → stop ≤ i → a i ≡ a₀ i
  pub count :
      (p : BackendReq → Bool) (m : ℕ)
      → stop ≤ m
      → occurrences p a m + one_if (p t) ≡ occurrences p a₀ m + one_if (p (a hole))

module _ {a₀ : Batch} {t : BackendReq} {start stop : ℕ} where
  to_right :
      (a : Batch) (l n : ℕ)
      → Parting a₀ t start stop a l n l
      → (k : ℕ) → Right a t l n k
      → Parting a₀ t start stop (put a l (a (l + k))) l k (l + k)
  to_right a l n s k r = record {
    low = s.low;
    high = omega (arith, s.high, r.within);
    small = λ i p q. ground (arith, s.small i p q);
    large = λ i p q. elim (Bool-cases (leb i (l + n))) [
      | inl e ↦ ground (arith, r.passed i p)
      | inr e ↦ ground (arith, s.large i)
    ];
    below = λ i p. ground (arith, s.below i p, s.low);
    above = λ i p. ground (arith, s.above i p, s.high);
    count = λ p m h. ground (arith, s.count p m h, occurrences-put p a m l (a (l + k)), s.high);
  }

  to_left :
      (a : Batch) (l n : ℕ)
      → Parting a₀ t start stop a l n (l + n)
      → (k : ℕ) → Left a t (l + n) n k
      → Parting a₀ t start stop (put a (l + n) (a (l + n - k))) (l + n - k) k (l + n - k)
  to_left a l n s k r = record {
    low = omega (arith, s.low, r.within);
    high = omega (arith, s.high, r.within);
    small = λ i p q. elim (Bool-cases (leb l i)) [
      | inl e ↦ ground (arith, r.passed i)
      | inr e ↦ ground (arith, s.small i p)
    ];
    large = λ i p q. ground (arith, s.large i, r.within);
    below = λ i p. ground (arith, s.below i p, s.low);
    above = λ i p. ground (arith, s.above i p, s.high);
    count = λ p m h.
        ground (arith, s.count p m h, occurrences-put p a m (l + n) (a (l + n - k)), s.high);
  }

  -- With enough fuel the two pointers meet, and the invariant holds where they do.
  pub partition-Parting :
      (fuel : ℕ) (a : Batch) (l n : ℕ)
      → n ≤ fuel
      → Parting a₀ t start stop a l n l
      → Parting a₀ t start stop
          (partition fuel a t l n).0
          (partition fuel a t l n).1
          0
          (partition fuel a t l n).1
  unfolding partition
  partition-Parting zero a l n h s = let e : n ≡ 0 = omega arith in rw e at s
  partition-Parting (suc fuel) a l n h s = elim (Bool-cases (n == 0)) [
    | inl done ↦ let e : n ≡ 0 = ground arith in rw done (rw e at s)
    | inr more ↦
        let k = scan_right a t l n in
        let r = scan_right-Right a t l n in
        let a' = put a l (a (l + k)) in
        let s' = to_right a l n s k r in
        let j = scan_left a' t (l + k) k in
        let s'' = to_left a' l k s' j (scan_left-Left a' t (l + k) k (omega arith)) in
        rw more
          (partition-Parting fuel _ (l + k - j) j (shorter a t l n k fuel (ground arith) h r) s'')
  ]
