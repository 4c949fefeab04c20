-- ===== src/Router/Sort/Memory.antt =====
-- How often a property holds among the first positions of an array, and what a write does to it.
use redis_agent.Base.{
  ℕ, zero, suc, ◌+◌, ◌-◌, ◌≤◌, ◌<◌, ◌≡◌, refl, sym, ◌∙◌, ◌⊎◌, inl, inr, Bool, true, false, arith,
}
use Prim.Native.Nat.add
use native.Mathlib.Nat.{zero-add}
use redis_agent.Router.Sort.{BackendReq, Batch, put}

abbrev pub one_if : Bool → ℕ
one_if true = 1
one_if false = 0

unfoldable pub occurrences : (BackendReq → Bool) → Batch → ℕ → ℕ
occurrences p a zero = 0
occurrences p a (suc m) = occurrences p a m + one_if (p (a m))

pub occurrences-put_above :
    (p : BackendReq → Bool) (a : Batch) (m i : ℕ) (v : BackendReq)
    → m ≤ i
    → occurrences p (put a i v) m ≡ occurrences p a m
unfolding occurrences
occurrences-put_above p a zero i v h = omega arith
occurrences-put_above p a (suc m) i v h = ground (arith, occurrences-put_above p a m i v)

-- A write swaps what the old entry counts for what the new one does.
pub occurrences-put :
    (p : BackendReq → Bool) (a : Batch) (m i : ℕ) (v : BackendReq)
    → i < m
    → occurrences p (put a i v) m + one_if (p (a i)) ≡ occurrences p a m + one_if (p v)
unfolding occurrences
occurrences-put p a zero i v h = elim h [ ]
occurrences-put p a (suc m) i v h =
    ground (arith, occurrences-put_above p a m i v, occurrences-put p a m i v)

occurrences_same :
    (p : BackendReq → Bool) (a b : Batch) (m : ℕ)
    → ((i : ℕ) → i < m → a i ≡ b i)
    → occurrences p a m ≡ occurrences p b m
unfolding occurrences
occurrences_same p a b zero h = refl
occurrences_same p a b (suc m) h =
    ground (arith, h m, occurrences_same p a b m (λ i q. h i (omega arith)))

occurrences_mono :
    (p : BackendReq → Bool) (a : Batch) (m n : ℕ) → occurrences p a m ≤ occurrences p a (n + m)
unfolding occurrences
occurrences_mono p a m zero = rw zero-add (omega arith)
occurrences_mono p a m (suc n) = rw add.suc (ground (arith, occurrences_mono p a m n))

-- No entry of a range has the property exactly when the range adds no occurrence.
occurrences-none :
    (p : BackendReq → Bool) (a : Batch) (m n : ℕ)
    → ((i : ℕ) → m ≤ i → i < n + m → p (a i) ≡ false)
    → occurrences p a (n + m) ≡ occurrences p a m
unfolding occurrences
occurrences-none p a m zero h = rw zero-add refl
occurrences-none p a m (suc n) h = rw add.suc (
    ground (
      arith,
      h (n + m) (omega arith) (omega arith),
      occurrences-none p a m n (λ i q r. h i q (omega arith)),
    ))

none-occurrences :
    (p : BackendReq → Bool) (a : Batch) (m n i : ℕ)
    → occurrences p a (n + m) ≡ occurrences p a m
    → m ≤ i
    → i < n + m
    → p (a i) ≡ false
unfolding occurrences
none-occurrences p a m zero i e h k = absurd (omega arith)
none-occurrences p a m (suc n) i e h k =
    let e' : occurrences p a (suc (n + m)) ≡ occurrences p a m = rw add.suc at e in
    let last : (i ≡ n + m) ⊎ (i < n + m) = omega arith in
    elim last [
      | inl at ↦ rw at (ground (arith, e', occurrences_mono p a m n))
      | inr less ↦ none-occurrences p a m n i (ground (arith, e', occurrences_mono p a m n)) h less
    ]

-- A rearrangement of a range keeps every property that all its entries have.
pub keeps_none :
    (p : BackendReq → Bool) (a b : Batch) (start stop : ℕ)
    → start ≤ stop
    → ((i : ℕ) → i < start → b i ≡ a i)
    → occurrences p b stop ≡ occurrences p a stop
    → ((i : ℕ) → start ≤ i → i < stop → p (a i) ≡ false)
    → (i : ℕ) → start ≤ i
    → i < stop
    → p (b i) ≡ false
keeps_none p a b start stop le below count none i lo hi =
    none-occurrences p b start n i
      (rw span (
        count
        ∙ (rw (← span) (occurrences-none p a start n (λ i q r. none i q (omega arith)))
            ∙ sym (occurrences_same p b a start below))))
      lo (omega arith)
  where
    n : ℕ
    n = stop - start

    span : n + start ≡ stop
    span = omega arith
