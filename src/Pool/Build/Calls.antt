-- ===== src/Pool/Build/Calls.antt =====
-- The life of a whole pool of pool.cpp: calls on its servers, which share the count of servers.
use redis_agent.Base.{
  ℕ, zero, suc, ◌+◌, ◌-◌, ◌≤◌, ◌<◌, ◌≡◌, refl, ap, sym, ◌∙◌, inl, inr, false, Bool, List, [], ◌∷◌,
  arith, ◌==◌, Bool-cases, if◌then◌else◌,
}
use redis_agent.Base.Int.{ℤ, pos, ◌-ℤ◌, eqb_ℤ}
use redis_agent.Pool.Server.Ledger.{Ledger, ServerCall, May, note_call, handle_call}
use redis_agent.Pool.Server.Ledger.Runs.{fresh}
use redis_agent.Pool.Server.Ledger.Finish.{note_call-Passes}
use redis_agent.Pool.Build.{PoolInfo, at_server}

-- A call on one server.
unfoldable pub pool_call : ℕ → ServerCall → PoolInfo → PoolInfo
pool_call i c p = at_server i (handle_call p.connect_per_server p.low_connect_per_server c) p

unfoldable pub pool_calls : List (ℕ × ServerCall) → PoolInfo → PoolInfo
pool_calls [] p = p
pool_calls ((i, c) ∷ cs) p = pool_calls cs (pool_call i c p)

-- The ledgers of the servers, and how many servers are left.
pub record Ledgers : Type 0 where
  pub at : ℕ → Ledger
  pub left : ℤ

abbrev pub with_left : Ledger → ℤ → Ledger
with_left a z = record (a) { left = z }

unfoldable pub note_at : ℕ → ℕ → ℕ → ServerCall → Ledgers → Ledgers
note_at per low i c l =
    let b = note_call per low c (with_left (l.at i) l.left) in
    record { at = λ j. if i == j then b else l.at j; left = b.left }

-- Each call may come to its server, one of the pool's that has not been freed.
abbrev pub MayPool : ℕ → ℕ → ℕ → List (ℕ × ServerCall) → Ledgers → Type 0
MayPool per low n [] l = Unit
MayPool per low n ((i, c) ∷ cs) l =
    (i < n)
    × ((l.at i).gone ≡ false)
    × May c (with_left (l.at i) l.left)
    × MayPool per low n cs (note_at per low i c l)

abbrev pub new_ledgers : ℕ → ℕ → Ledgers
new_ledgers n per = record { at = λ i. fresh per (pos n); left = pos n }

-- A sum over the servers.
abbrev pub total {ℓ} : {A : Type ℓ} → (A → ℕ) → ℕ → (ℕ → A) → ℕ
total w zero f = 0
total w (suc n) f = total w n f + w (f n)

total_past {ℓ} :
    {A : Type ℓ} (w : A → ℕ) (n : ℕ) (f : ℕ → A) (i : ℕ) (v : A)
    → n ≤ i
    → total w n (λ j. if i == j then v else f j) ≡ total w n f
total_past w zero f i v h = refl
total_past w (suc n) f i v h =
    let other : (i == n) ≡ false = ground arith in
    rw other (ap (λ t. t + w (f n)) (total_past w n f i v (omega arith)))

total_set {ℓ} :
    {A : Type ℓ} (w : A → ℕ) (n : ℕ) (f : ℕ → A) (i : ℕ) (v : A)
    → i < n
    → total w n (λ j. if i == j then v else f j) + w (f i) ≡ total w n f + w v
total_set w zero f i v h = absurd (omega arith)
total_set w (suc n) f i v h = elim (Bool-cases (i == n)) [
  | inl e ↦
      let at : i ≡ n = ground arith in
      let rest = total_past w n f i v (omega arith) in rw (e, rest, at) (omega arith)
  | inr e ↦ let rest = total_set w n f i v (ground arith) in rw e (omega (arith, rest))
]

pub total_same {ℓ κ} :
    {A : Type ℓ} {B : Type κ} (w : A → ℕ) (v : B → ℕ) (n : ℕ) (f : ℕ → A) (g : ℕ → B)
    → ((i : ℕ) → w (f i) ≡ v (g i))
    → total w n f ≡ total v n g
total_same w v zero f g h = refl
total_same w v (suc n) f g h = let rest = total_same w v n f g h in let last = h n in cc

-- 1 for a server that has not been freed.
abbrev pub alive : Bool → ℕ
alive gone = if gone then 0 else 1

abbrev pub living : Ledger → ℕ
living a = alive a.gone

abbrev pub endings : Ledger → ℕ
endings a = a.ended

-- The count is that of the servers that are left, and the pool is gone when it is 0.
pub record Counts (n : ℕ) (l : Ledgers) : Type 0 where
  pub left : l.left ≡ pos (total living n l.at)
  pub ended : total endings n l.at ≡ (if total living n l.at == 0 then 1 else 0)

less_one : (m : ℕ) → 0 < m → pos m -ℤ pos 1 ≡ pos (m - 1)
unfolding ◌-ℤ◌
less_one m h = ground arith

pub note_at-Counts :
    (per low n i : ℕ) (c : ServerCall) (l : Ledgers)
    → i < n
    → (l.at i).gone ≡ false
    → Counts n l
    → Counts n (note_at per low i c l)
unfolding note_at
note_at-Counts per low n i c l h g k =
    let a = with_left (l.at i) l.left in
    let b = note_call per low c a in
    let lives = total_set living n l.at i b h in
    let ends = total_set endings n l.at i b h in
    let here : living (l.at i) ≡ 1 = rw g refl in
    elim (note_call-Passes per low c a) [
      | inl s ↦
          let same : living b ≡ 1 = ap alive (s.gone ∙ g) in
          let all : total living n (λ j. if i == j then b else l.at j) ≡ total living n l.at =
            omega (arith, lives, here, same) in
          let gone : total endings n (λ j. if i == j then b else l.at j) ≡ total endings n l.at =
            omega (arith, ends, s.ended) in
          record { left = s.left ∙ k.left ∙ ap pos (sym all); ended = rw (all, gone) k.ended }
      | inr s ↦
          let none : living b ≡ 0 = ap alive s.gone in
          let fewer : suc (total living n (λ j. if i == j then b else l.at j))
              ≡ total living n l.at =
            omega (arith, lives, here, none) in
          let left : l.left -ℤ pos 1 ≡ pos (total living n (λ j. if i == j then b else l.at j)) =
            ap (λ z. z -ℤ pos 1) k.left
            ∙ less_one (total living n l.at) (omega (arith, fewer))
            ∙ ap pos (omega (arith, fewer)) in
          record {
            left = s.left ∙ left;
            ended =
                counted (l.at i).ended b.ended _ (total endings n l.at) (total living n l.at) _
                  (l.left -ℤ pos 1) left s.ended ends fewer k.ended;
          }
    ]
  where
    counted :
        (e f t u m m' : ℕ) (z : ℤ)
        → z ≡ pos m'
        → f ≡ (if eqb_ℤ z (pos 0) then suc e else e)
        → t + e ≡ u + f
        → suc m' ≡ m
        → u ≡ (if m == 0 then 1 else 0)
        → t ≡ (if m' == 0 then 1 else 0)
    counted e f t u m m' z h i j k o = ground arith
