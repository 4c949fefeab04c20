-- ===== src/Router/Switch/Handover.antt =====
-- The handover from the old pools to the new ones in router.cpp.
use redis_agent.Base.{
  ℕ, suc, ◌+◌, ◌<◌, ◌≡◌, refl, ◌∙◌, ap, inl, inr, true, false, ◌&&◌, List, [], ◌∷◌, ◌==◌, arith,
  Bool-cases, if◌then◌else◌,
}
use redis_agent.Base.Int.{one_less, ℤ, pos, negsuc, ◌-ℤ◌}
use redis_agent.Router.Switch.{Router, set, router_on_destroy}

-- The callbacks of the destroyed pools, in the order they come.
unfoldable pub on_destroys : List ℤ → Router → Router
on_destroys [] r = r
on_destroys (i ∷ is) r = on_destroys is (router_on_destroy i r)

-- How many of the indices are those of read pools, and of write pools.
abbrev pub reads : List ℤ → ℕ
reads [] = 0
reads (pos i ∷ is) = suc (reads is)
reads (negsuc i ∷ is) = reads is

abbrev pub writes : List ℤ → ℕ
writes [] = 0
writes (pos i ∷ is) = writes is
writes (negsuc i ∷ is) = suc (writes is)

-- One callback takes one pool off its count, and is the last if both counts are then 0.
record Fewer (r t : Router) (a b : ℕ) : Type 0 where
  same_flag : t.next_flag ≡ r.next_flag
  left_r : t.pool_num_r t.next_flag ≡ pos a
  left_w : t.pool_num_w t.next_flag ≡ pos b
  last : t.switching ≡ (if a + b == 0 then false else r.switching)

pub set_at {ℓ} : {A : Type ℓ} (m : ℕ → A) (i : ℕ) (v : A) → set m i v i ≡ v
set_at m i v = let e : (i == i) ≡ true = ground arith in rw e refl

on_destroy_read :
    (i : ℕ) (r : Router) (a b : ℕ)
    → r.pool_num_r r.next_flag ≡ pos (suc a)
    → r.pool_num_w r.next_flag ≡ pos b
    → Fewer r (router_on_destroy (pos i) r) a b
unfolding router_on_destroy
on_destroy_read i r a b e f =
    let one : set r.pool_num_r r.next_flag (r.pool_num_r r.next_flag -ℤ pos 1) r.next_flag ≡ pos a =
      set_at r.pool_num_r r.next_flag (r.pool_num_r r.next_flag -ℤ pos 1)
      ∙ ap (λ k. k -ℤ pos 1) e
      ∙ one_less a in
    rw (router_on_destroy, one, f)
      (elim (Bool-cases ((a == 0) && (b == 0))) [
        | inl z ↦ rw z (record { same_flag = refl; left_r = one; left_w = f; last = ground arith })
        | inr z ↦ rw z (record { same_flag = refl; left_r = one; left_w = f; last = ground arith })
      ])

on_destroy_write :
    (i : ℕ) (r : Router) (a b : ℕ)
    → r.pool_num_r r.next_flag ≡ pos a
    → r.pool_num_w r.next_flag ≡ pos (suc b)
    → Fewer r (router_on_destroy (negsuc i) r) a b
unfolding router_on_destroy
on_destroy_write i r a b e f =
    let one : set r.pool_num_w r.next_flag (r.pool_num_w r.next_flag -ℤ pos 1) r.next_flag ≡ pos b =
      set_at r.pool_num_w r.next_flag (r.pool_num_w r.next_flag -ℤ pos 1)
      ∙ ap (λ k. k -ℤ pos 1) f
      ∙ one_less b in
    rw (router_on_destroy, one, e)
      (elim (Bool-cases ((a == 0) && (b == 0))) [
        | inl z ↦ rw z (record { same_flag = refl; left_r = e; left_w = one; last = ground arith })
        | inr z ↦ rw z (record { same_flag = refl; left_r = e; left_w = one; last = ground arith })
      ])

on_destroys_from :
    (is : List ℤ) (r : Router) (a b : ℕ)
    → r.pool_num_r r.next_flag ≡ pos (reads is + a)
    → r.pool_num_w r.next_flag ≡ pos (writes is + b)
    → (r.switching ≡ (if reads is + a + (writes is + b) == 0 then false else true))
    → (on_destroys is r).switching ≡ (if a + b == 0 then false else true)
unfolding on_destroys
on_destroys_from [] r a b e f s = ground (arith, s)
on_destroys_from (pos i ∷ is) r a b e f s =
    let few = on_destroy_read i r (reads is + a) (writes is + b) (ground arith) f in
    on_destroys_from is (router_on_destroy (pos i) r) a b few.left_r few.left_w
      (ground (arith, few.last, s))
on_destroys_from (negsuc i ∷ is) r a b e f s =
    let few = on_destroy_write i r (reads is + a) (writes is + b) e (ground arith) in
    on_destroys_from is (router_on_destroy (negsuc i) r) a b few.left_r few.left_w
      (ground (arith, few.last, s))

-- While old pools are being torn down, their callbacks may come in any order: after those of `is`,
-- with `a` read pools and `b` write pools left, `router_switching` is false just if none is left.
pub on_destroys-switching :
    (is : List ℤ) (r : Router) (a b : ℕ)
    → r.switching ≡ true
    → r.pool_num_r r.next_flag ≡ pos (reads is + a)
    → r.pool_num_w r.next_flag ≡ pos (writes is + b)
    → 0 < reads is + a + (writes is + b)
    → (on_destroys is r).switching ≡ (if a + b == 0 then false else true)
on_destroys-switching is r a b s e f h = on_destroys_from is r a b e f (ground arith)
