-- ===== src/Pool/Server/Ledger/Touch.antt =====
-- When a server of pool.cpp stands for a ledger; the teardown, the counts and the lists they share.
use redis_agent.Base.{
  ℕ, zero, suc, ◌+◌, ◌≤◌, ◌≡◌, refl, ap, ◌∙◌, inl, inr, true, Bool, ◌&&◌, List, [], ◌∷◌, arith,
  ◌==◌, Bool-cases, length, length-append, if◌then◌else◌, Option-cases,
}
use redis_agent.Base.Int.{ℤ, pos, negsuc, ◌+ℤ◌, ◌-ℤ◌, eqb_ℤ}
use redis_agent.Pool.Links.Segment.{has}
use redis_agent.Pool.Server.{
  Server, Effect, server_freed, destroy, emit, free_get, server_destroyed, destroy_free,
  server_destroy,
}
use redis_agent.Pool.Server
use redis_agent.Pool.Server.Invariant.{IsServer, free_get-nil, free_get-cons}
use redis_agent.Pool.Server.Teardown.{server_destroy-drain}
use redis_agent.Pool.Server.Ledger.{Ledger, finish, made, all_rest, drained, sweep}
use redis_agent.Pool.Server.Ledger.History.{
  is_freed, delivered, pool_ends, is_freed-destroys, delivered-destroys, pool_ends-destroys,
}

-- `n` connections are on their way from one place to another.
pub record Keeps (n : ℕ) (s : Server) (a : Ledger) : Type 0 where
  pub held : IsServer a.drift s a.free a.unconnect a.waiting
  pub count : s.connect_count ≡ pos (n + made a)
  pub used : (c : ℕ) → (s.conns c).in_use ≡ has c a.using
  pub marks : (c : ℕ) → (s.conns c).to_be_destroyed ≡ a.marked c
  pub flag : s.destroy_flag ≡ a.flag
  pub over : is_freed s.log ≡ a.gone
  pub left : s.server_count ≡ a.left
  pub ended : pool_ends s.log ≡ a.ended
  pub handed : delivered s.log ≡ a.handed
  pub reqs : (p : ℕ) → has p a.waiting ≡ true → s.waiting.sub_req p ≡ a.reqs p

-- The test for a teardown, on counts that may be short.
rest_test :
    (f : ℤ) (k m n per : ℕ)
    → f +ℤ pos k ≡ pos m
    → m + n ≤ per
    → eqb_ℤ (f +ℤ pos n) (pos per) ≡ ((k == 0) && (m + n == per))
unfolding ◌+ℤ◌
rest_test (pos f) k m n per e h = ground arith
rest_test (negsuc f) k m n per e h = ground arith

pub at_rest_lem :
    (per n : ℕ) (s : Server) (a : Ledger)
    → Keeps n s a
    → length a.free + length a.unconnect ≤ per
    → Server.at_rest per s ≡ all_rest per a
unfolding Server.at_rest
at_rest_lem per n s a k h =
    rw (k.held.unconnect_count)
      (rest_test s.free.count a.drift (length a.free) (length a.unconnect) per k.held.free_count h)

-- What `_pool_server_destroy` leaves alone.
record Spared (s t : Server) : Type 0 where
  conns : t.conns ≡ s.conns
  count : t.connect_count ≡ s.connect_count
  flag : t.destroy_flag ≡ s.destroy_flag
  reqs : t.waiting ≡ s.waiting

destroy_free-Spared : (fuel : ℕ) (s : Server) → Spared s (destroy_free fuel s)
unfolding destroy_free free_get
destroy_free-Spared zero s = record { conns = refl; count = refl; flag = refl; reqs = refl }
destroy_free-Spared (suc fuel) s = elim (Option-cases ((free_get s).0)) [
  | inl e ↦ rw (destroy_free, e) (record { conns = refl; count = refl; flag = refl; reqs = refl })
  | inr (c, e) ↦
      let r = destroy_free-Spared fuel (emit (destroy c) (free_get s).1) in
      rw (destroy_free, e)
        (record { conns = r.conns; count = r.count; flag = r.flag; reqs = r.reqs })
]

server_destroyed-Spared : (s : Server) → Spared s (server_destroyed s)
unfolding server_destroyed
server_destroyed-Spared s = record {
  conns = ground arith;
  count = ground arith;
  flag = ground arith;
  reqs = ground arith;
}

server_destroy-Spared : (per : ℕ) (s : Server) → Spared s (server_destroy per s)
unfolding server_destroy free_get
server_destroy-Spared per s = elim (Option-cases ((free_get s).0)) [
  | inl e ↦
      let r = server_destroyed-Spared (free_get s).1 in
      rw (server_destroy, e)
        (record { conns = r.conns; count = r.count; flag = r.flag; reqs = r.reqs })
  | inr (c, e) ↦
      let r = destroy_free-Spared per (emit (destroy c) (free_get s).1) in
      rw (server_destroy, e)
        (record { conns = r.conns; count = r.count; flag = r.flag; reqs = r.reqs })
]

-- The loop leaves the count of servers alone.
destroy_free-left : (fuel : ℕ) (s : Server) → (destroy_free fuel s).server_count ≡ s.server_count
unfolding destroy_free free_get
destroy_free-left zero s = refl
destroy_free-left (suc fuel) s = elim (Option-cases ((free_get s).0)) [
  | inl e ↦ rw (destroy_free, e) refl
  | inr (c, e) ↦ rw (destroy_free, e) (destroy_free-left fuel (emit (destroy c) (free_get s).1))
]

server_destroy-left :
    (per : ℕ) (s : Server) (x : ℕ) (xs ys ws : List ℕ) (k : ℕ)
    → IsServer k s (x ∷ xs) ys ws
    → (server_destroy per s).server_count ≡ s.server_count
unfolding server_destroy free_get
server_destroy-left per s x xs ys ws k is =
    let found = (free_get-cons k s x xs ys ws is).0 in
    rw (server_destroy, found) (destroy_free-left per (emit (destroy x) (free_get s).1))

-- The freed server: only the count of servers and the log are touched.
pub server_destroyed-Keeps :
    (n : ℕ) (s : Server) (a : Ledger) → Keeps n s a → Keeps n (server_destroyed s) (finish a)
unfolding server_destroyed
server_destroyed-Keeps n s a k =
    let same : eqb_ℤ (s.server_count -ℤ pos 1) (pos 0) ≡ eqb_ℤ (a.left -ℤ pos 1) (pos 0) =
      ap (λ z. eqb_ℤ (z -ℤ pos 1) (pos 0)) k.left in
    elim (Bool-cases (eqb_ℤ (a.left -ℤ pos 1) (pos 0))) [
      | inl e ↦
          rw (server_destroyed, same ∙ e, e)
            (record {
              held = k.held;
              count = k.count;
              used = k.used;
              marks = k.marks;
              flag = k.flag;
              over = refl;
              left = ap (λ z. z -ℤ pos 1) k.left;
              ended = ap suc k.ended;
              handed = k.handed;
              reqs = k.reqs;
            })
      | inr e ↦
          rw (server_destroyed, same ∙ e, e)
            (record {
              held = k.held;
              count = k.count;
              used = k.used;
              marks = k.marks;
              flag = k.flag;
              over = refl;
              left = ap (λ z. z -ℤ pos 1) k.left;
              ended = k.ended;
              handed = k.handed;
              reqs = k.reqs;
            })
    ]

destroy_none :
    (per k : ℕ) (s : Server) (ys ws : List ℕ)
    → IsServer k s [] ys ws
    → server_destroy per s ≡ server_destroyed s
unfolding server_destroy
destroy_none per k s ys ws is =
    let e = free_get-nil k s ys ws is in rw (server_destroy, ap (λ r. r.0) e, ap (λ r. r.1) e) refl

server_destroy-Keeps :
    (per : ℕ) (s : Server) (a : Ledger)
    → Keeps 0 s a
    → length a.free ≤ per
    → Keeps 0 (server_destroy per s) (drained a a.free)
server_destroy-Keeps per s a k h = go a.free refl
  where
    go : (l : List ℕ) → a.free ≡ l → Keeps 0 (server_destroy per s) (drained a l)
    go [] e =
        let none_free : IsServer a.drift s [] a.unconnect a.waiting = rw (← e) k.held in
        rw (destroy_none per a.drift s a.unconnect a.waiting none_free)
          (server_destroyed-Keeps 0 s a k)
    go (x ∷ xs) e =
        let some_free : IsServer a.drift s (x ∷ xs) a.unconnect a.waiting = rw (← e) k.held in
        let few : length xs ≤ per = omega (arith, ap length e) in
        let (empty, log) =
          server_destroy-drain a.drift per s x xs a.unconnect a.waiting some_free few in
        let spared = server_destroy-Spared per s in
        record {
          held = empty;
          count =
              spared.count
              ∙ k.count
              ∙ ap pos (omega (arith, ap length e, length-append a.dying (x ∷ xs)));
          used = λ c. rw (spared.conns) (k.used c);
          marks = λ c. rw (spared.conns) (k.marks c);
          flag = spared.flag ∙ k.flag;
          over = ap is_freed log ∙ is_freed-destroys (x ∷ xs) s.log ∙ k.over;
          left = (server_destroy-left per s x xs a.unconnect a.waiting a.drift some_free) ∙ k.left;
          ended = ap pool_ends log ∙ pool_ends-destroys (x ∷ xs) s.log ∙ k.ended;
          handed = ap delivered log ∙ delivered-destroys (x ∷ xs) s.log ∙ k.handed;
          reqs = λ p i. rw (spared.reqs) (k.reqs p i);
        }

pub both : (x y z w : Bool) → x ≡ y → z ≡ w → (x && z) ≡ (y && w)
both x y z w e f = cc

-- The test for a teardown and what follows it.
pub sweep-Keeps :
    (per : ℕ) (s : Server) (a : Ledger)
    → Keeps 0 s a
    → length a.free + length a.unconnect ≤ per
    → Keeps 0
        (if s.destroy_flag && Server.at_rest per s then server_destroy per s else s)
        (sweep per a)
unfolding sweep
sweep-Keeps per s a k h =
    let same = both s.destroy_flag a.flag _ _ k.flag (at_rest_lem per 0 s a k h) in
    elim (Bool-cases (a.flag && all_rest per a)) [
      | inl e ↦ rw (same ∙ e, e) (server_destroy-Keeps per s a k (omega arith))
      | inr e ↦ rw (same ∙ e, e) k
    ]
