-- ===== src/Pool/Server/Ledger/Lost.antt =====
-- The report of pool.cpp's plugin that a connection has been destroyed.
use redis_agent.Base.{
  ℕ, suc, ◌≡◌, refl, ap, ◌∙◌, inl, inr, true, false, Bool, not, ◌&&◌, ◌||◌, ◌∷◌, ◌++◌, arith,
  Bool-cases,
}
use redis_agent.Base.Int.{pos}
use redis_agent.Pool.Links.Segment.{has}
use redis_agent.Pool.Server.{
  Server, emit, free_rm, on_connect_destroyed, connect_destroyed, unconnected,
}
use redis_agent.Pool.Server.Invariant.{IsServer}
use redis_agent.Pool.Server.Drop.{free_rm-remove, free_rm-drift}
use redis_agent.Pool.Server.Ledger.{Ledger, destroyed, May, erase, mark, lost}
use redis_agent.Pool.Server.Ledger.Lists.{length-erase, erase-Split}
use redis_agent.Pool.Server.Ledger.Places.{IsTally, third}
use redis_agent.Pool.Server.Ledger.Touch.{Keeps}
use redis_agent.Pool.Server.Ledger.Give.{lose-Keeps}
use redis_agent.Pool.Server.Ledger.Loose.{using-IsLoose, dying-IsLoose, free-IsLoose}

module _ (per c : ℕ) (s : Server) (a : Ledger) (k : Keeps 0 s a) (t : IsTally per a) where
  -- A free connection that the plugin reports as destroyed.
  destroyed_free :
      has c a.free ≡ true
      → Keeps 1 (free_rm c (emit unconnected s)) (record (a) { free = erase c a.free })
  unfolding free_rm
  destroyed_free h =
      let at = erase-Split c a.free h in
      let whole : IsServer a.drift s (at.front ++ c ∷ at.back) a.unconnect a.waiting =
        rw (← at.whole) k.held in
      let held : IsServer a.drift (free_rm c (emit unconnected s)) (erase c a.free) a.unconnect
          a.waiting =
        rw (at.rest) (
          free_rm-remove a.drift (emit unconnected s) c at.front at.back a.unconnect a.waiting
            whole) in
      record {
        held = held;
        count = k.count ∙ ap pos (omega (arith, length-erase c a.free h));
        used = k.used;
        marks = k.marks;
        flag = k.flag;
        over = k.over;
        left = k.left;
        ended = k.ended;
        handed = k.handed;
        reqs = k.reqs;
      }

  destroyed_dying :
      has c a.dying ≡ true
      → Keeps 1
          (free_rm c (emit unconnected s))
          (record (a) { dying = erase c a.dying; drift = suc a.drift })
  unfolding free_rm
  destroyed_dying h =
      let loose = dying-IsLoose per c a t h in
      record {
        held =
            free_rm-drift a.drift (emit unconnected s) c a.free a.unconnect a.waiting k.held
              loose.not_free loose.not_unconnect;
        count = k.count ∙ ap pos (omega (arith, length-erase c a.dying h));
        used = k.used;
        marks = k.marks;
        flag = k.flag;
        over = k.over;
        left = k.left;
        ended = k.ended;
        handed = k.handed;
        reqs = k.reqs;
      }

  broken_in_use :
      has c a.using ≡ true
      → May (destroyed c) a
      → has c a.free ≡ false
      → Keeps 0 (on_connect_destroyed c s) (record (a) { marked = mark c true a.marked })
  unfolding on_connect_destroyed
  broken_in_use h may out =
      let (loose, not_dying, few) = using-IsLoose per c a t h in
      let fresh : (s.conns c).to_be_destroyed ≡ false =
        k.marks c
        ∙ unmarked (has c a.free) (has c a.dying) (has c a.using) (a.marked c) may out not_dying in
      rw (k.used c ∙ h, fresh)
        (record {
          held = k.held;
          count = k.count;
          used = λ d. ground (arith, k.used d, k.used c);
          marks = λ d. ground (arith, k.marks d);
          flag = k.flag;
          over = k.over;
          left = k.left;
          ended = k.ended;
          handed = k.handed;
          reqs = k.reqs;
        })
    where
      unmarked :
          (f d u m : Bool) → (f || d || u && not m) ≡ true → f ≡ false → d ≡ false → m ≡ false
      unmarked f d u m e g h = ground arith

  -- `_pool_on_connect_destroyed`
  pub destroyed-Keeps : May (destroyed c) a → Keeps 0 (on_connect_destroyed c s) (lost c a)
  unfolding lost
  destroyed-Keeps may = elim (Bool-cases (has c a.free)) [
    | inl e ↦
        let (loose, out) = free-IsLoose per c a t e in
        rw (e, gone (k.used c ∙ out))
          (lose-Keeps per c (free_rm c (emit unconnected s)) (record (a) { free = erase c a.free })
            (destroyed_free e) loose)
    | inr e ↦ elim (Bool-cases (has c a.using)) [
      | inl g ↦ rw (e, g) (broken_in_use g may e)
      | inr g ↦
          let dies = third (has c a.free) (has c a.dying) (has c a.using) _ may e g in
          let loose = dying-IsLoose per c a t dies in
          rw (e, g, gone (k.used c ∙ g))
            (lose-Keeps per c (free_rm c (emit unconnected s))
              (record (a) { dying = erase c a.dying; drift = suc a.drift }) (destroyed_dying dies)
              (record {
                not_free = loose.not_free;
                not_unconnect = loose.not_unconnect;
                room = loose.room;
              }))
    ]
  ]
    where
      gone :
          (s.conns c).in_use ≡ false
          → on_connect_destroyed c s ≡ connect_destroyed c (free_rm c (emit unconnected s))
      gone e = unfold on_connect_destroyed in rw e refl
