-- ===== src/Examples/WhiteList.antt =====
-- White lists for ip_whitelist.cpp.
use redis_agent.Base.{◌≡◌, refl, [], ◌∷◌, none, some, true}
use redis_agent.Base.Int.{pos}
use redis_agent.Pool.Links.Segment.{has}
use redis_agent.WhiteList.{State, Source, whitelist_loop, whitelist_changed_event}
use redis_agent.WhiteList.Tables.{IsSound, whitelist_loop-IsSound, whitelist_loop-unreadable}

abbrev one_list : State
one_list = record {
  tables = λ p. record { set = 7 ∷ []; mtime = pos 1 };
  loaded = some 0;
  assigned = some 0;
  freed = [];
  pending = [];
}

one_list-IsSound : IsSound one_list 0 []
one_list-IsSound = record { assigned = refl; pending = refl; loaded = refl; alive = (refl, tt) }

abbrev newer : Source
newer = record { mtime = some 2; lines = some ((49 ∷ []) ∷ []); assign_ok = true }

whitelist_loop-IsSound_example :
    IsSound (whitelist_loop (λ t. some 5) newer 1 0 one_list) 0 (1 ∷ [])
whitelist_loop-IsSound_example =
    whitelist_loop-IsSound (λ t. some 5) newer 1 0 one_list 0 [] 2 ((49 ∷ []) ∷ []) one_list-IsSound
      (record { mtime = refl; lines = refl; assign_ok = refl }) refl

-- The file is newer, but cannot be opened.
abbrev unreadable : Source
unreadable = record { mtime = some 2; lines = none; assign_ok = true }

whitelist_loop-unreadable_example :
    let after = whitelist_changed_event (whitelist_loop (λ t. some 5) unreadable 1 0 one_list) in
    (after.loaded ≡ some 0) × (has 0 after.freed ≡ true)
whitelist_loop-unreadable_example =
    whitelist_loop-unreadable (λ t. some 5) unreadable 1 0 one_list 0 one_list-IsSound refl refl
