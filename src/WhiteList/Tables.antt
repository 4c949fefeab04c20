-- ===== src/WhiteList/Tables.antt =====
-- Which lists of ip_whitelist.cpp and server.cpp are alive.
use mathlib.Core.Path.{subst}
use redis_agent.Base.{
  ℕ, ◌≡◌, refl, ap, sym, ◌∙◌, true, false, Option, none, some, List, [], ◌∷◌, ◌++◌, map, arith,
  ◌==◌, if◌then◌else◌, append_assoc, Bool-cases, Option-cases, inl, inr,
}
use redis_agent.Pool.Links.Segment.{has, Distinct, has-append, has_right, has_head, has_tail}
use redis_agent.WhiteList.{
  State, Source, load_whitelist, is_whitelist_changed, whitelist_loop, whitelist_changed_event,
  assign_whitelist, event_trigger,
}

abbrev pub last : ℕ → List ℕ → ℕ
last q [] = q
last q (r ∷ rs) = last r rs

-- The lists `q ∷ qs` are in use: the event loop has the first, the others wait, and the thread has the
-- last. None of them is freed, and none was freed twice.
pub record IsSound (s : State) (q : ℕ) (qs : List ℕ) : Type 0 where
  pub assigned : s.assigned ≡ some q
  pub pending : s.pending ≡ map some qs
  pub loaded : s.loaded ≡ some (last q qs)
  pub alive : Distinct (s.freed ++ q ∷ qs)

-- A source from which `load_whitelist` makes a list.
pub record IsReadable (src : Source) (t : ℕ) (ls : List (List ℕ)) : Type 0 where
  pub mtime : src.mtime ≡ some t
  pub lines : src.lines ≡ some ls
  pub assign_ok : src.assign_ok ≡ true

map-append_one : (qs : List ℕ) (p : ℕ) → map some qs ++ (some p ∷ []) ≡ map some (qs ++ (p ∷ []))
map-append_one [] p = refl
map-append_one (q ∷ qs) p = ap (λ z. some q ∷ z) (map-append_one qs p)

last-append_one : (q : ℕ) (qs : List ℕ) (p : ℕ) → last q (qs ++ (p ∷ [])) ≡ p
last-append_one q [] p = refl
last-append_one q (r ∷ rs) p = last-append_one r rs p

Distinct-append_one :
    (xs : List ℕ) (p : ℕ) → Distinct xs → has p xs ≡ false → Distinct (xs ++ (p ∷ []))
Distinct-append_one [] p d out = (refl, tt)
Distinct-append_one (x ∷ xs) p d out =
    (ground (arith, d.0, has-append x xs (p ∷ [])), Distinct-append_one xs p d.1 (ground arith))

event_first :
    (s : State) (w : Option ℕ) (ws : List (Option ℕ))
    → s.pending ≡ w ∷ ws
    → whitelist_changed_event s ≡ assign_whitelist w (record (s) { pending = ws })
unfolding whitelist_changed_event
event_first s w ws e = rw e refl

module _ (inet_pton : List ℕ → Option ℕ) (src : Source) (p addr : ℕ) where
  load_readable :
      (s : State) (t : ℕ) (ls : List (List ℕ))
      → IsReadable src t ls
      → let r = load_whitelist inet_pton src p addr s in
        (r.0 ≡ some p)
        × (r.1.loaded ≡ some p)
        × (r.1.assigned ≡ s.assigned)
        × (r.1.freed ≡ s.freed)
        × (r.1.pending ≡ s.pending)
  unfolding load_whitelist
  load_readable s t ls ok = rw (ok.mtime, ok.lines, ok.assign_ok) (refl, refl, refl, refl, refl)

  load_unreadable :
      (s : State) → src.lines ≡ none → load_whitelist inet_pton src p addr s ≡ (none, s)
  unfolding load_whitelist
  load_unreadable s e = elim (Option-cases src.mtime) [
    | inl m ↦ rw (load_whitelist, m) refl
    | inr (t, m) ↦ rw (load_whitelist, m, e) refl
  ]

  loop_changed :
      (s : State)
      → is_whitelist_changed src s ≡ true
      → whitelist_loop inet_pton src p addr s
        ≡ event_trigger (load_whitelist inet_pton src p addr s)
  unfolding whitelist_loop
  loop_changed s e = rw e refl

  loop_same :
      (s : State) → is_whitelist_changed src s ≡ false → whitelist_loop inet_pton src p addr s ≡ s
  unfolding whitelist_loop
  loop_same s e = rw e refl

  triggered-IsSound :
      (s : State) (q : ℕ) (qs : List ℕ) (t : ℕ) (ls : List (List ℕ))
      → IsSound s q qs
      → IsReadable src t ls
      → has p (s.freed ++ q ∷ qs) ≡ false
      → IsSound (event_trigger (load_whitelist inet_pton src p addr s)) q (qs ++ (p ∷ []))
  triggered-IsSound s q qs t ls is ok out =
      let (r, l, a, f, w) = load_readable s t ls ok in
      let end_ = append_assoc s.freed (q ∷ qs) (p ∷ []) in
      record {
        assigned = a ∙ is.assigned;
        pending = rw (r, w, is.pending) (map-append_one qs p);
        loaded = l ∙ ap some (sym (last-append_one q qs p));
        alive = rw (f, ← end_) (Distinct-append_one (s.freed ++ q ∷ qs) p is.alive out);
      }

  -- A turn of the thread that finds a readable file keeps the lists in order, with the new one as the
  -- last when the file has changed.
  pub whitelist_loop-IsSound :
      (s : State) (q : ℕ) (qs : List ℕ) (t : ℕ) (ls : List (List ℕ))
      → IsSound s q qs
      → IsReadable src t ls
      → has p (s.freed ++ q ∷ qs) ≡ false
      → IsSound
          (whitelist_loop inet_pton src p addr s)
          q
          (if is_whitelist_changed src s then qs ++ (p ∷ []) else qs)
  whitelist_loop-IsSound s q qs t ls is ok out = elim (Bool-cases (is_whitelist_changed src s)) [
    | inl e ↦ rw (loop_changed s e, e) (triggered-IsSound s q qs t ls is ok out)
    | inr e ↦ rw (loop_same s e, e) is
  ]

  -- A turn that finds a newer file which it cannot open hands on NULL: the event then frees the list
  -- that the look-up still uses.
  pub whitelist_loop-unreadable :
      (s : State) (q : ℕ)
      → IsSound s q []
      → is_whitelist_changed src s ≡ true
      → src.lines ≡ none
      → let after = whitelist_changed_event (whitelist_loop inet_pton src p addr s) in
        (after.loaded ≡ some q) × (has q after.freed ≡ true)
  whitelist_loop-unreadable s q is changed bad =
      let turn = loop_changed s changed ∙ ap event_trigger (load_unreadable s bad) in
      let one : s.pending ++ (none ∷ []) ≡ none ∷ [] = rw (is.pending) refl in
      let event = event_first (record (s) { pending = s.pending ++ (none ∷ []) }) none [] one in
      let end_ = has_right q s.freed (q ∷ []) (has_head q []) in
      rw (turn, event, is.assigned) (is.loaded, end_)

-- The event loop frees the list that it had, and no other: the one that the look-up uses is alive.
whitelist_changed_event-IsSound :
    (s : State) (q r : ℕ) (qs : List ℕ)
    → IsSound s q (r ∷ qs)
    → IsSound (whitelist_changed_event s) r qs
      × ((whitelist_changed_event s).freed ≡ s.freed ++ (q ∷ []))
whitelist_changed_event-IsSound s q r qs is =
    let event = event_first s (some r) (map some qs) is.pending in
    let end_ = append_assoc s.freed (q ∷ []) (r ∷ qs) in
    rw (event, is.assigned)
      (
        record { assigned = refl; pending = refl; loaded = is.loaded; alive = rw end_ is.alive },
        refl,
      )

last_in : (q : ℕ) (qs : List ℕ) → has (last q qs) (q ∷ qs) ≡ true
last_in q [] = has_head q []
last_in q (r ∷ rs) = has_tail (last r rs) q (r ∷ rs) (last_in r rs)

alive_out : (xs ys : List ℕ) (p : ℕ) → Distinct (xs ++ ys) → has p ys ≡ true → has p xs ≡ false
alive_out [] ys p d i = refl
alive_out (x ∷ xs) ys p d i =
    let rest = alive_out xs ys p d.1 i in
    elim (Bool-cases (x == p)) [
      | inl e ↦
          (let at : p ≡ x = ground arith in
            let both : has x ys ≡ true = subst (λ z. has z ys ≡ true) at i in
            ground (arith, d.0, has-append x xs ys))
      | inr e ↦ ground arith
    ]

-- The list that the look-up uses is not freed.
pub IsSound-loaded :
    (s : State) (q : ℕ) (qs : List ℕ)
    → IsSound s q qs
    → (p : ℕ) × (s.loaded ≡ some p) × (has p s.freed ≡ false)
IsSound-loaded s q qs is =
    (last q qs, is.loaded, alive_out s.freed (q ∷ qs) (last q qs) is.alive (last_in q qs))
