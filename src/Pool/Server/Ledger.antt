-- ===== src/Pool/Server/Ledger.antt =====
-- What one server of pool.cpp is for, without its pointers: where each of its connections is, and
-- who waits. The operations of Pool/Server are these, call by call (Ledger/Refines).
pub mod Places
pub mod Lists
pub mod History
pub mod Touch
pub mod Give
pub mod Loose
pub mod Answers
pub mod Lost
pub mod Down
pub mod Refines
pub mod Runs
pub mod End
pub mod Stuck
pub mod Finish
pub mod Order
pub mod Served
pub mod Exclusive
use redis_agent.Base.{
  ℕ, zero, suc, ◌+◌, ◌≡◌, Bool, true, false, not, ◌&&◌, ◌||◌, List, [], ◌∷◌, ◌++◌, ◌==◌, ltb,
  length, if◌then◌else◌, some,
}
use redis_agent.Base.Int.{ℤ, pos, ◌-ℤ◌, eqb_ℤ}
use redis_agent.Pool.Links.Segment.{has}
use redis_agent.Pool.Server.{
  Server, fetch_connect, on_connect_created, release_connect, on_connect_destroyed,
  waiting_queue_rm, connect_monitor, destroy_one,
}

-- The connections that are free; without a handle; asked of the plugin; with a request; and asked to
-- be destroyed. Then the waiting nodes with their requests, which
-- connection was handed to which request, the last first, the connections that broke in use, the number of those that
-- were reported destroyed after they had been released, the teardown, and its
-- end. `left` is the number of servers of the pool, `ended` how often the pool was reported destroyed.
pub record Ledger : Type 0 where
  pub free : List ℕ
  pub unconnect : List ℕ
  pub creating : List ℕ
  pub using : List ℕ
  pub dying : List ℕ
  pub waiting : List ℕ
  pub reqs : ℕ → ℕ
  pub handed : List (ℕ × ℕ)
  pub marked : ℕ → Bool
  pub drift : ℕ
  pub flag : Bool
  pub gone : Bool
  pub left : ℤ
  pub ended : ℕ

-- What happens to a server: `pool_fetch_connect` chooses it, the callbacks of the plugin, the end of a
-- request, a timeout, the timer, and `pool_destroy`.
pub data ServerCall : Type 0 where
  fetch : ℕ → ℕ → ServerCall
  created : ℕ → Bool → ServerCall
  release : ℕ → Bool → ℕ → ServerCall
  destroyed : ℕ → ServerCall
  withdraw : ℕ → ServerCall
  tick : ServerCall
  teardown : ServerCall

-- The code.
unfoldable pub handle_call : ℕ → ℕ → ServerCall → Server → Server
handle_call per low (fetch p req) s = fetch_connect per p req s
handle_call per low (created c ok) s = on_connect_created per c ok s
handle_call per low (release c failed cost) s = release_connect per c failed cost s
handle_call per low (destroyed c) s = on_connect_destroyed c s
handle_call per low (withdraw p) s = waiting_queue_rm per (some p) s
handle_call per low tick s = connect_monitor low s
handle_call per low teardown s = destroy_one per s

-- The first `c` of a list is taken out.
abbrev pub erase : ℕ → List ℕ → List ℕ
erase c [] = []
erase c (x ∷ xs) = if x == c then xs else x ∷ erase c xs

-- The connections that were made, and not destroyed since.
abbrev pub made : Ledger → ℕ
made a = length a.free + (length a.using + length a.dying)

-- All connections are free or without a handle, and none was lost from the count.
abbrev pub all_rest : ℕ → Ledger → Bool
all_rest per a = (a.drift == 0) && (length a.free + length a.unconnect == per)

-- The server is freed, and the pool with the last one.
abbrev pub finish : Ledger → Ledger
finish a = record (a) {
  gone = true;
  left = a.left -ℤ pos 1;
  ended = if eqb_ℤ (a.left -ℤ pos 1) (pos 0) then suc a.ended else a.ended;
}

-- The plugin is asked to destroy what is free; if nothing is, the server is freed.
abbrev pub drained : Ledger → List ℕ → Ledger
drained a [] = finish a
drained a (x ∷ xs) = record (a) { free = []; dying = a.dying ++ x ∷ xs }

unfoldable pub sweep : ℕ → Ledger → Ledger
sweep per a = if a.flag && all_rest per a then drained a a.free else a

-- A connection is asked for, if one is without a handle.
abbrev pub asked_from : Ledger → List ℕ → Ledger
asked_from a [] = a
asked_from a (y ∷ ys) = record (a) { unconnect = ys; creating = y ∷ a.creating }

unfoldable pub ask : Ledger → Ledger
ask a = asked_from a a.unconnect

-- A connection goes to the first that waits, or joins the free ones.
abbrev pub given : ℕ → ℕ → Ledger → List ℕ → Ledger
given per c a [] = sweep per (record (a) { free = a.free ++ c ∷ [] })
given per c a (w ∷ ws) = record (a) {
  waiting = ws;
  using = c ∷ a.using;
  handed = (c, a.reqs w) ∷ a.handed;
}

unfoldable pub give : ℕ → ℕ → Ledger → Ledger
give per c a = given per c a a.waiting

-- A connection takes the request, or the request waits and one more connection is asked for.
abbrev pub taken_from : ℕ → ℕ → ℕ → Ledger → List ℕ → Ledger
taken_from per p req a (x ∷ xs) = record (a) {
  free = xs;
  using = x ∷ a.using;
  handed = (x, req) ∷ a.handed;
}
taken_from per p req a [] =
    let b = if ltb (made a) per then ask a else a in
    record (b) { waiting = b.waiting ++ p ∷ []; reqs = λ q. if p == q then req else b.reqs q }

-- A connection is without a handle; the last one takes the server with it.
unfoldable pub lose : ℕ → Ledger → Ledger
lose c a =
    let b = record (a) { unconnect = a.unconnect ++ c ∷ [] } in
    if b.flag && (made b == 0) then finish b else b

abbrev pub mark : ℕ → Bool → (ℕ → Bool) → ℕ → Bool
mark c b f d = if c == d then b else f d

unfoldable pub lost : ℕ → Ledger → Ledger
lost c a =
    if has c a.free
    then lose c (record (a) { free = erase c a.free })
    else (if has c a.using
        then record (a) { marked = mark c true a.marked }
        else lose c (record (a) { dying = erase c a.dying; drift = suc a.drift }))

unfoldable pub note_call : ℕ → ℕ → ServerCall → Ledger → Ledger
note_call per low (fetch p req) a = taken_from per p req a a.free
note_call per low (created c ok) a =
    let b = record (a) { creating = erase c a.creating; marked = mark c false a.marked } in
    if ok then give per c b else sweep per (record (b) { unconnect = b.unconnect ++ c ∷ [] })
note_call per low (release c failed cost) a =
    let b = record (a) { using = erase c a.using } in
    if not failed && not (a.marked c) then give per c b else record (b) { dying = c ∷ b.dying }
note_call per low (destroyed c) a = lost c a
note_call per low (withdraw p) a =
    let b = record (a) { waiting = erase p a.waiting } in
    if length b.waiting == 0 then sweep per b else b
note_call per low tick a = if ltb (made a) low then ask a else a
note_call per low teardown a =
    let b = record (a) { flag = true } in if length b.waiting == 0 then sweep per b else b

-- What the plugin and the requests keep to: an answer is to a question, a connection is released by the
-- request that has it, and is reported broken once; the node of a request is new. The timer is freed before the
-- teardown, which begins once.
abbrev pub May : ServerCall → Ledger → Type 0
May (fetch p req) a = has p a.waiting ≡ false
May (created c ok) a = has c a.creating ≡ true
May (release c failed cost) a = has c a.using ≡ true
May (destroyed c) a = (has c a.free || has c a.dying || has c a.using && not (a.marked c)) ≡ true
May (withdraw p) a = has p a.waiting ≡ true
May tick a = a.flag ≡ false
May teardown a = a.flag ≡ false
