-- ===== src/WhiteList.antt =====
-- The white list of ip_whitelist.cpp with its use in server.cpp: a thread loads the file again when it has
-- changed, and hands the new list to the event loop, which frees the one before. Each of the two files has a
-- variable `whitelist` of its own. The file system and inet_pton are arguments.
pub mod Tables
use redis_agent.Base.{
  ℕ, ◌≤◌, Bool, true, false, ◌&&◌, ◌||◌, Option, none, some, List, [], ◌∷◌, ◌++◌, ltb, leb, ◌==◌,
  if◌then◌else◌,
}
use redis_agent.Base.Int.{ℤ, pos, negsuc, ltb_ℤ}

-- `whitelist_t`
pub record Table : Type 0 where
  pub set : List ℕ
  pub mtime : ℤ

-- What the file system says: lstat's time, the pieces that fgets gives when fopen succeeds, and the
-- success of `assign`.
pub record Source : Type 0 where
  pub mtime : Option ℕ
  pub lines : Option (List (List ℕ))
  pub assign_ok : Bool

-- The lists by address; the `whitelist` of ip_whitelist.cpp, and that of server.cpp; the addresses given
-- to `free_whitelist`; and the data of the events that wait.
pub record State : Type 0 where
  pub tables : ℕ → Table
  pub loaded : Option ℕ
  pub assigned : Option ℕ
  pub freed : List ℕ
  pub pending : List (Option ℕ)

-- `get_mtime`
abbrev pub get_mtime : Source → ℤ
get_mtime src = elim (src.mtime) [ none ↦ negsuc 0 | some t ↦ pos t ]

-- Leading blanks, and the digits and dots after them.
abbrev pub trim : List ℕ → List ℕ
trim [] = []
trim (x ∷ xs) = if (x == 32) || (x == 9) then trim xs else x ∷ xs

abbrev pub number : List ℕ → List ℕ
number [] = []
number (x ∷ xs) = if (leb 48 x && leb x 57) || (x == 46) then x ∷ number xs else []

-- The test that skips a line looks at its first character: '#', '\r', '\n' or NUL.
abbrev pub skipped : List ℕ → Bool
skipped [] = true
skipped (x ∷ xs) = (x == 35) || (x == 13) || (x == 10) || (x == 0)

abbrev pub or_else : ℕ → Option ℕ → ℕ
or_else addr none = addr
or_else addr (some a) = a

-- The loop of `load_whitelist`; `addr` keeps its value where inet_pton fails.
unfoldable pub read_lines : (List ℕ → Option ℕ) → ℕ → List (List ℕ) → List ℕ
read_lines inet_pton addr [] = []
read_lines inet_pton addr (l ∷ ls) =
    let a = or_else addr (inet_pton (number (trim l))) in
    let skip = read_lines inet_pton addr ls in
    let add = read_lines inet_pton a ls in if skipped l then skip else a ∷ add

-- `load_whitelist`, with the address of the new list and what `addr` held.
unfoldable pub load_whitelist : (List ℕ → Option ℕ) → Source → ℕ → ℕ → State → Option ℕ × State
load_whitelist inet_pton src p addr s = elim (src.mtime) [
  | none ↦ (none, s)
  | some t ↦ elim (src.lines) [
    | none ↦ (none, s)
    | some ls ↦
        if src.assign_ok
        then (
          some p,
          record (s) {
            tables = λ q.
                if p == q
                then record { set = read_lines inet_pton addr ls; mtime = pos t }
                else s.tables q;
            loaded = some p;
          },
        )
        else (none, s)
  ]
]

-- `is_whitelist_changed`
abbrev pub is_whitelist_changed : Source → State → Bool
is_whitelist_changed src s = elim (s.loaded) [
  | none ↦ false
  | some p ↦ ltb_ℤ (s.tables p).mtime (get_mtime src)
]

-- `event_trigger` of the new list, and a turn of `whitelist_loop`.
abbrev pub event_trigger : Option ℕ × State → State
event_trigger r = record (r.1) { pending = r.1.pending ++ (r.0 ∷ []) }

unfoldable pub whitelist_loop : (List ℕ → Option ℕ) → Source → ℕ → ℕ → State → State
whitelist_loop inet_pton src p addr s =
    if is_whitelist_changed src s then event_trigger (load_whitelist inet_pton src p addr s) else s

-- `free_whitelist`
abbrev pub free_whitelist : Option ℕ → State → State
free_whitelist none s = s
free_whitelist (some p) s = record (s) { freed = s.freed ++ (p ∷ []) }

-- `assign_whitelist`
abbrev pub assign_whitelist : Option ℕ → State → State
assign_whitelist w s = free_whitelist s.assigned (record (s) { assigned = w })

-- `whitelist_changed_event`, for the event that waits longest.
unfoldable pub whitelist_changed_event : State → State
whitelist_changed_event s = elim (s.pending) [
  | [] ↦ s
  | w ∷ ws ↦ assign_whitelist w (record (s) { pending = ws })
]

-- `set->get(ip) == HASH_EXIST`
abbrev pub member : ℕ → List ℕ → Bool
member ip [] = false
member ip (x ∷ xs) = (x == ip) || member ip xs

-- `in_whitelist_u`
pub in_whitelist_u : ℕ → State → Bool
in_whitelist_u ip s = elim (s.loaded) [ none ↦ true | some p ↦ member ip (s.tables p).set ]

-- The start in `server_init`: no list, then the first load.
abbrev pub no_lists : (ℕ → Table) → State
no_lists tables = record {
  tables = tables;
  loaded = none;
  assigned = none;
  freed = [];
  pending = [];
}

pub whitelist_start : (List ℕ → Option ℕ) → Source → ℕ → ℕ → State → State
whitelist_start inet_pton src p addr s =
    let r = load_whitelist inet_pton src p addr s in assign_whitelist r.0 r.1
