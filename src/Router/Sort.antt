-- ===== src/Router/Sort.antt =====
-- `_quicksort` of router.cpp: the in-place sort of the requests of a batch by shard.
-- The array `backend_req_t **` is a function from positions to requests. The last index `end` of
-- the source is `stop - 1` here, so that an empty range at position 0 needs no negative number.
pub mod Memory
pub mod Partition
pub mod Correct
use redis_agent.Base.{ℕ, zero, suc, ◌+◌, ◌-◌, List, leb, ◌==◌, if◌then◌else◌}

-- `struct backend_req`: the text of the key, the address of the value, and the shard.
pub record BackendReq : Type 0 where
  pub key : List ℕ
  pub value : ℕ
  pub shard_key : ℕ

abbrev pub Batch : Type 0
Batch = ℕ → BackendReq

-- `backend_req[i] = v`
abbrev pub put : Batch → ℕ → BackendReq → Batch
put a i v j = if i == j then v else a j

-- `while (l<r && tmp->shard_key<=backend_req[r]->shard_key) r--`, where `n` is `r - l`.
unfoldable pub scan_right : Batch → BackendReq → ℕ → ℕ → ℕ
scan_right a tmp l zero = zero
scan_right a tmp l (suc n) =
    if leb tmp.shard_key (a (l + suc n)).shard_key then scan_right a tmp l n else suc n

-- `while (l<r && tmp->shard_key>=backend_req[l]->shard_key) l++`, where `n` is `r - l`.
unfoldable pub scan_left : Batch → BackendReq → ℕ → ℕ → ℕ
scan_left a tmp r zero = zero
scan_left a tmp r (suc n) =
    if leb (a (r - suc n)).shard_key tmp.shard_key then scan_left a tmp r n else suc n

-- The outer loop, `while (l < r)`, again with `n` for `r - l`, on fuel; it ends with the position
-- where the two pointers meet.
unfoldable pub partition : ℕ → Batch → BackendReq → ℕ → ℕ → Batch × ℕ
partition zero a tmp l n = (a, l)
partition (suc fuel) a tmp l n =
    let right = scan_right a tmp l n in
    let a' = put a l (a (l + right)) in
    let left = scan_left a' tmp (l + right) right in
    let rest =
      partition fuel (put a' (l + right) (a' (l + right - left))) tmp (l + right - left) left in
    if n == 0 then (a, l) else rest

-- One level of the recursion up to the two recursive calls: where the first element ends up.
unfoldable pub split : Batch → ℕ → ℕ → Batch × ℕ
split a start stop =
    let (a', r) = partition (stop - start) a (a start) start (stop - start - 1) in
    (put a' r (a start), r)

unfoldable pub quicksort : ℕ → Batch → ℕ → ℕ → Batch
quicksort zero a start stop = a
quicksort (suc fuel) a start stop =
    let parted = split a start stop in
    let rest = quicksort fuel (quicksort fuel parted.0 start parted.1) (parted.1 + 1) stop in
    if leb stop (start + 1) then a else rest
