-- ===== src/Memory.antt =====
-- The memory of a request, of mem.cpp: every block has a head that links it with the other blocks of the
-- same request, so that all can be freed from any of them. A block is named by its address, NULL is `none`, and what
-- malloc or realloc gives is an argument; the bytes of a block are not modelled.
pub mod Insert
pub mod Release
use Prim.Native.Nat.{zero, suc}
use redis_agent.Base.{ℕ, Option, none, some, List, [], ◌∷◌, ◌++◌, ◌==◌, if◌then◌else◌}
use redis_agent.Pool.Links.{Node, Nodes, write, set_prev, set_next}

-- The heads, `_mem_pre`: their links, the user's pointer, and the blocks given to `free` so far.
pub record Heap : Type 0 where
  pub nodes : Nodes
  pub data_ : ℕ → ℕ
  pub freed : List ℕ

-- `newmem` behind `oldmem`, as `emalloc` and `ecalloc` link it: three writes, and the one to the block
-- that was behind `oldmem`.
abbrev pub link_new : ℕ → ℕ → Nodes → Nodes
link_new base p m =
    let m₁ = write m p (record { next = (m base).next; prev = (m p).prev }) in
    let m₂ = set_next m₁ (some base) (some p) in set_prev m₂ (some p) (some base)

abbrev pub link_behind : ℕ → ℕ → Nodes → Nodes
link_behind base p m = let m₃ = link_new base p m in set_prev m₃ (m₃ p).next (some p)

abbrev pub set_data : ℕ → ℕ → Heap → Heap
set_data p v h = record (h) { data_ = λ q. if p == q then v else h.data_ q }

-- `emalloc`
unfoldable pub emalloc : Option ℕ → ℕ → Heap → Option ℕ × Heap
emalloc none base h = (none, h)
emalloc (some p) base h =
    (some p, set_data p (h.data_ base) (record (h) { nodes = link_behind base p h.nodes }))

-- `ecalloc`
abbrev pub ecalloc : Option ℕ → ℕ → Heap → Option ℕ × Heap
ecalloc p base h = emalloc p base h

-- `erealloc`: the head is copied with the block.
unfoldable pub erealloc : Option ℕ → ℕ → Heap → Option ℕ × Heap
erealloc none c h = (none, h)
erealloc (some p) c h =
    let m₁ = write h.nodes p (h.nodes c) in
    let m₂ = set_prev m₁ (m₁ p).next (some p) in
    (some p, set_data p (h.data_ c) (record (h) { nodes = set_next m₂ (m₂ p).prev (some p) }))

-- `emalloc_new`; the user's pointer is what the memory held.
unfoldable pub emalloc_new : Option ℕ → Heap → Option ℕ × Heap
emalloc_new none h = (none, h)
emalloc_new (some p) h =
    (some p, record (h) { nodes = write h.nodes p (record { next = none; prev = none }) })

-- `ecalloc_new`
abbrev pub ecalloc_new : Option ℕ → Heap → Option ℕ × Heap
ecalloc_new none h = (none, h)
ecalloc_new (some p) h = (
  some p,
  set_data p 0 (record (h) { nodes = write h.nodes p (record { next = none; prev = none }) }),
)

-- `emalloc_safe` and `ecalloc_safe`
abbrev pub emalloc_safe : Option ℕ → Option ℕ → Heap → Option ℕ × Heap
emalloc_safe p none h = emalloc_new p h
emalloc_safe p (some base) h = emalloc p base h

abbrev pub ecalloc_safe : Option ℕ → Option ℕ → Heap → Option ℕ × Heap
ecalloc_safe p none h = ecalloc_new p h
ecalloc_safe p (some base) h = ecalloc p base h

-- `efree`
abbrev pub unlink_block : ℕ → Nodes → Nodes
unlink_block c m = let m₁ = set_prev m (m c).next (m c).prev in set_next m₁ (m₁ c).prev (m₁ c).next

unfoldable pub efree : ℕ → Heap → Heap
efree c h = record (h) { nodes = unlink_block c h.nodes; freed = h.freed ++ (c ∷ []) }

-- A loop of `efree_all`, on fuel: the blocks that it frees, from `p` on along `step`; `none` is out of fuel.
unfoldable pub walk : (ℕ → Option ℕ) → ℕ → Option ℕ → Option (List ℕ)
walk step fuel none = some []
walk step zero (some p) = none
walk step (suc fuel) (some p) = elim (walk step fuel (step p)) [
  | none ↦ none
  | some ps ↦ some (p ∷ ps)
]

-- `efree_all`
unfoldable pub efree_all : ℕ → ℕ → Heap → Option Heap
efree_all fuel c h = elim (walk (λ p. (h.nodes p).next) fuel (h.nodes c).next) [
  | none ↦ none
  | some ns ↦ elim (walk (λ p. (h.nodes p).prev) fuel (h.nodes c).prev) [
    | none ↦ none
    | some ps ↦ some (record (h) { freed = h.freed ++ (ns ++ (ps ++ (c ∷ []))) })
  ]
]

-- `e_set_data` and `e_get_data`
abbrev pub e_set_data : ℕ → ℕ → Heap → Heap
e_set_data base v h = set_data base v h

abbrev pub e_get_data : ℕ → Heap → ℕ
e_get_data base h = h.data_ base
