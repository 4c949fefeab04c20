-- ===== src/Examples/Memory.antt =====
-- Blocks of a request for mem.cpp.
use redis_agent.Base.{◌≡◌, refl, [], ◌∷◌, some, arith}
use redis_agent.Pool.Links.{blank}
use redis_agent.Memory.{Heap, emalloc, efree_all}
use redis_agent.Memory.Insert.{IsBlocks, emalloc-IsBlocks}
use redis_agent.Memory.Release.{efree_all-IsBlocks}

-- One block, with the user's pointer 9.
abbrev one_block : Heap
one_block = record { nodes = λ p. blank; data_ = λ p. 9; freed = [] }

one_block-IsBlocks : IsBlocks one_block (0 ∷ [])
one_block-IsBlocks = record { tail = some 0; links = (refl, refl, refl); distinct = (refl, tt) }

pair_links : IsBlocks (emalloc (some 1) 0 one_block).1 (0 ∷ 1 ∷ [])
pair_links = (emalloc-IsBlocks one_block [] 0 [] 1 one_block-IsBlocks refl).1

efree_all-IsBlocks_example :
    efree_all 2 1 (emalloc (some 1) 0 one_block).1
    ≡ some (record ((emalloc (some 1) 0 one_block).1) { freed = 0 ∷ 1 ∷ [] })
unfolding emalloc
efree_all-IsBlocks_example =
    efree_all-IsBlocks (emalloc (some 1) 0 one_block).1 (0 ∷ []) 1 [] 2 pair_links (omega arith)
