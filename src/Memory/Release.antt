-- ===== src/Memory/Release.antt =====
-- The freeing of one block, and of all blocks of a request, of mem.cpp.
use Prim.Native.Nat.{zero, suc}
use redis_agent.Base.{
  ℕ, ◌≡◌, ◌≢◌, ◌≤◌, refl, ap, sym, ◌∙◌, List, [], ◌∷◌, ◌++◌, Option, none, some, false, arith,
  length, ◌==◌, if◌then◌else◌, append_assoc, append_nil, ◌+◌, ◌-◌, length-append,
}
use redis_agent.Pool.Links.{Nodes, same}
use redis_agent.Pool.Links.Segment.{first, Linked, Linked-frame, has_head, has-first}
use redis_agent.Pool.Links.Bridge.{next_of, Outside-ne, Distinct-remove}
use redis_agent.Pool.Links.Remove.{Distinct-behind, prev_out}
use redis_agent.Pool.Links.Unlink.{unlinked, unlinked-Without}
use redis_agent.Pool.Links.Laws.{tail_test}
use redis_agent.Memory.{Heap, unlink_block, efree, walk, efree_all}
use redis_agent.Memory.Insert.{IsBlocks}

-- The two orders of the writes to the neighbours come to the same.
unlink_block-unlinked :
    (m : Nodes) (c : ℕ) (p n : Option ℕ) (z : ℕ)
    → (m c).prev ≡ p
    → (m c).next ≡ n
    → p ≢ some c
    → n ≢ some c
    → unlink_block c m z ≡ unlinked m c z
unlink_block-unlinked m c none none z e f ne nf = rw (e, f) (ground (arith, e, f))
unlink_block-unlinked m c none (some b) z e f ne nf =
    let nb : (b == c) ≡ false = tail_test b c nf in rw (e, f) (ground (arith, e, f, nb))
unlink_block-unlinked m c (some a) none z e f ne nf =
    let na : (a == c) ≡ false = tail_test a c ne in rw (e, f) (ground (arith, e, f, na))
unlink_block-unlinked m c (some a) (some b) z e f ne nf =
    let na : (a == c) ≡ false = tail_test a c ne in
    let nb : (b == c) ≡ false = tail_test b c nf in rw (e, f) (ground (arith, e, f, na, nb))

-- A block that is freed leaves the list; the others stay in it, in their order.
pub efree-IsBlocks :
    (h : Heap) (xs : List ℕ) (c : ℕ) (ys : List ℕ)
    → IsBlocks h (xs ++ c ∷ ys)
    → IsBlocks (efree c h) (xs ++ ys) × ((efree c h).freed ≡ h.freed ++ (c ∷ []))
unfolding efree
efree-IsBlocks h xs c ys is =
    let m = h.nodes in
    let next_is = next_of m none xs c ys is.tail is.links in
    let own = Distinct-behind xs c ys is.distinct in
    let out = prev_out m xs c ys is.tail is.links is.distinct in
    let without = unlinked-Without m is.tail xs c ys is.links is.distinct in
    let nc = Outside-ne c (m c).prev (c ∷ ys) out (has_head c ys) in
    let eq = λ (z : ℕ).
      unlink_block-unlinked m c (m c).prev (first ys) z refl next_is nc
        (λ e. let i = has-first c ys e in let o = own.0 in cc) in
    (
      record {
        tail = if same (some c) is.tail then (m c).prev else is.tail;
        links =
            Linked-frame (unlinked m c) (unlink_block c m) none (xs ++ ys) _ without.links
              (λ z i. eq z);
        distinct = Distinct-remove xs c ys is.distinct;
      },
      refl,
    )

abbrev pub reverse : List ℕ → List ℕ
reverse [] = []
reverse (x ∷ xs) = reverse xs ++ (x ∷ [])

-- The loop forwards frees the rest of the list, the one backwards what is before a block, each with fuel
-- for every block.
walk_forward :
    (m : Nodes) (before : Option ℕ) (ys : List ℕ) (tail : Option ℕ) (fuel : ℕ)
    → Linked m before ys tail
    → length ys ≤ fuel
    → walk (λ p. (m p).next) fuel (first ys) ≡ some ys
unfolding walk
walk_forward m before [] tail fuel h l = refl
walk_forward m before (y ∷ ys) tail zero h l = absurd (omega arith)
walk_forward m before (y ∷ ys) tail (suc fuel) h l =
    let rest = walk_forward m (some y) ys tail fuel h.2 (omega arith) in
    let at = h.1 in rw (at, rest) refl

walk_backward :
    (m : Nodes) (before : Option ℕ) (xs : List ℕ) (c : ℕ) (ys : List ℕ) (tail : Option ℕ) (fuel : ℕ)
    (rest : List ℕ)
    → Linked m before (xs ++ c ∷ ys) tail
    → walk (λ p. (m p).prev) fuel before ≡ some rest
    → walk (λ p. (m p).prev) (length xs + fuel) (m c).prev ≡ some (reverse xs ++ rest)
walk_backward m before [] c ys tail fuel rest h e =
    let none_ : 0 + fuel ≡ fuel = omega arith in rw (none_, h.0) e
walk_backward m before (x ∷ xs) c ys tail fuel rest h e =
    let more : suc (length xs) + fuel ≡ length xs + suc fuel = omega arith in
    let one : walk (λ p. (m p).prev) (suc fuel) (some x) ≡ some (x ∷ rest) =
      unfold walk in rw (h.0, e) refl in
    rw (more, append_assoc (reverse xs) (x ∷ []) rest)
      (walk_backward m (some x) xs c ys tail (suc fuel) (x ∷ rest) h.2 one)

walk-none : (step : ℕ → Option ℕ) (fuel : ℕ) → walk step fuel none ≡ some []
unfolding walk
walk-none step fuel = refl

Linked-behind :
    (m : Nodes) (before : Option ℕ) (xs : List ℕ) (c : ℕ) (ys : List ℕ) (tail : Option ℕ)
    → Linked m before (xs ++ c ∷ ys) tail
    → Linked m (some c) ys tail
Linked-behind m before [] c ys tail h = h.2
Linked-behind m before (x ∷ xs) c ys tail h = Linked-behind m (some x) xs c ys tail h.2

-- From any block of the request, `efree_all` frees each of its blocks once, and no other: those behind
-- it, those before it, and itself. Fuel for all blocks is enough.
pub efree_all-IsBlocks :
    (h : Heap) (xs : List ℕ) (c : ℕ) (ys : List ℕ) (fuel : ℕ)
    → IsBlocks h (xs ++ c ∷ ys)
    → length (xs ++ c ∷ ys) ≤ fuel
    → efree_all fuel c h ≡ some (record (h) { freed = h.freed ++ (ys ++ (reverse xs ++ (c ∷ []))) })
unfolding efree_all
efree_all-IsBlocks h xs c ys fuel is l =
    let m = h.nodes in
    let next_is = next_of m none xs c ys is.tail is.links in
    let size = length-append xs (c ∷ ys) in
    let forward =
      walk_forward m (some c) ys is.tail fuel (Linked-behind m none xs c ys is.tail is.links)
        (omega arith) in
    let backward =
      walk_backward m none xs c ys is.tail (fuel - length xs) [] is.links
        (walk-none (λ p. (m p).prev) (fuel - length xs)) in
    let all : length xs + (fuel - length xs) ≡ fuel = omega arith in
    let back =
      ap (λ f. walk (λ p. (m p).prev) f (m c).prev) (sym all)
      ∙ backward
      ∙ ap some (append_nil (reverse xs)) in
    let front = ap (walk (λ p. (m p).next) fuel) next_is ∙ forward in
    rw (efree_all, front, back) refl
