-- ===== src/Log/Buffer/Runs.antt =====
-- Any order of lines and turns of the thread, on a ring of log.cpp and on the queue it stands for.
use Prim.Native.Nat.{zero, suc}
use redis_agent.Base.{
  leb, take, if◌then◌else◌, Bool-cases, inl, inr, arith, ℕ, ◌-◌, ◌≡◌, refl, ap, ◌∙◌, List, [], ◌∷◌,
  ◌++◌, length,
}
use redis_agent.Log.Buffer.{Ring, fit, append_line, drain}
use redis_agent.Log.Buffer.Queue.{IsRing, held, append_line_refines, length-held}
use redis_agent.Log.Buffer.Drain.{drain_refines}

pub data Op : Type 0 where
  line : List ℕ → Op
  turn : Op

-- What of a line is taken into a queue with room for `n` more bytes: the whole line, or its front with
-- a newline in the last byte that there is room for.
abbrev pub shortened : ℕ → List ℕ → List ℕ
shortened zero text = []
shortened (suc n) text = take n text ++ (10 ∷ [])

abbrev pub taken : ℕ → List ℕ → List ℕ
taken n text = if leb (length text) n then text else shortened n text

fit-taken : (size n : ℕ) (text : List ℕ) → fit size (suc n) text ≡ taken n text
fit-taken size zero text = elim (Bool-cases (leb (length text) 0)) [
  | inl e ↦ ground arith
  | inr e ↦ ground arith
]
fit-taken size (suc n) text = ground arith

module _ (size : ℕ) where
  -- The bytes that reach the file, and the ring.
  unfoldable pub run : List Op → Ring → List ℕ × Ring
  run [] l = ([], l)
  run (line text ∷ ops) l = run ops (append_line size text l)
  run (turn ∷ ops) l =
      let now = drain size (λ n. n) l in let rest = run ops now.1 in (now.0 ++ rest.0, rest.1)

  -- A queue of at most `size - 1` bytes, emptied by each turn.
  unfoldable pub run_queue : List Op → List ℕ → List ℕ × List ℕ
  run_queue [] q = ([], q)
  run_queue (line text ∷ ops) q = run_queue ops (q ++ taken (size - 1 - length q) text)
  run_queue (turn ∷ ops) q = let rest = run_queue ops [] in (q ++ rest.0, rest.1)

  -- Where each fwrite writes all that it is given, and a turn of the thread comes between two lines
  -- and not within one: the file gets what the queue gives, and the ring holds what the queue does.
  -- A line is cut where the queue has no room for it.
  pub run_refines :
      (ops : List Op) (l : Ring)
      → IsRing size l
      → ((run ops l).0, held size (run ops l).1) ≡ run_queue ops (held size l)
  unfolding run run_queue
  run_refines [] l v = refl
  run_refines (line text ∷ ops) l v =
      let (v', e) = append_line_refines size text l v in
      let room : size - length (held size l) ≡ suc (size - 1 - length (held size l)) =
        omega (arith, length-held size l v) in
      let cut =
        ap (λ n. fit size n text) room ∙ fit-taken size (size - 1 - length (held size l)) text in
      run_refines ops (append_line size text l) v'
      ∙ ap (run_queue ops) (e ∙ ap (λ z. held size l ++ z) cut)
  run_refines (turn ∷ ops) l v =
      let (v', out, e) = drain_refines size (λ n. n) (λ n. refl) l v in
      let rest = run_refines ops (drain size (λ n. n) l).1 v' ∙ ap (run_queue ops) e in
      ap (λ r. ((drain size (λ n. n) l).0 ++ r.0, r.1)) rest
      ∙ ap (λ z. (z ++ (run_queue ops []).0, (run_queue ops []).1)) out
