-- ===== src/Log/Buffer/Queue.antt =====
-- A ring of log.cpp is a queue of bytes with a bound.
use native.Mathlib.Decide.{dec_lt}
use native.Mathlib.Nat.{mod-eq_of_lt, mod-eq-sub-mod}
use redis_agent.Base.{
  ℕ, ◌+◌, ◌-◌, ◌%◌, ◌<◌, ◌≤◌, ◌≡◌, refl, ap, sym, ◌∙◌, List, [], ◌∷◌, ◌++◌, length, arith, take,
  length-append, length-take_le,
}
use redis_agent.Log.Buffer.{Ring, fit, left_size, store, append_line}
use redis_agent.Log.Buffer.Window.{
  wrap, window, window_add, length-window, window_same, window_list, store-at, store-outside,
}

module _ (size : ℕ) where
  -- Both offsets are in the buffer.
  pub record IsRing (l : Ring) : Type 0 where
    pub writing : l.write_offset < size
    pub reading : l.read_offset < size

  abbrev pub used : Ring → ℕ
  used l = (l.write_offset + size - l.read_offset) % size

  -- The bytes between the two offsets.
  abbrev pub held : Ring → List ℕ
  held l = window size l.buf l.read_offset (used l)

  pub mod_over : (a : ℕ) → size ≤ a → a < size + size → a % size ≡ a - size
  mod_over a h g = mod-eq-sub-mod {n = a} {m = size} h ∙ mod-eq_of_lt (omega arith)

  pub mod_wrap : (a : ℕ) → a < size + size → a % size ≡ wrap size a
  mod_wrap a g = elim (dec_lt a size) [
    | yes h ↦ (let m = mod-eq_of_lt h in ground arith)
    | no h ↦ (let m = mod_over a (omega arith) g in ground arith)
  ]

  wrap_small : (a : ℕ) → a < size + size → wrap size a < size
  wrap_small a h = ground arith

  -- The offset to write at is `n` bytes past the one to read from.
  pub used-wrap :
      (w r : ℕ)
      → w < size
      → r < size
      → ((w + size - r) % size < size) × (w ≡ wrap size (r + (w + size - r) % size))
  used-wrap w r hw hr = let m = mod_wrap (w + size - r) (omega arith) in rw m (ground arith)

  wrap-used : (r n : ℕ) → r < size → n < size → (wrap size (r + n) + size - r) % size ≡ n
  wrap-used r n hr hn =
      let small : wrap size (r + n) < size = ground arith in
      let m = mod_wrap (wrap size (r + n) + size - r) (omega arith) in rw m (ground arith)

  fit_lem : (left : ℕ) (line : List ℕ) → length (fit size left line) ≤ left - 1
  fit_lem left line = elim (dec_lt (left - 1) (length line)) [
    | yes h ↦
        (let t = length-take_le (left - 1 - 1) line (omega arith) in
          let l = length-append (take (left - 1 - 1) line) (10 ∷ []) in ground arith)
    | no h ↦ ground arith
  ]

  -- The parts of a window of which the second is a line that was just stored at its place.
  store-window :
      (m : ℕ → ℕ) (r n : ℕ) (line : List ℕ)
      → r < size
      → n + length line < size
      → window size (store size m (wrap size (r + n)) line) r (n + length line)
        ≡ window size m r n ++ line
  store-window m r n line hr hl =
      let off = wrap size (r + n) in
      let ho : off < size = ground arith in
      let before =
        window_same size m (store size m off line) r n
          (λ j a b. store-outside size m off (wrap size j) line ho (ground arith) (ground arith)) in
      let here = window_list size (store size m off line) (r + n) line (λ j b.
        ap (store size m off line) (ground arith)
        ∙ store-at size m off j line ho (omega arith) b) in
      window_add size (store size m off line) r n (length line) ∙ rw (before, here) refl

  store-held :
      (m : ℕ → ℕ) (w r : ℕ) (line : List ℕ)
      → w < size
      → r < size
      → (w + size - r) % size + length line < size
      → window size (store size m w line) r (((w + length line) % size + size - r) % size)
        ≡ window size m r ((w + size - r) % size) ++ line
  store-held m w r line hw hr hl =
      let n = (w + size - r) % size in
      let (hn, at) = used-wrap w r hw hr in
      let over = mod_wrap (w + length line) (omega arith) in
      let next : (w + length line) % size ≡ wrap size (r + (n + length line)) = ground arith in
      let count : ((w + length line) % size + size - r) % size ≡ n + length line =
        rw next (wrap-used r (n + length line) hr hl) in
      rw count (
        ap (λ z. window size (store size m z line) r (n + length line)) at
        ∙ store-window m r n line hr hl)

  -- A line goes to the end of what the ring holds, cut to the room that there is.
  pub append_line_refines :
      (text : List ℕ) (l : Ring)
      → IsRing l
      → IsRing (append_line size text l)
        × (held (append_line size text l) ≡ held l ++ fit size (size - length (held l)) text)
  unfolding append_line
  append_line_refines text l v =
      let line = fit size (left_size size l) text in
      let short = fit_lem (left_size size l) text in
      let (hn, at) = used-wrap l.write_offset l.read_offset v.writing v.reading in
      let size_held = length-window size l.buf l.read_offset (used l) in
      let over = mod_wrap (l.write_offset + length line) (omega (arith, v.writing)) in
      (
        record {
          writing = rw over (wrap_small (l.write_offset + length line) (omega (arith, v.writing)));
          reading = v.reading;
        },
        store-held l.buf l.write_offset l.read_offset line v.writing v.reading (omega arith)
            ∙ ap (λ z. held l ++ fit size (size - z) text) (sym size_held),
      )

  pub length-held : (l : Ring) → IsRing l → length (held l) < size
  length-held l v =
      let n = length-window size l.buf l.read_offset (used l) in
      let (b, at) = used-wrap l.write_offset l.read_offset v.writing v.reading in omega arith
