-- ===== src/Log/Buffer/Drain.antt =====
-- What a turn of the thread of log.cpp takes from a ring.
use native.Mathlib.Decide.{dec_lt}
use redis_agent.Base.{
  ℕ, ◌+◌, ◌-◌, ◌%◌, ◌^◌, ◌<◌, ◌≡◌, refl, ap, sym, ◌∙◌, [], ◌++◌, ltb, leb, ◌==◌, if◌then◌else◌,
  arith, true, false,
}
use redis_agent.Log.Buffer.{Ring, bytes, drain}
use redis_agent.Log.Buffer.Window.{window, window_add, window-bytes, window_over}
use redis_agent.Log.Buffer.Queue.{IsRing, used, held, mod_wrap}

module _ (size : ℕ) where
  module _ (written : ℕ → ℕ) (all : (n : ℕ) → written n ≡ n) (l : Ring) (v : IsRing size l) where
    abbrev drained : Ring
    drained = record (l) { read_offset = l.write_offset }

    drain_front :
        l.read_offset < l.write_offset
        → drain size written l
          ≡ (bytes l.buf l.read_offset (l.write_offset - l.read_offset), drained)
    unfolding drain
    drain_front h =
        let a = all (l.write_offset - l.read_offset) in
        let m : (l.read_offset + (l.write_offset - l.read_offset)) % size ≡ l.write_offset =
          mod_wrap size (l.read_offset + (l.write_offset - l.read_offset))
            (omega (arith, v.writing, v.reading))
          ∙ ground (arith, v.writing, v.reading) in
        let e : (l.write_offset == l.read_offset) ≡ false = ground arith in
        let f : ltb l.read_offset l.write_offset ≡ true = ground arith in rw (e, f, a, m) refl

    drain_round :
        l.write_offset < l.read_offset
        → drain size written l ≡ (
          bytes l.buf l.read_offset (size - l.read_offset) ++ bytes l.buf 0 l.write_offset,
          drained,
        )
    unfolding drain
    drain_round h =
        let a = all (size - l.read_offset) in
        let b = all l.write_offset in
        let m : (l.read_offset + (size - l.read_offset)) % size ≡ 0 =
          mod_wrap size (l.read_offset + (size - l.read_offset)) (omega (arith, v.reading))
          ∙ ground (arith, v.reading) in
        let z : (0 + l.write_offset) % size ≡ l.write_offset =
          mod_wrap size (0 + l.write_offset) (omega (arith, v.writing))
          ∙ ground (arith, v.writing) in
        let e : (l.write_offset == l.read_offset) ≡ false = ground arith in
        let f : ltb l.read_offset l.write_offset ≡ false = ground arith in
        let s : (if leb 0 l.write_offset then l.write_offset - 0 else 2 ^ 64 + l.write_offset - 0)
            ≡ l.write_offset =
          ground arith in
        rw (e, f, a, m, s, b, z) refl

    held_round :
        l.write_offset < l.read_offset
        → bytes l.buf l.read_offset (size - l.read_offset) ++ bytes l.buf 0 l.write_offset
          ≡ held size l
    held_round h =
        let m =
          mod_wrap size (l.write_offset + size - l.read_offset)
            (omega (arith, v.writing, v.reading)) in
        let n : used size l ≡ (size - l.read_offset) + l.write_offset =
          ground (arith, v.writing, v.reading) in
        let front =
          window-bytes size l.buf l.read_offset (size - l.read_offset) (omega (arith, v.reading)) in
        let at : l.read_offset + (size - l.read_offset) ≡ size + 0 = omega (arith, v.reading) in
        let parts = window_add size l.buf l.read_offset (size - l.read_offset) l.write_offset in
        let back =
          ap (λ z. window size l.buf z l.write_offset) at
          ∙ window_over size l.buf 0 l.write_offset in
        sym (ap (window size l.buf l.read_offset) n ∙ parts ∙ rw (front, back) refl)

    held_front :
        l.read_offset < l.write_offset
        → bytes l.buf l.read_offset (l.write_offset - l.read_offset) ≡ held size l
    held_front h =
        let m =
          mod_wrap size (l.write_offset + size - l.read_offset)
            (omega (arith, v.writing, v.reading)) in
        let n : used size l ≡ l.write_offset - l.read_offset =
          ground (arith, v.writing, v.reading) in
        let front =
          window-bytes size l.buf l.read_offset (l.write_offset - l.read_offset)
            (omega (arith, v.writing)) in
        sym (ap (window size l.buf l.read_offset) n ∙ front)

    used_none : (w : ℕ) → w < size → (w + size - w) % size ≡ 0
    used_none w h = mod_wrap size (w + size - w) (omega arith) ∙ ground arith

    held-drained : held size drained ≡ []
    held-drained = rw (used_none l.write_offset v.writing) refl

    held_none : l.write_offset ≡ l.read_offset → held size l ≡ []
    held_none e = rw (e, used_none l.read_offset v.reading) refl

    drain_none : l.write_offset ≡ l.read_offset → drain size written l ≡ ([], l)
    unfolding drain
    drain_none e = let t : (l.write_offset == l.read_offset) ≡ true = ground arith in rw t refl

    -- When fwrite writes all that it is given, a turn of the thread writes what the ring holds, in order,
    -- and leaves the ring empty.
    pub drain_refines :
        IsRing size (drain size written l).1
        × ((drain size written l).0 ≡ held size l)
        × (held size (drain size written l).1 ≡ [])
    drain_refines = elim (dec_lt l.read_offset l.write_offset) [
      | yes h ↦
          rw (drain_front h)
            (record { writing = v.writing; reading = v.writing }, held_front h, held-drained)
      | no h ↦ elim (dec_lt l.write_offset l.read_offset) [
        | yes k ↦
            rw (drain_round k)
              (record { writing = v.writing; reading = v.writing }, held_round k, held-drained)
        | no k ↦
            (let e : l.write_offset ≡ l.read_offset = omega arith in
              rw (drain_none e) (v, sym (held_none e), held_none e))
      ]
    ]
