-- ===== src/Log/Buffer.antt =====
-- The two buffers between log_printf and log_thread_loop of log.cpp: a ring of bytes with an offset to
-- write at and one to read from. What fwrite reports as written is an argument.
pub mod Window
pub mod Queue
pub mod Drain
pub mod Runs
use redis_agent.Base.{
  ℕ, ◌+◌, ◌-◌, ◌*◌, ◌%◌, ◌^◌, Bool, List, [], ◌∷◌, ◌++◌, Option, ltb, leb, ◌==◌, if◌then◌else◌,
  ◌&&◌, length, take, drop, true, false,
}
use Prim.Native.Nat.{zero, suc}

-- LOG_BUF_SIZE
abbrev pub log_buf_size : ℕ
log_buf_size = 16 * 1024 * 1024

-- `log_buf`, `log_write_offset` and `log_read_offset`, or those of the wf log.
pub record Ring : Type 0 where
  pub buf : ℕ → ℕ
  pub write_offset : ℕ
  pub read_offset : ℕ

abbrev pub get_or : List ℕ → ℕ → ℕ
get_or [] i = 0
get_or (x ∷ xs) zero = x
get_or (x ∷ xs) (suc i) = get_or xs i

-- `memcpy(buf + off, xs, length xs)`
abbrev pub memcpy : (ℕ → ℕ) → ℕ → List ℕ → ℕ → ℕ
memcpy m off xs i = if leb off i && ltb i (off + length xs) then get_or xs (i - off) else m i

-- The bytes `buf[off]` to `buf[off + n - 1]`.
abbrev pub bytes : (ℕ → ℕ) → ℕ → ℕ → List ℕ
bytes m off zero = []
bytes m off (suc n) = m off ∷ bytes m (suc off) n

module _ (size : ℕ) where
  -- `buf_left_size`
  abbrev pub left_size : Ring → ℕ
  left_size l = size - (l.write_offset + size - l.read_offset) % size

  -- What of a line is stored: all, or as much as there is room for, ending in a newline, or nothing.
  abbrev pub fit : ℕ → List ℕ → List ℕ
  fit left line =
      if ltb (left - 1) (length line)
      then (if ltb 0 (left - 1) then take (left - 1 - 1) line ++ (10 ∷ []) else [])
      else line

  -- The one or two copies.
  abbrev pub store : (ℕ → ℕ) → ℕ → List ℕ → ℕ → ℕ
  store m off line =
      if ltb (off + length line) size
      then memcpy m off line
      else memcpy (memcpy m off (take (size - off) line)) 0 (drop (size - off) line)

  -- The end of `log_printf`: a line goes into the ring.
  unfoldable pub append_line : List ℕ → Ring → Ring
  append_line text l =
      let line = fit (left_size l) text in
      record {
        buf = store l.buf l.write_offset line;
        write_offset = (l.write_offset + length line) % size;
        read_offset = l.read_offset;
      }

  -- `write - read` as the size_t that fwrite takes.
  abbrev pub span : ℕ → ℕ → ℕ
  span write read = if leb read write then write - read else 2 ^ 64 + write - read

  -- One fwrite of `n` bytes from the read offset, of which `written n` are written.
  abbrev pub put_out : (ℕ → ℕ) → ℕ → Ring → List ℕ × Ring
  put_out written n l = (
    bytes l.buf l.read_offset (written n),
    record (l) { read_offset = (l.read_offset + written n) % size },
  )

  -- One turn of `log_thread_loop` on a ring: the bytes that reach the file.
  unfoldable pub drain : (ℕ → ℕ) → Ring → List ℕ × Ring
  drain written l =
      if l.write_offset == l.read_offset
      then ([], l)
      else (if ltb l.read_offset l.write_offset
          then put_out written (l.write_offset - l.read_offset) l
          else (let first = put_out written (size - l.read_offset) l in
              let second = put_out written (span l.write_offset first.1.read_offset) first.1 in
              (first.0 ++ second.0, second.1)))
