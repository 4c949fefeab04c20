-- ===== src/Log.antt =====
-- The log of log.cpp and log.h: the data that a request collects for its line, the line, and the ring
-- that it goes to. What snprintf prints for a value is an argument, as is the text of the time and the name.
pub mod Buffer
pub mod Line
use redis_agent.Base.{
  ℕ, ◌-◌, Bool, List, [], ◌∷◌, ◌++◌, Option, none, some, ltb, leb, ◌==◌, if◌then◌else◌, length,
  take,
}
use redis_agent.Base.Int.{ℤ}
use redis_agent.Log.Buffer.{Ring, append_line, log_buf_size}

-- `log_data_data_t` with its `log_data_type_t`; a double by its bits.
pub data Value : Type 0 where
  str : List ℕ → Value
  int : ℤ → Value
  uint : ℕ → Value
  double : ℕ → Value

pub record Entry : Type 0 where
  pub key : List ℕ
  pub value : Value

-- `log_data_t`: the full nodes, in order, and the tail.
pub record LogData : Type 0 where
  pub full : List (List Entry)
  pub tail : List Entry

abbrev pub log_data_new : LogData
log_data_new = record { full = []; tail = [] }

-- `_PUSH`, with `_LOG_DATA_SIZE`.
unfoldable pub push : Entry → LogData → LogData
push e ld =
    if leb 16 (length ld.tail)
    then record { full = ld.full ++ (ld.tail ∷ []); tail = e ∷ [] }
    else record { full = ld.full; tail = ld.tail ++ (e ∷ []) }

abbrev pub log_data_push_str : List ℕ → List ℕ → LogData → LogData
log_data_push_str key v ld = push (record { key = key; value = str v }) ld

abbrev pub log_data_push_int : List ℕ → ℤ → LogData → LogData
log_data_push_int key v ld = push (record { key = key; value = int v }) ld

abbrev pub log_data_push_uint : List ℕ → ℕ → LogData → LogData
log_data_push_uint key v ld = push (record { key = key; value = uint v }) ld

abbrev pub log_data_push_double : List ℕ → ℕ → LogData → LogData
log_data_push_double key v ld = push (record { key = key; value = double v }) ld

-- The line so far, and what is left of the buffer.
pub record Out : Type 0 where
  pub text : List ℕ
  pub left : ℕ

-- `ret = snprintf(buf, size, ...)` with the test of `ret` that follows it; `none` is a negative result.
unfoldable pub put : Option (List ℕ) → Out → Out
put none o = o
put (some xs) o =
    let ret = if leb o.left (length xs) then o.left - 1 else length xs in
    record { text = o.text ++ take ret xs; left = o.left - ret }

abbrev pub put_all : List (Option (List ℕ)) → Out → Out
put_all [] o = o
put_all (p ∷ ps) o = put_all ps (put p o)

-- `*(buf - 1) = '\n'`
abbrev pub end_line : List ℕ → List ℕ
end_line [] = []
end_line (x ∷ []) = 10 ∷ []
end_line (x ∷ (y ∷ ys)) = x ∷ end_line (y ∷ ys)

-- The format of one entry, "%s=%s " and the like, by what snprintf prints for its value.
abbrev pub entry_text : (Value → Option (List ℕ)) → Entry → Option (List ℕ)
entry_text decimal e = elim (decimal e.value) [
  | none ↦ none
  | some v ↦ some (e.key ++ (61 ∷ (v ++ (32 ∷ []))))
]

abbrev pub entry_texts : (Value → Option (List ℕ)) → List Entry → List (Option (List ℕ))
entry_texts decimal [] = []
entry_texts decimal (e ∷ es) = entry_text decimal e ∷ entry_texts decimal es

abbrev pub node_texts : (Value → Option (List ℕ)) → List (List Entry) → List (Option (List ℕ))
node_texts decimal [] = []
node_texts decimal (n ∷ ns) = entry_texts decimal n ++ node_texts decimal ns

-- The arguments of `log_printf` as texts: the prefix, the file and line, and the user's message.
pub record Message : Type 0 where
  pub prefix : Option (List ℕ)
  pub fileline : Option (List ℕ)
  pub message : Option (List ℕ)

-- "file=%s ", "msg=" and "]\n"
abbrev pub file_text : Option (List ℕ) → List (Option (List ℕ))
file_text none = []
file_text (some xs) = some (102 ∷ 105 ∷ 108 ∷ 101 ∷ 61 ∷ (xs ++ (32 ∷ []))) ∷ []

abbrev pub data_texts : (Value → Option (List ℕ)) → Option LogData → List (Option (List ℕ))
data_texts decimal none = []
data_texts decimal (some d) = node_texts decimal (d.full ++ (d.tail ∷ []))

abbrev pub pieces : (Value → Option (List ℕ)) → Message → Option LogData → List (Option (List ℕ))
pieces decimal m ld =
    (m.prefix ∷ file_text m.fileline)
    ++ (data_texts decimal ld
        ++ (some (109 ∷ 115 ∷ 103 ∷ 61 ∷ []) ∷ m.message ∷ some (93 ∷ 10 ∷ []) ∷ []))

-- The line in `_log_temp_buf`, which has 16384 bytes. Where the last byte is a newline already, the
-- test before the assignment makes no difference.
unfoldable pub log_line : (Value → Option (List ℕ)) → Message → Option LogData → List ℕ
log_line decimal m ld =
    end_line (put_all (pieces decimal m ld) (record { text = []; left = 16384 })).text

-- The two logs: `logwf_buf` and `log_buf` with their offsets.
pub record Logs : Type 0 where
  pub logwf : Ring
  pub log : Ring

-- `log_printf`
pub log_printf : (Value → Option (List ℕ)) → ℕ → Message → Option LogData → Logs → Logs
log_printf decimal level m ld logs =
    let text = log_line decimal m ld in
    if leb level 2
    then record (logs) { logwf = append_line log_buf_size text logs.logwf }
    else record (logs) { log = append_line log_buf_size text logs.log }
