-- ===== src/Examples/Log.antt =====
-- Lines and rings for log.cpp.
use redis_agent.Base.{ℕ, ◌≡◌, refl, List, [], ◌∷◌, Option, none, some, arith}
use redis_agent.Log.{Value, str, Message, LogData, log_data_new, log_data_push_str}
use redis_agent.Log.Buffer.{Ring}
use redis_agent.Log.Buffer.Queue.{held}
use redis_agent.Log.Buffer.Runs.{Op, line, turn, run, run_queue, run_refines}

-- A ring of five bytes, whose offsets are near its end.
abbrev ring : Ring
ring = record { buf = λ i. 0; write_offset = 4; read_offset = 4 }

abbrev ops : List Op
ops = line (1 ∷ 2 ∷ 10 ∷ []) ∷ line (3 ∷ 4 ∷ 10 ∷ []) ∷ turn ∷ line (5 ∷ 10 ∷ []) ∷ []

run_refines_example :
    ((run 5 ops ring).0, held 5 (run 5 ops ring).1) ≡ run_queue 5 ops (held 5 ring)
run_refines_example =
    run_refines 5 ops ring (record { writing = omega arith; reading = omega arith })

-- The first line goes round the end of the ring, the second is cut to a newline.
run_queue_value : run_queue 5 ops [] ≡ (1 ∷ 2 ∷ 10 ∷ 10 ∷ [], 5 ∷ 10 ∷ [])
unfolding run_queue
run_queue_value = refl

abbrev print : Value → Option (List ℕ)
print (str v) = some v
print v = none

abbrev message : Message
message = record { prefix = some (80 ∷ []); fileline = none; message = some (77 ∷ []) }

abbrev data_ : LogData
data_ = log_data_push_str (1 ∷ []) (2 ∷ []) log_data_new
