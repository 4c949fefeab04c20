-- ===== src/Examples/Event.antt =====
-- Lists of custom events for event.cpp.
use redis_agent.Base.{◌≡◌, refl, [], ◌∷◌, some, arith}
use redis_agent.Event.{list_init, list_produce, written, custom_event_cb}
use redis_agent.Event.Fifo.{
  Entry, IsFifo, dispatched, list_produce-append, written-consume, Whole,
  custom_event_cb-dispatched,
}

abbrev first_entry : Entry
first_entry = record { at = 0; key = 5; data_ = 6 }

init_IsFifo : IsFifo (list_init 0) []
unfolding list_init
init_IsFifo = record { head = refl; chain = refl; apart = tt }

produced_IsFifo : IsFifo (list_produce 5 6 (some 1) (list_init 0)).1 (first_entry ∷ [])
unfolding list_init
produced_IsFifo = list_produce-append 5 6 1 (list_init 0) [] init_IsFifo refl tt

written-consume_example : Whole 5 6 1 (written 6 5 6 1 (list_init 0))
unfolding list_init
written-consume_example = written-consume 6 5 6 1 (list_init 0) init_IsFifo refl

custom_event_cb-dispatched_example :
    let l = (list_produce 5 6 (some 1) (list_init 0)).1 in
    ((custom_event_cb (λ k. some 9) 1 l).0 ≡ dispatched (λ k. some 9) (first_entry ∷ []))
    × IsFifo (custom_event_cb (λ k. some 9) 1 l).1 []
custom_event_cb-dispatched_example =
    custom_event_cb-dispatched (λ k. some 9) 1 (list_produce 5 6 (some 1) (list_init 0)).1
      (first_entry ∷ []) produced_IsFifo (omega arith)
