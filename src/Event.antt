-- ===== src/Event.antt =====
-- The custom events of event.cpp: a list with many producers and one consumer, and the dispatch of
-- what it holds to the callbacks. The hash map of the callbacks and the hash of an event's name are
-- parameters; the list's mutex makes the producers take turns, and the writes of
-- one producer are seen in the order of the code.
pub mod Fifo
use redis_agent.Base.{
  ℕ, zero, suc, Option, none, some, Bool, true, false, List, [], ◌∷◌, ◌==◌, if◌then◌else◌,
}

-- `ts_list_node_t`
pub record TsNode : Type 0 where
  pub next : Option ℕ
  pub key : ℕ
  pub data_ : ℕ
  pub is_placeholder : Bool

-- `ts_list_t` with the nodes; an address names a node.
pub record TsList : Type 0 where
  pub nodes : ℕ → TsNode
  pub head : ℕ
  pub tail : ℕ

abbrev pub set_node : ℕ → TsNode → TsList → TsList
set_node p v l = record (l) { nodes = λ q. if p == q then v else l.nodes q }

-- The writes of `list_produce`, in the order of the code; `p` is the new node.
pub write_key : ℕ → TsList → TsList
write_key key l = set_node l.tail (record (l.nodes l.tail) { key = key }) l

pub write_data : ℕ → TsList → TsList
write_data v l = set_node l.tail (record (l.nodes l.tail) { data_ = v }) l

pub write_next : ℕ → TsList → TsList
write_next p l = set_node l.tail (record (l.nodes l.tail) { next = some p }) l

pub new_next : ℕ → TsList → TsList
new_next p l = set_node p (record (l.nodes p) { next = none }) l

pub new_placeholder : ℕ → TsList → TsList
new_placeholder p l = set_node p (record (l.nodes p) { is_placeholder = true }) l

pub publish : TsList → TsList
publish l = set_node l.tail (record (l.nodes l.tail) { is_placeholder = false }) l

-- The first `k` of the writes that `list_produce` makes under the lock.
pub written : ℕ → ℕ → ℕ → ℕ → TsList → TsList
written zero key v p l = l
written (suc zero) key v p l = write_key key l
written (suc (suc zero)) key v p l = write_data v (write_key key l)
written (suc (suc (suc zero))) key v p l = write_next p (write_data v (write_key key l))
written (suc (suc (suc (suc zero)))) key v p l =
    new_next p (write_next p (write_data v (write_key key l)))
written (suc (suc (suc (suc (suc zero))))) key v p l =
    new_placeholder p (new_next p (write_next p (write_data v (write_key key l))))
written (suc (suc (suc (suc (suc (suc zero)))))) key v p l =
    publish (new_placeholder p (new_next p (write_next p (write_data v (write_key key l)))))
written (suc (suc (suc (suc (suc (suc (suc k))))))) key v p l =
    let l₁ =
      publish (new_placeholder p (new_next p (write_next p (write_data v (write_key key l))))) in
    record (l₁) { tail = p }

-- `list_produce`, with the address that malloc gives, or NULL; true is the return value 0.
unfoldable pub list_produce : ℕ → ℕ → Option ℕ → TsList → Bool × TsList
list_produce key v none l = (false, l)
list_produce key v (some p) l = (true, written 7 key v p l)

-- `list_consume`: the key and the data, or -1. An entry that is published has a next node.
pub list_consume : TsList → Option (ℕ × ℕ) × TsList
list_consume l =
    let node = l.nodes l.head in
    if node.is_placeholder then (none, l) else (
      some (node.key, node.data_),
      record (l) { head = elim (node.next) [ some q ↦ q | none ↦ l.head ] },
    )

-- `list_init`
unfoldable pub list_init : ℕ → TsList
list_init p = record {
  nodes = λ q. record { next = none; key = 0; data_ = 0; is_placeholder = true };
  head = p;
  tail = p;
}

-- The loop of `custom_event_cb`, on fuel: the callbacks it calls, with their data, in order. `get` is
-- the look-up in `custom_event_map`.
pub custom_event_cb : (ℕ → Option ℕ) → ℕ → TsList → List (ℕ × ℕ) × TsList
custom_event_cb get zero l = ([], l)
custom_event_cb get (suc fuel) l =
    let rest = custom_event_cb get fuel (list_consume l).1 in
    elim ((list_consume l).0) [
      | none ↦ ([], (list_consume l).1)
      | some e ↦ elim (get e.0) [ none ↦ rest | some cb ↦ ((cb, e.1) ∷ rest.0, rest.1) ]
    ]

-- `event_trigger` of the event with the given name; true is the return value 0, with the event loop
-- made to run `custom_event_cb`.
pub event_trigger : (List ℕ → ℕ) → List ℕ → ℕ → Option ℕ → TsList → Bool × TsList
event_trigger strhash event param p l = list_produce (strhash event) param p l
