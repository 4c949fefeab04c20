-- ===== src/Event/Fifo.antt =====
-- The list of event.cpp as a queue.
use redis_agent.Base.{
  ◌⊎◌, ℕ, zero, suc, ◌≤◌, ◌≡◌, refl, sym, ◌∙◌, ap, inl, inr, Option, none, some, true, false, List,
  [], ◌∷◌, ◌++◌, ◌==◌, arith, length, Option-cases,
}
use redis_agent.Event.{
  TsNode, TsList, write_key, write_data, write_next, new_next, new_placeholder, publish, written,
  list_produce, list_consume, custom_event_cb,
}

-- An entry with the address of its node.
pub record Entry : Type 0 where
  pub at : ℕ
  pub key : ℕ
  pub data_ : ℕ

-- The first node of a list that ends in the placeholder `t`.
abbrev pub start : List Entry → ℕ → ℕ
start [] t = t
start (e ∷ es) t = e.at

abbrev pub Chain : (ℕ → TsNode) → List Entry → ℕ → Type 0
Chain m [] t = (m t).is_placeholder ≡ true
Chain m (e ∷ es) t =
    (m e.at
      ≡ record { next = some (start es t); key = e.key; data_ = e.data_; is_placeholder = false })
    × Chain m es t

-- The address `p` is not that of an entry.
abbrev pub Fresh : ℕ → List Entry → Type 0
Fresh p [] = Unit
Fresh p (e ∷ es) = ((p == e.at) ≡ false) × Fresh p es

-- The list holds the entries `es`, behind them the placeholder.
pub record IsFifo (l : TsList) (es : List Entry) : Type 0 where
  pub head : l.head ≡ start es l.tail
  pub chain : Chain l.nodes es l.tail
  pub apart : Fresh l.tail es

start_append : (es : List Entry) (e : Entry) (p : ℕ) → start (es ++ e ∷ []) p ≡ start es e.at
start_append [] e p = refl
start_append (f ∷ es) e p = refl

Chain-append :
    (m w : ℕ → TsNode) (es : List Entry) (e : Entry) (p : ℕ)
    → Chain m es e.at
    → Fresh e.at es
    → Fresh p es
    → ((a : ℕ) → (e.at == a) ≡ false → (p == a) ≡ false → w a ≡ m a)
    → (w e.at ≡ record { next = some p; key = e.key; data_ = e.data_; is_placeholder = false })
    → (w p).is_placeholder ≡ true
    → Chain w (es ++ e ∷ []) p
Chain-append m w [] e p c f g same at new = (at, new)
Chain-append m w (x ∷ es) e p c f g same at new = (
  rw (start_append es e p) (same x.at f.0 g.0 ∙ c.0),
  Chain-append m w es e p c.1 f.1 g.1 same at new,
)

Fresh-append :
    (p : ℕ) (es : List Entry) (e : Entry)
    → Fresh p es
    → (p == e.at) ≡ false
    → Fresh p (es ++ e ∷ [])
Fresh-append p [] e f ne = (ne, tt)
Fresh-append p (x ∷ es) e f ne = (f.0, Fresh-append p es e f.1 ne)

-- The nodes after `list_produce`.
produced :
    (key v p : ℕ) (l : TsList)
    → (p == l.tail) ≡ false
    → let w = (written 7 key v p l).nodes in
      (w l.tail ≡ record { next = some p; key = key; data_ = v; is_placeholder = false })
      × ((w p).is_placeholder ≡ true)
      × ((a : ℕ) → (l.tail == a) ≡ false → (p == a) ≡ false → w a ≡ l.nodes a)
unfolding written write_key write_data write_next new_next new_placeholder publish
produced key v p l ne = (ground arith, ground arith, λ a e f. ground arith)

produced_ends :
    (key v p : ℕ) (l : TsList)
    → ((written 7 key v p l).head ≡ l.head) × ((written 7 key v p l).tail ≡ p)
unfolding written write_key write_data write_next new_next new_placeholder publish
produced_ends key v p l = (refl, refl)

-- `list_produce` with a new node adds its entry behind those that are there.
pub list_produce-append :
    (key v p : ℕ) (l : TsList) (es : List Entry)
    → IsFifo l es
    → (p == l.tail) ≡ false
    → Fresh p es
    → IsFifo
        (list_produce key v (some p) l).1
        (es ++ record { at = l.tail; key = key; data_ = v } ∷ [])
unfolding list_produce
list_produce-append key v p l es is ne fresh =
    let e : Entry = record { at = l.tail; key = key; data_ = v } in
    let (at, new, same) = produced key v p l ne in
    let (head, tail) = produced_ends key v p l in
    record {
      head = rw (head, tail, start_append es e p) (is.head);
      chain = rw tail (Chain-append l.nodes _ es e p is.chain is.apart fresh same at new);
      apart = rw tail (Fresh-append p es e fresh ne);
    }

-- `list_consume` on a list that is not empty takes the entry that was produced first and leaves the
-- others in their order.
pub list_consume-cons :
    (l : TsList) (e : Entry) (es : List Entry)
    → IsFifo l (e ∷ es)
    → ((list_consume l).0 ≡ some (e.key, e.data_)) × IsFifo (list_consume l).1 es
unfolding list_consume
list_consume-cons l e es is =
    rw (is.head, list_consume, is.chain.0)
      (refl, record { head = refl; chain = is.chain.1; apart = is.apart.1 })

consume-hidden : (l : TsList) → (l.nodes l.head).is_placeholder ≡ true → list_consume l ≡ (none, l)
unfolding list_consume
consume-hidden l e = rw e refl

-- The placeholder hides an entry until its five writes are done.
hides :
    (k key v p : ℕ) (l : TsList)
    → k ≤ 5
    → IsFifo l []
    → (p == l.tail) ≡ false
    → let u = written k key v p l in (u.nodes u.head).is_placeholder ≡ true
unfolding written write_key write_data write_next new_next new_placeholder
hides zero key v p l h is ne = rw (is.head) (is.chain)
hides (suc zero) key v p l h is ne = rw (is.head) (ground (arith, is.chain))
hides (suc (suc zero)) key v p l h is ne = rw (is.head) (ground (arith, is.chain))
hides (suc (suc (suc zero))) key v p l h is ne = rw (is.head) (ground (arith, is.chain))
hides (suc (suc (suc (suc zero)))) key v p l h is ne = rw (is.head) (ground (arith, is.chain, ne))
hides (suc (suc (suc (suc (suc zero))))) key v p l h is ne =
    rw (is.head) (ground (arith, is.chain, ne))
hides (suc (suc (suc (suc (suc (suc k)))))) key v p l h is ne = absurd (omega arith)

-- What the consumer finds: nothing, or the whole entry, behind which is the new placeholder.
abbrev pub Whole : ℕ → ℕ → ℕ → TsList → Type 0
Whole key v p l =
    (list_consume l ≡ (none, l))
    ⊎ (((list_consume l).0 ≡ some (key, v))
        × ((list_consume l).1.head ≡ p)
        × ((list_consume (list_consume l).1).0 ≡ none))

shown :
    (k key v p : ℕ) (l : TsList)
    → IsFifo l []
    → (p == l.tail) ≡ false
    → let u = written (suc (suc (suc (suc (suc (suc k)))))) key v p l in
      ((list_consume u).0 ≡ some (key, v))
      × ((list_consume u).1.head ≡ p)
      × ((list_consume (list_consume u).1).0 ≡ none)
unfolding list_consume written write_key write_data write_next new_next new_placeholder publish
shown zero key v p l is ne = rw (is.head) (ground arith, ground arith, ground arith)
shown (suc k) key v p l is ne = rw (is.head) (ground arith, ground arith, ground arith)

-- Whenever the consumer of an empty list looks while an entry is produced, after any number of the
-- producer's writes, it finds nothing and leaves the list as it is, or it gets the key and the data
-- of the entry as they were given, and then finds the list empty.
pub written-consume :
    (k key v p : ℕ) (l : TsList)
    → IsFifo l []
    → (p == l.tail) ≡ false
    → Whole key v p (written k key v p l)
written-consume zero key v p l is ne =
    inl (consume-hidden _ (hides 0 key v p l (omega arith) is ne))
written-consume (suc zero) key v p l is ne =
    inl (consume-hidden _ (hides 1 key v p l (omega arith) is ne))
written-consume (suc (suc zero)) key v p l is ne =
    inl (consume-hidden _ (hides 2 key v p l (omega arith) is ne))
written-consume (suc (suc (suc zero))) key v p l is ne =
    inl (consume-hidden _ (hides 3 key v p l (omega arith) is ne))
written-consume (suc (suc (suc (suc zero)))) key v p l is ne =
    inl (consume-hidden _ (hides 4 key v p l (omega arith) is ne))
written-consume (suc (suc (suc (suc (suc zero))))) key v p l is ne =
    inl (consume-hidden _ (hides 5 key v p l (omega arith) is ne))
written-consume (suc (suc (suc (suc (suc (suc k)))))) key v p l is ne =
    inr (shown k key v p l is ne)

-- The calls for the entries: one for each whose key has a callback.
abbrev pub dispatched : (ℕ → Option ℕ) → List Entry → List (ℕ × ℕ)
dispatched get [] = []
dispatched get (e ∷ es) = elim (get e.key) [
  | none ↦ dispatched get es
  | some cb ↦ (cb, e.data_) ∷ dispatched get es
]

skipped :
    (get : ℕ → Option ℕ) (e : Entry) (es : List Entry)
    → get e.key ≡ none
    → dispatched get (e ∷ es) ≡ dispatched get es
skipped get e es h = rw (dispatched, h) refl

passed :
    (get : ℕ → Option ℕ) (e : Entry) (es : List Entry) (cb : ℕ)
    → get e.key ≡ some cb
    → dispatched get (e ∷ es) ≡ (cb, e.data_) ∷ dispatched get es
passed get e es cb h = rw (dispatched, h) refl

-- `custom_event_cb` calls the callbacks of all the entries in the order they were produced, skips
-- those without a callback, and leaves the list empty; the loop needs one round for each entry.
pub custom_event_cb-dispatched :
    (get : ℕ → Option ℕ) (fuel : ℕ) (l : TsList) (es : List Entry)
    → IsFifo l es
    → length es ≤ fuel
    → ((custom_event_cb get fuel l).0 ≡ dispatched get es)
      × IsFifo (custom_event_cb get fuel l).1 []
unfolding custom_event_cb
custom_event_cb-dispatched get zero l [] is h = (refl, is)
custom_event_cb-dispatched get zero l (e ∷ es) is h = absurd (omega arith)
custom_event_cb-dispatched get (suc fuel) l [] is h =
    let none_left = consume-hidden l (rw (is.head) (is.chain)) in
    rw (custom_event_cb, ap (λ k. k.0) none_left, ap (λ k. k.1) none_left) (refl, is)
custom_event_cb-dispatched get (suc fuel) l (e ∷ es) is h =
    let (found, rest) = list_consume-cons l e es is in
    let (calls, end) =
      custom_event_cb-dispatched get fuel (list_consume l).1 es rest (omega arith) in
    rw (custom_event_cb, found)
      (elim (Option-cases (get e.key)) [
        | inl absent ↦ rw absent (calls ∙ sym (skipped get e es absent), end)
        | inr (cb, found_cb) ↦
            rw found_cb
              (ap (λ cs. (cb, e.data_) ∷ cs) calls ∙ sym (passed get e es cb found_cb), end)
      ])
