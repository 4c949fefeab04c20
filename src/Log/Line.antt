-- ===== src/Log/Line.antt =====
-- The line that log_printf of log.cpp puts together, and the data it collects.
use redis_agent.Base.{
  ℕ, ◌-◌, ◌<◌, ◌≤◌, ◌≡◌, refl, ap, sym, ◌∙◌, List, [], ◌∷◌, ◌++◌, Option, none, some, All,
  All-append, arith, length, take, leb, true, false, Bool-cases, inl, inr, append_nil, append_assoc,
  take_all, take_zero, length-take_cap, length-take_bound, length-append,
}
use Prim.Native.Nat.{zero, suc}
use native.Mathlib.Decide.{dec_le}
use redis_agent.Log.{
  Value, Entry, LogData, push, Out, put, put_all, end_line, pieces, log_line, Message, data_texts,
  file_text,
}

-- The entries, in the order in which the line has them.
abbrev pub concat : List (List Entry) → List Entry
concat [] = []
concat (n ∷ ns) = n ++ concat ns

abbrev pub entries : LogData → List Entry
entries ld = concat ld.full ++ ld.tail

concat-append : (xs ys : List (List Entry)) → concat (xs ++ ys) ≡ concat xs ++ concat ys
concat-append [] ys = refl
concat-append (x ∷ xs) ys =
    ap (λ z. x ++ z) (concat-append xs ys) ∙ sym (append_assoc x (concat xs) (concat ys))

-- Every node before the tail is full, and the tail is not beyond the size of a node.
pub record IsLogData (ld : LogData) : Type 0 where
  pub full : All (λ n. length n ≡ 16) ld.full
  pub tail : length ld.tail ≤ 16

-- An entry is pushed behind the others, and no node gets more than `_LOG_DATA_SIZE`.
pub push-entries :
    (e : Entry) (ld : LogData)
    → IsLogData ld
    → IsLogData (push e ld) × (entries (push e ld) ≡ entries ld ++ (e ∷ []))
unfolding push
push-entries e ld v = elim (Bool-cases (leb 16 (length ld.tail))) [
  | inl b ↦ rw b (
      let exact : length ld.tail ≡ 16 = ground (arith, v.tail) in
      let joined = concat-append ld.full (ld.tail ∷ []) in
      let last = append_nil ld.tail in
      (
        record {
          full = All-append (λ n. length n ≡ 16) ld.full (ld.tail ∷ []) v.full (exact, tt);
          tail = omega arith;
        },
        rw (joined, last) refl,
      ))
  | inr b ↦ rw b (
      let size = length-append ld.tail (e ∷ []) in
      (
        record { full = v.full; tail = ground (arith, size) },
        sym (append_assoc (concat ld.full) ld.tail (e ∷ [])),
      ))
]

-- All that is to be printed.
abbrev pub total : List (Option (List ℕ)) → List ℕ
total [] = []
total (none ∷ ps) = total ps
total (some xs ∷ ps) = xs ++ total ps

take-append : (n : ℕ) (xs ys : List ℕ) → take n (xs ++ ys) ≡ take n xs ++ take (n - length xs) ys
take-append n [] ys = let e : n - 0 ≡ n = omega arith in rw e refl
take-append zero (x ∷ xs) ys =
    let e : 0 - suc (length xs) ≡ 0 = omega arith in rw (e, take_zero ys) refl
take-append (suc n) (x ∷ xs) ys =
    let e : suc n - suc (length xs) ≡ n - length xs = omega arith in
    rw e (ap (λ z. x ∷ z) (take-append n xs ys))

put-none : (o : Out) → put none o ≡ o
unfolding put
put-none o = refl

put-some :
    (xs : List ℕ) (o : Out)
    → 0 < o.left
    → put (some xs) o
      ≡ record { text = o.text ++ take (o.left - 1) xs; left = suc (o.left - 1 - length xs) }
unfolding put
put-some xs o h = elim (dec_le o.left (length xs)) [
  | yes b ↦
      (let t : leb o.left (length xs) ≡ true = ground arith in
        let l : o.left - (o.left - 1) ≡ suc (o.left - 1 - length xs) = omega arith in
        rw (t, l) refl)
  | no b ↦
      (let t : leb o.left (length xs) ≡ false = ground arith in
        let l : o.left - length xs ≡ suc (o.left - 1 - length xs) = omega arith in
        let a = take_all (length xs) xs (omega arith) in
        let c = take_all (o.left - 1) xs (omega arith) in rw (t, l, a, c) refl)
]

-- The buffer takes the first bytes of all the pieces, up to one less than its size.
pub put_all_lem :
    (ps : List (Option (List ℕ))) (o : Out)
    → 0 < o.left
    → (put_all ps o).text ≡ o.text ++ take (o.left - 1) (total ps)
put_all_lem [] o h = sym (append_nil o.text)
put_all_lem (none ∷ ps) o h = ap (λ z. (put_all ps z).text) (put-none o) ∙ put_all_lem ps o h
put_all_lem (some xs ∷ ps) o h =
    let left : suc (o.left - 1 - length xs) - 1 ≡ o.left - 1 - length xs = omega arith in
    let rest =
      put_all_lem ps
        (record { text = o.text ++ take (o.left - 1) xs; left = suc (o.left - 1 - length xs) })
        (omega arith) in
    let cut = take-append (o.left - 1) xs (total ps) in
    ap (λ z. (put_all ps z).text) (put-some xs o h)
    ∙ rest
    ∙ rw (left, cut)
        (append_assoc o.text (take (o.left - 1) xs) (take (o.left - 1 - length xs) (total ps)))

length-end_line : (xs : List ℕ) → length (end_line xs) ≡ length xs
length-end_line [] = refl
length-end_line (x ∷ []) = refl
length-end_line (x ∷ (y ∷ ys)) = ap suc (length-end_line (y ∷ ys))

end_line-newline :
    (xs : List ℕ) → 0 < length xs → (front : List ℕ) × (end_line xs ≡ front ++ (10 ∷ []))
end_line-newline [] h = absurd (omega arith)
end_line-newline (x ∷ []) h = ([], refl)
end_line-newline (x ∷ (y ∷ ys)) h =
    let (front, e) = end_line-newline (y ∷ ys) (omega arith) in (x ∷ front, ap (λ z. x ∷ z) e)

end_line-Closed : (front : List ℕ) → end_line (front ++ (93 ∷ 10 ∷ [])) ≡ front ++ (93 ∷ 10 ∷ [])
end_line-Closed [] = refl
end_line-Closed (x ∷ []) = refl
end_line-Closed (x ∷ (y ∷ ys)) = ap (λ z. x ∷ z) (end_line-Closed (y ∷ ys))

-- The bracket and the newline that end a line.
abbrev Closed : List ℕ → Type 0
Closed xs = (front : List ℕ) × (xs ≡ front ++ (93 ∷ 10 ∷ []))

append-Closed : (xs ys : List ℕ) → Closed ys → Closed (xs ++ ys)
append-Closed xs ys (front, e) = (xs ++ front, rw e (sym (append_assoc xs front (93 ∷ 10 ∷ []))))

total-Closed : (ps qs : List (Option (List ℕ))) → Closed (total qs) → Closed (total (ps ++ qs))
total-Closed [] qs h = h
total-Closed (none ∷ ps) qs h = total-Closed ps qs h
total-Closed (some xs ∷ ps) qs h = append-Closed xs (total (ps ++ qs)) (total-Closed ps qs h)

module _ (decimal : Value → Option (List ℕ)) (m : Message) (ld : Option LogData) where
  closing : (p : Option (List ℕ)) → Closed (total (p ∷ some (93 ∷ 10 ∷ []) ∷ []))
  closing none = ([], refl)
  closing (some xs) = (xs, refl)

  pieces-Closed : Closed (total (pieces decimal m ld))
  pieces-Closed =
      let end_ = some (93 ∷ 10 ∷ []) ∷ [] in
      let user = some (109 ∷ 115 ∷ 103 ∷ 61 ∷ []) ∷ m.message ∷ end_ in
      let tail =
        append-Closed (109 ∷ 115 ∷ 103 ∷ 61 ∷ []) (total (m.message ∷ end_)) (closing m.message) in
      total-Closed (m.prefix ∷ file_text m.fileline) (data_texts decimal ld ++ user)
        (total-Closed (data_texts decimal ld) user tail)

  -- A line has what its pieces have, as far as the buffer goes.
  log_line_lem : log_line decimal m ld ≡ end_line (take 16383 (total (pieces decimal m ld)))
  unfolding log_line
  log_line_lem =
      ap end_line
        (put_all_lem (pieces decimal m ld) (record { text = []; left = 16384 }) (omega arith))

  -- A line of up to 16383 bytes is all its pieces, one after the other; a longer one is cut there. In both
  -- cases it ends in a newline.
  pub log_line-total :
      (length (log_line decimal m ld) ≤ 16383)
      × ((front : List ℕ) × (log_line decimal m ld ≡ front ++ (10 ∷ [])))
      × (length (total (pieces decimal m ld)) ≤ 16383
          → log_line decimal m ld ≡ total (pieces decimal m ld))
  log_line-total =
      let (front, closed) = pieces-Closed in
      let all = total (pieces decimal m ld) in
      let long = ap length closed ∙ length-append front (93 ∷ 10 ∷ []) in
      let cap = length-take_cap 16383 all in
      let kept = length-take_bound 1 16383 all (omega arith) (omega (arith, long)) in
      let (start, newline) = end_line-newline (take 16383 all) (omega (arith, kept)) in
      (
        rw log_line_lem (omega (arith, cap, length-end_line (take 16383 all))),
        (start, log_line_lem ∙ newline),
        λ h.
            log_line_lem
            ∙ ap end_line (take_all 16383 all h ∙ closed)
            ∙ end_line-Closed front
            ∙ sym closed,
      )
