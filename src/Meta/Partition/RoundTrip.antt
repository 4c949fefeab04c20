-- ===== src/Meta/Partition/RoundTrip.antt =====
-- A partition that is written down, as numbers and ranges, is what meta.cpp loads.
use mathlib.Core.Path.{subst}
use redis_agent.Base.{
  ℕ, zero, suc, ◌+◌, ◌-◌, ◌^◌, ◌≤◌, ◌<◌, ◌≡◌, refl, ap, sym, ◌∙◌, true, false, ◌||◌, List, [], ◌∷◌,
  ◌++◌, arith, ltb, ◌==◌, All, All-append, none, some, length, length-append, append_assoc,
  append_nil,
}
use redis_agent.Meta.Partition.{
  comma, range_sign, cut, to_unsigned, atoi, loaded, store, store_range, load_word, load_words,
  load_partition,
}
use redis_agent.Meta.Partition.Print.{
  decimal, Starts, decimal-Digits, decimal-Starts, atoi-decimal, cut-Without, cut-none, cut-Digits,
  Digits-Without, Without, to_unsigned-pos,
}

-- A word of a partition: one number, or all from one to another.
pub data Word : Type 0 where
  single : ℕ → Word
  range : ℕ → ℕ → Word

abbrev pub print_word : Word → List ℕ
print_word (single g) = decimal g
print_word (range b e) = decimal b ++ range_sign ∷ decimal e

-- The words with commas between them.
abbrev pub print : List Word → List ℕ
print [] = []
print (w ∷ []) = print_word w
print (w ∷ v ∷ ws) = print_word w ++ comma ∷ print (v ∷ ws)

-- `n` numbers from `g` on.
abbrev pub count_up : ℕ → ℕ → List ℕ
count_up g zero = []
count_up g (suc n) = g ∷ count_up (g + 1) n

abbrev pub numbers : Word → List ℕ
numbers (single g) = g ∷ []
numbers (range b e) = count_up b (e + 1 - b)

abbrev pub all_numbers : List Word → List ℕ
all_numbers [] = []
all_numbers (w ∷ ws) = numbers w ++ all_numbers ws

abbrev pub Fits : ℕ → Word → Type 0
Fits key (single g) = g < key
Fits key (range b e) = (b ≤ e) × (e ≤ key)

store_range-all :
    (size : ℕ) (acc : List ℕ) (g n : ℕ)
    → length acc + n ≤ size
    → store_range size acc g n ≡ loaded (acc ++ count_up g n)
unfolding store_range store
store_range-all size acc g zero h = ap loaded (sym (append_nil acc))
store_range-all size acc g (suc n) h =
    let room : ltb (length acc) size ≡ true = ground arith in
    let longer = length-append acc (g ∷ []) in
    rw (store_range, room)
      (store_range-all size (acc ++ g ∷ []) (g + 1) n (omega (arith, longer))
        ∙ ap loaded (append_assoc acc (g ∷ []) (count_up (g + 1) n)))

length-count_up : (g n : ℕ) → length (count_up g n) ≡ n
length-count_up g zero = refl
length-count_up g (suc n) = ap suc (length-count_up (g + 1) n)

read_back : (key n : ℕ) → n ≤ key → key < 2 ^ 32 → to_unsigned (atoi (decimal n)) ≡ n
read_back key n h small = ap to_unsigned (atoi-decimal n) ∙ to_unsigned-pos n (omega arith)

word_single :
    (key : ℕ) (acc : List ℕ) (g : ℕ)
    → key < 2 ^ 32
    → g < key
    → length acc + 1 ≤ key
    → load_word key acc (decimal g) ≡ loaded (acc ++ g ∷ [])
unfolding load_word store
word_single key acc g small h room =
    let whole = cut-Digits range_sign (decimal g) refl (decimal-Digits g) in
    let n = read_back key g (omega arith) small in
    let below : ltb g key ≡ true = ground arith in
    let more : ltb (length acc) key ≡ true = ground arith in
    rw (load_word, whole, n, below, more) refl

word_range :
    (key : ℕ) (acc : List ℕ) (b e : ℕ)
    → key < 2 ^ 32
    → b ≤ e
    → e ≤ key
    → length acc + (e + 1 - b) ≤ key
    → load_word key acc (decimal b ++ range_sign ∷ decimal e)
      ≡ loaded (acc ++ count_up b (e + 1 - b))
unfolding load_word
word_range key acc b e small h i room =
    let parts =
      cut-Without range_sign (decimal b) (decimal e)
        (Digits-Without range_sign (decimal b) refl (decimal-Digits b)) in
    let cut_at = ap (λ r. r.1) parts in
    let first : to_unsigned (atoi (cut range_sign (decimal b ++ range_sign ∷ decimal e)).0) ≡ b =
      ap (λ r. to_unsigned (atoi (r.0))) parts ∙ read_back key b (omega arith) small in
    let last = read_back key e i small in
    let fine : (ltb e b || ltb key e) ≡ false = ground arith in
    rw (load_word, cut_at, first, last, fine) (store_range-all key acc b (e + 1 - b) room)

word_read :
    (key : ℕ) (acc : List ℕ) (w : Word)
    → key < 2 ^ 32
    → Fits key w
    → length acc + length (numbers w) ≤ key
    → load_word key acc (print_word w) ≡ loaded (acc ++ numbers w)
word_read key acc (single g) small h room = word_single key acc g small h room
word_read key acc (range b e) small h room =
    word_range key acc b e small h.0 h.1 (let n = length-count_up b (e + 1 - b) in omega arith)

no_comma : (w : Word) → Without comma (print_word w)
no_comma (single g) = Digits-Without comma (decimal g) refl (decimal-Digits g)
no_comma (range b e) =
    All-append (λ x. (x == comma) ≡ false) (decimal b) (range_sign ∷ decimal e)
      (Digits-Without comma (decimal b) refl (decimal-Digits b))
      (refl, Digits-Without comma (decimal e) refl (decimal-Digits e))

word-Starts : (w : Word) → Starts (print_word w)
word-Starts (single g) = decimal-Starts g
word-Starts (range b e) =
    let s = decimal-Starts b in
    record {
      head = s.head;
      rest = s.rest ++ range_sign ∷ decimal e;
      whole = ap (λ l. l ++ range_sign ∷ decimal e) s.whole;
    }

-- The room that the words take.
abbrev pub needed : List Word → ℕ
needed ws = length (all_numbers ws)

-- The last word, and a word with others behind it.
next_cons :
    (key fuel : ℕ) (acc acc' : List ℕ) (x : ℕ) (xs : List ℕ)
    → (cut comma (x ∷ xs)).1 ≡ none
    → load_word key acc (cut comma (x ∷ xs)).0 ≡ loaded acc'
    → load_words key (suc fuel) acc (x ∷ xs) ≡ loaded acc'
unfolding load_words
next_cons key fuel acc acc' x xs f g = rw (load_words, g, f) refl

more_cons :
    (key fuel : ℕ) (acc acc' rest : List ℕ) (x : ℕ) (xs : List ℕ)
    → (cut comma (x ∷ xs)).1 ≡ some rest
    → load_word key acc (cut comma (x ∷ xs)).0 ≡ loaded acc'
    → load_words key (suc fuel) acc (x ∷ xs) ≡ load_words key fuel acc' rest
unfolding load_words
more_cons key fuel acc acc' rest x xs f g = rw (load_words, g, f) refl

last_read :
    (key fuel : ℕ) (acc acc' text : List ℕ)
    → Starts text
    → cut comma text ≡ (text, none)
    → load_word key acc text ≡ loaded acc'
    → load_words key (suc fuel) acc text ≡ loaded acc'
last_read key fuel acc acc' text s f g =
    subst
      (λ t.
        (cut comma t).1 ≡ none
        → load_word key acc (cut comma t).0 ≡ loaded acc'
        → load_words key (suc fuel) acc t ≡ loaded acc')
      (sym s.whole) (next_cons key fuel acc acc' s.head s.rest) (ap (λ r. r.1) f)
      (ap (λ r. load_word key acc r.0) f ∙ g)

front_read :
    (key fuel : ℕ) (acc acc' word rest : List ℕ)
    → Starts word
    → Without comma word
    → load_word key acc word ≡ loaded acc'
    → load_words key (suc fuel) acc (word ++ comma ∷ rest) ≡ load_words key fuel acc' rest
front_read key fuel acc acc' word rest s w g =
    let f = cut-Without comma word rest w in
    subst
      (λ t.
        (cut comma t).1 ≡ some rest
        → load_word key acc (cut comma t).0 ≡ loaded acc'
        → load_words key (suc fuel) acc t ≡ load_words key fuel acc' rest)
      (sym (ap (λ l. l ++ comma ∷ rest) s.whole))
      (more_cons key fuel acc acc' rest s.head (s.rest ++ comma ∷ rest)) (ap (λ r. r.1) f)
      (ap (λ r. load_word key acc r.0) f ∙ g)

load_words-print :
    (key fuel : ℕ) (acc : List ℕ) (w : Word) (ws : List Word)
    → key < 2 ^ 32
    → All (Fits key) (w ∷ ws)
    → length acc + needed (w ∷ ws) ≤ key
    → length (print (w ∷ ws)) ≤ fuel
    → load_words key fuel acc (print (w ∷ ws)) ≡ loaded (acc ++ all_numbers (w ∷ ws))
load_words-print key zero acc w [] small fits room f =
    let s = word-Starts w in let some_text = ap length s.whole in absurd (omega (arith, some_text))
load_words-print key (suc fuel) acc w [] small fits room f =
    let whole : numbers w ++ [] ≡ numbers w = append_nil (numbers w) in
    last_read key fuel acc (acc ++ numbers w) (print_word w) (word-Starts w)
      (cut-none comma (print_word w) (no_comma w))
      (word_read key acc w small fits.0 (omega (arith, ap length whole)))
    ∙ ap (λ l. loaded (acc ++ l)) (sym whole)
load_words-print key zero acc w (v ∷ ws) small fits room f =
    let size = length-append (print_word w) (comma ∷ print (v ∷ ws)) in absurd (omega (arith, size))
load_words-print key (suc fuel) acc w (v ∷ ws) small fits room f =
    let size = length-append (print_word w) (comma ∷ print (v ∷ ws)) in
    let more = length-append (numbers w) (all_numbers (v ∷ ws)) in
    let longer = length-append acc (numbers w) in
    front_read key fuel acc (acc ++ numbers w) (print_word w) (print (v ∷ ws)) (word-Starts w)
      (no_comma w) (word_read key acc w small fits.0 (omega (arith, more)))
    ∙ load_words-print key fuel (acc ++ numbers w) v ws small fits.1 (omega (arith, more, longer))
        (omega (arith, size))
    ∙ ap loaded (append_assoc acc (numbers w) (all_numbers (v ∷ ws)))

-- A partition that is written as numbers below `PARTITION_MOD_KEY` and ranges up to it, in decimal and
-- with commas between them, is loaded as just these numbers, in their order, if the array has room for
-- all of them.
pub load_partition-print :
    (key : ℕ) (w : Word) (ws : List Word)
    → key < 2 ^ 32
    → All (Fits key) (w ∷ ws)
    → length (all_numbers (w ∷ ws)) ≤ key
    → load_partition key (print (w ∷ ws)) ≡ loaded (all_numbers (w ∷ ws))
unfolding load_partition
load_partition-print key w ws small fits room =
    load_words-print key (length (print (w ∷ ws))) [] w ws small fits (omega arith) (omega arith)
