-- ===== src/Meta/Partition.antt =====
-- `_meta_load_partition` of meta.cpp: the text `0-9,12,20-29` of a partition, and its numbers. A text is
-- the list of its bytes, without the 0 at its end.
pub mod Parse
pub mod Print
pub mod RoundTrip
pub mod Routing
use redis_agent.Base.{
  ℕ, zero, suc, ◌+◌, ◌-◌, ◌*◌, ◌%◌, ◌^◌, Option, none, some, Bool, ◌&&◌, ◌||◌, List, [], ◌∷◌, ◌++◌,
  ◌==◌, ltb, leb, if◌then◌else◌, length,
}
use redis_agent.Base.Int.{ℤ, pos, negsuc, ◌-ℤ◌}

abbrev pub comma : ℕ
comma = 44

abbrev pub range_sign : ℕ
range_sign = 45

-- `strchr` and the cut that follows: the text before the first `c`, and the text behind it, if there
-- is a `c`.
unfoldable pub cut : ℕ → List ℕ → List ℕ × Option (List ℕ)
cut c [] = ([], none)
cut c (x ∷ xs) = let rest = cut c xs in if x == c then ([], some xs) else (x ∷ rest.0, rest.1)

abbrev pub is_space : ℕ → Bool
is_space x = (x == 32) || (leb 9 x && leb x 13)

abbrev pub is_digit : ℕ → Bool
is_digit x = leb 48 x && leb x 57

-- The digits at the start of a text, as a number, behind the number `n`.
unfoldable pub digits : ℕ → List ℕ → ℕ
digits n [] = n
digits n (x ∷ xs) = let rest = digits (n * 10 + (x - 48)) xs in if is_digit x then rest else n

-- `atoi`, where the number fits an `int`.
unfoldable pub atoi : List ℕ → ℤ
atoi [] = pos 0
atoi (x ∷ xs) =
    let rest = atoi xs in
    if is_space x
    then rest
    else (if x == 43
        then pos (digits 0 xs)
        else (if x == 45 then pos 0 -ℤ pos (digits 0 xs) else pos (digits 0 (x ∷ xs))))

-- The conversion to `unsigned int`.
unfoldable pub to_unsigned : ℤ → ℕ
to_unsigned (pos n) = n % 2 ^ 32
to_unsigned (negsuc n) = 2 ^ 32 - 1 - n % 2 ^ 32

-- `fault` is a write behind the end of the array `partitions`, which has `size` entries; the others
-- are -1 and the numbers that are in it.
pub data Loaded : Type 0 where
  fault : Loaded
  refused : Loaded
  loaded : List ℕ → Loaded

-- One number is put behind the others.
unfoldable pub store : ℕ → List ℕ → ℕ → Loaded
store size acc g = if ltb (length acc) size then loaded (acc ++ g ∷ []) else fault

-- The loop over a range that begins with `g` and has `n` numbers.
unfoldable pub store_range : ℕ → List ℕ → ℕ → ℕ → Loaded
store_range size acc g zero = loaded acc
store_range size acc g (suc n) = elim (store size acc g) [
  | fault ↦ fault
  | refused ↦ refused
  | loaded acc' ↦ store_range size acc' (g + 1) n
]

-- One word: a number or a range. `key` is `PARTITION_MOD_KEY`.
unfoldable pub load_word : ℕ → List ℕ → List ℕ → Loaded
load_word key acc word =
    let parts = cut range_sign word in
    let g = to_unsigned (atoi word) in
    let single = if ltb g key then store key acc g else refused in
    elim (parts.1) [
      | none ↦ single
      | some behind ↦
          let b = to_unsigned (atoi parts.0) in
          let e = to_unsigned (atoi behind) in
          if ltb e b || ltb key e then refused else store_range key acc b (e + 1 - b)
    ]

-- The loop over the words, on fuel: each round takes a word and the comma behind it, so that the
-- length of the text is enough.
unfoldable pub load_words : ℕ → ℕ → List ℕ → List ℕ → Loaded
load_words key zero acc text = loaded acc
load_words key (suc fuel) acc [] = loaded acc
load_words key (suc fuel) acc (x ∷ xs) =
    let parts = cut comma (x ∷ xs) in
    elim (load_word key acc parts.0) [
      | fault ↦ fault
      | refused ↦ refused
      | loaded acc' ↦ elim (parts.1) [
        | none ↦ loaded acc'
        | some behind ↦ load_words key fuel acc' behind
      ]
    ]

-- `_meta_load_partition`
unfoldable pub load_partition : ℕ → List ℕ → Loaded
load_partition key text = load_words key (length text) [] text
