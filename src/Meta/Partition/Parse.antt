-- ===== src/Meta/Partition/Parse.antt =====
-- What `_meta_load_partition` of meta.cpp accepts.
use mathlib.Core.Path.{subst}
use redis_agent.Base.{
  ℕ, zero, suc, ◌+◌, ◌-◌, ◌≤◌, ◌≡◌, inl, inr, Option, none, some, ◌||◌, List, [], ◌∷◌, ltb, arith,
  if◌then◌else◌, length, length-append, All, All-append, Bool-cases,
}
use redis_agent.Meta.Partition.{
  comma, range_sign, cut, to_unsigned, atoi, Loaded, fault, refused, loaded, store, store_range,
  load_word, load_words, load_partition,
}

-- The numbers are partition numbers, or the one behind the last, and there is room for them.
pub record Kept (key : ℕ) (acc : List ℕ) : Type 0 where
  pub bounded : All (λ g. g ≤ key) acc
  pub room : length acc ≤ key

abbrev KeptIf : ℕ → Loaded → Type 0
KeptIf key fault = Unit
KeptIf key refused = Unit
KeptIf key (loaded acc) = Kept key acc

store-Kept :
    (key : ℕ) (acc : List ℕ) (g : ℕ) → Kept key acc → g ≤ key → KeptIf key (store key acc g)
unfolding store
store-Kept key acc g is h = elim (Bool-cases (ltb (length acc) key)) [
  | inl e ↦ rw e (record {
    bounded = All-append (λ g. g ≤ key) acc (g ∷ []) is.bounded (h, tt);
    room = rw (length-append acc (g ∷ [])) (ground arith);
  })
  | inr e ↦ rw e tt
]

store_range-Kept :
    (key : ℕ) (acc : List ℕ) (g n : ℕ)
    → Kept key acc
    → g + n ≤ key + 1
    → KeptIf key (store_range key acc g n)
unfolding store_range
store_range-Kept key acc g zero is h = is
store_range-Kept key acc g (suc n) is h =
    go (store key acc g) (store-Kept key acc g is (omega arith))
      (λ acc' is'. store_range-Kept key acc' (g + 1) n is' (omega arith))
  where
    go :
        (o : Loaded)
        → KeptIf key o
        → ((acc' : List ℕ) → Kept key acc' → KeptIf key (store_range key acc' (g + 1) n))
        → KeptIf key (elim o [
          | fault ↦ fault
          | refused ↦ refused
          | loaded acc' ↦ store_range key acc' (g + 1) n
        ])
    go fault is rest = tt
    go refused is rest = tt
    go (loaded acc') is rest = rest acc' is

load_word-Kept : (key : ℕ) (acc word : List ℕ) → Kept key acc → KeptIf key (load_word key acc word)
unfolding load_word
load_word-Kept key acc word is = go (cut range_sign word).1
  where
    single : (g : ℕ) → KeptIf key (if ltb g key then store key acc g else refused)
    single g = elim (Bool-cases (ltb g key)) [
      | inl e ↦ rw e (store-Kept key acc g is (ground arith))
      | inr e ↦ rw e tt
    ]

    range :
        (b e : ℕ)
        → KeptIf key (if ltb e b || ltb key e then refused else store_range key acc b (e + 1 - b))
    range b e = elim (Bool-cases (ltb e b || ltb key e)) [
      | inl t ↦ rw t tt
      | inr t ↦ rw t (store_range-Kept key acc b (e + 1 - b) is (ground arith))
    ]

    go :
        (o : Option (List ℕ))
        → KeptIf key (elim o [
          | none ↦
              if ltb (to_unsigned (atoi word)) key
              then store key acc (to_unsigned (atoi word))
              else refused
          | some behind ↦
              if ltb (to_unsigned (atoi behind)) (to_unsigned (atoi (cut range_sign word).0))
                || ltb key (to_unsigned (atoi behind))
              then refused
              else store_range key acc
                  (to_unsigned (atoi (cut range_sign word).0))
                  (to_unsigned (atoi behind) + 1 - to_unsigned (atoi (cut range_sign word).0))
        ])
    go none = single (to_unsigned (atoi word))
    go (some behind) =
        range (to_unsigned (atoi (cut range_sign word).0)) (to_unsigned (atoi behind))

load_words-Kept :
    (key fuel : ℕ) (acc text : List ℕ) → Kept key acc → KeptIf key (load_words key fuel acc text)
unfolding load_words
load_words-Kept key zero acc text is = is
load_words-Kept key (suc fuel) acc [] is = is
load_words-Kept key (suc fuel) acc (x ∷ xs) is =
    go (load_word key acc (cut comma (x ∷ xs)).0) (cut comma (x ∷ xs)).1
      (load_word-Kept key acc (cut comma (x ∷ xs)).0 is)
      (λ acc' behind is'. load_words-Kept key fuel acc' behind is')
  where
    go :
        (o : Loaded) (more : Option (List ℕ))
        → KeptIf key o
        → ((acc' behind : List ℕ) → Kept key acc' → KeptIf key (load_words key fuel acc' behind))
        → KeptIf key (elim o [
          | fault ↦ fault
          | refused ↦ refused
          | loaded acc' ↦ elim more [
            | none ↦ loaded acc'
            | some behind ↦ load_words key fuel acc' behind
          ]
        ])
    go fault more is rest = tt
    go refused more is rest = tt
    go (loaded acc') none is rest = is
    go (loaded acc') (some behind) is rest = rest acc' behind is

-- When a partition is loaded, its numbers are at most the number of keys, and there are not more of
-- them than that; a write behind the array is the outcome `fault`.
load_partition-Kept :
    (key : ℕ) (text ns : List ℕ) → load_partition key text ≡ loaded ns → Kept key ns
unfolding load_partition
load_partition-Kept key text ns e =
    subst (KeptIf key) e
      (load_words-Kept key (length text) [] text (record { bounded = tt; room = ground arith }))
