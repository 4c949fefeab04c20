-- ===== src/Meta/Auth/First.antt =====
-- Whose rights `meta_auth_check` of meta.cpp answers with.
use redis_agent.Base.{
  true, ℕ, suc, ◌+◌, ◌≡◌, refl, ◌∙◌, ap, inl, inr, Option, none, some, List, [], ◌∷◌, arith,
  get_elem?, if◌then◌else◌, Bool-cases,
}
use redis_agent.Base.Int.{ℤ, negsuc}
use redis_agent.Meta.Auth.{
  same_key, UserInfo, HashMap, IsHashMap, auth_load_from, auth_load, check_tk, auth_check,
}

same_key_sound : (xs ys : List ℕ) → same_key xs ys ≡ true → xs ≡ ys
same_key_sound [] [] e = refl
same_key_sound [] (y ∷ ys) e = cc e
same_key_sound (x ∷ xs) [] e = cc e
same_key_sound (x ∷ xs) (y ∷ ys) e =
    let head : x ≡ y = ground arith in
    let rest = same_key_sound xs ys (ground arith) in cc (head, rest)

module _ (M : Type 0) (h : HashMap M) (is : IsHashMap M h) where
  -- The first user with the given name.
  abbrev pub first_user : List ℕ → List UserInfo → Option UserInfo
  first_user k [] = none
  first_user k (u ∷ us) = if same_key u.uname k then some u else first_user k us

  abbrev first_index : List ℕ → ℕ → List UserInfo → Option ℕ
  first_index k i [] = none
  first_index k i (u ∷ us) = if same_key u.uname k then some i else first_index k (i + 1) us

  loaded_there :
      (k : List ℕ) (v i : ℕ) (us : List UserInfo) (m : M)
      → h.get k m ≡ some v
      → h.get k (auth_load_from M h i us m) ≡ some v
  unfolding auth_load_from
  loaded_there k v i [] m e = e
  loaded_there k v i (u ∷ us) m e =
      loaded_there k v (i + 1) us (h.set u.uname i m) (elim (Bool-cases (same_key u.uname k)) [
        | inl t ↦ let at = same_key_sound u.uname k t in rw at (is.set-there k v i m e)
        | inr t ↦ is.set-other k u.uname i m t ∙ e
      ])

  loaded_new :
      (k : List ℕ) (i : ℕ) (us : List UserInfo) (m : M)
      → h.get k m ≡ none
      → h.get k (auth_load_from M h i us m) ≡ first_index k i us
  unfolding auth_load_from
  loaded_new k i [] m e = e
  loaded_new k i (u ∷ us) m e = elim (Bool-cases (same_key u.uname k)) [
    | inl t ↦
        let at = same_key_sound u.uname k t in
        let new : h.get k (h.set u.uname i m) ≡ some i = rw at (is.set-new k i m e) in
        rw t (loaded_there k i (i + 1) us (h.set u.uname i m) new)
    | inr t ↦ rw t (loaded_new k (i + 1) us (h.set u.uname i m) (is.set-other k u.uname i m t ∙ e))
  ]

  abbrev pub rights : (List ℕ → ℕ) → List ℕ → Option UserInfo → ℤ
  rights strhash tk none = negsuc 0
  rights strhash tk (some user) = check_tk M h strhash tk user

  abbrev sucs : Option ℕ → Option ℕ
  sucs none = none
  sucs (some v) = some (suc v)

  shift :
      (k : List ℕ) (i : ℕ) (us : List UserInfo)
      → first_index k (i + 1) us ≡ sucs (first_index k i us)
  shift k i [] = refl
  shift k i (u ∷ us) = elim (Bool-cases (same_key u.uname k)) [
    | inl t ↦ let e : i + 1 ≡ suc i = omega arith in rw t (ap some e)
    | inr t ↦ rw t (shift k (i + 1) us)
  ]

  -- The answer for a position in the users.
  abbrev answer : (List ℕ → ℕ) → List ℕ → List UserInfo → Option ℕ → Option ℤ
  answer strhash tk us o = elim o [
    | none ↦ some (negsuc 0)
    | some id ↦ elim (get_elem? us id) [
      | none ↦ none
      | some user ↦ some (check_tk M h strhash tk user)
    ]
  ]

  answer-sucs :
      (strhash : List ℕ → ℕ) (tk : List ℕ) (u : UserInfo) (us : List UserInfo) (o : Option ℕ)
      → answer strhash tk (u ∷ us) (sucs o) ≡ answer strhash tk us o
  answer-sucs strhash tk u us none = refl
  answer-sucs strhash tk u us (some v) = refl

  lookup :
      (strhash : List ℕ → ℕ) (tk k : List ℕ) (us : List UserInfo)
      → answer strhash tk us (first_index k 0 us) ≡ some (rights strhash tk (first_user k us))
  lookup strhash tk k [] = refl
  lookup strhash tk k (u ∷ us) = elim (Bool-cases (same_key u.uname k)) [
    | inl t ↦ rw t refl
    | inr t ↦ rw t (
        ap (answer strhash tk (u ∷ us)) (shift k 0 us)
        ∙ answer-sucs strhash tk u us (first_index k 0 us)
        ∙ lookup strhash tk k us)
  ]

  -- With the users that were loaded, `meta_auth_check` reads no user behind the end, and answers with
  -- the rights of the first user of the given name, -2 if the hash of the token is not that user's,
  -- and -1 if there is no user of that name.
  pub auth_check-first_user :
      (strhash : List ℕ → ℕ) (users : List UserInfo) (uname tk ip : List ℕ)
      → auth_check M h strhash users (auth_load M h users) (some uname) (some tk) (some ip)
        ≡ some (rights strhash tk (first_user uname users))
  unfolding auth_check auth_load
  auth_check-first_user strhash users uname tk ip =
      let found = loaded_new uname 0 users h.clear (is.get-clear uname) in
      ap (answer strhash tk users) found ∙ lookup strhash tk uname users
