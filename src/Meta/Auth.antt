-- ===== src/Meta/Auth.antt =====
-- The users of meta.cpp: `_meta_auth_load` and `meta_auth_check`. The hash map (bsl::hashmap) and the
-- hash of a token are parameters.
pub mod First
use redis_agent.Base.{
  ℕ, ◌+◌, Option, none, some, Bool, true, false, ◌&&◌, List, [], ◌∷◌, ◌==◌, get_elem?,
  if◌then◌else◌, ◌≡◌,
}
use redis_agent.Base.Int.{ℤ, negsuc}

-- `meta_user_info`
pub record UserInfo : Type 0 where
  pub uname : List ℕ
  pub tk : List ℕ
  pub power : ℤ

-- What is used of `bsl::hashmap` with the texts of the names (`std::string`) as keys: the empty map, `set` without the flag that overwrites, `get`.
pub record HashMap (M : Type 0) : Type 0 where
  pub clear : M
  pub set : List ℕ → ℕ → M → M
  pub get : List ℕ → M → Option ℕ

-- `std::string` equality.
abbrev pub same_key : List ℕ → List ℕ → Bool
same_key [] [] = true
same_key [] (y ∷ ys) = false
same_key (x ∷ xs) [] = false
same_key (x ∷ xs) (y ∷ ys) = (x == y) && same_key xs ys

-- The documented behaviour of that map: `set` adds a key that is not there, and otherwise changes
-- nothing.
pub record IsHashMap (M : Type 0) (h : HashMap M) : Type 0 where
  pub get-clear : (k : List ℕ) → h.get k h.clear ≡ none
  pub set-there :
      (k : List ℕ) (v w : ℕ) (m : M) → h.get k m ≡ some v → h.get k (h.set k w m) ≡ some v
  pub set-new : (k : List ℕ) (w : ℕ) (m : M) → h.get k m ≡ none → h.get k (h.set k w m) ≡ some w
  pub set-other :
      (k j : List ℕ) (w : ℕ) (m : M) → same_key j k ≡ false → h.get k (h.set j w m) ≡ h.get k m

module _ (M : Type 0) (h : HashMap M) where
  -- The loop of `_meta_auth_load`, from user `i` on.
  pub auth_load_from : ℕ → List UserInfo → M → M
  auth_load_from i [] m = m
  auth_load_from i (u ∷ us) m = auth_load_from (i + 1) us (h.set u.uname i m)

  -- `_meta_auth_load`
  pub auth_load : List UserInfo → M
  auth_load users = auth_load_from 0 users h.clear

  -- The last test of `meta_auth_check`, with `strhash` of hash.h.
  unfoldable pub check_tk : (List ℕ → ℕ) → List ℕ → UserInfo → ℤ
  check_tk strhash tk user = if strhash tk == strhash user.tk then user.power else negsuc 1

  -- `meta_auth_check`, with NULL as `none`. The result is `none` where `users` is read behind its end.
  pub auth_check :
      (List ℕ → ℕ)
      → List UserInfo
      → M
      → Option (List ℕ)
      → Option (List ℕ)
      → Option (List ℕ)
      → Option ℤ
  auth_check strhash users m (some uname) (some tk) (some ip) = elim (h.get uname m) [
    | none ↦ some (negsuc 0)
    | some id ↦ elim (get_elem? users id) [
      | none ↦ none
      | some user ↦ some (check_tk strhash tk user)
    ]
  ]
  auth_check strhash users m none tk ip = some (negsuc 0)
  auth_check strhash users m (some uname) none ip = some (negsuc 0)
  auth_check strhash users m (some uname) (some tk) none = some (negsuc 0)
