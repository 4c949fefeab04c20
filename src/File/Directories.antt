-- ===== src/File/Directories.antt =====
-- `create_parent_dir` and `create_dir` of file.cpp. The system calls are the record `FileSystem`; the
-- recursion is on fuel.
pub mod Slashes
use redis_agent.File.Directories.Slashes.{slash_count, dirname-parent}
use Prim.Native.Nat.{zero, suc}
use redis_agent.Base.{
  ℕ, ◌+◌, ◌<◌, ◌≤◌, ◌≡◌, refl, sym, ap, ◌∙◌, ◌⊎◌, inl, inr, Bool, true, false, Bool-cases, Option,
  none, some, List, [], ◌∷◌, ◌==◌, if◌then◌else◌, length, arith,
}
use redis_agent.Log.Buffer.{get_or}
use redis_agent.Connection.{c_string}
use redis_agent.File.{
  slash, set_char, skip_slashes, skip_letters, strip_slashes, last_slash, dirname,
}

-- What `stat` with `S_ISDIR` and `access(R_OK|W_OK|X_OK)`, `access(F_OK)` and `mkdir` do. A path is a
-- text without a NUL.
pub record FileSystem (A : Type 0) : Type 0 where
  pub usable : List ℕ → A → Bool
  pub exists : List ℕ → A → Bool
  pub mkdir : List ℕ → A → Bool × A

module _ {A : Type 0} (sys : FileSystem A) where
  -- `0 == create_parent_dir(parent) && 0 == mkdir(parent.c_str(), 0775)`
  abbrev pub mkdir_behind : List ℕ → Option (Bool × A) → Option (Bool × A)
  mkdir_behind name none = none
  mkdir_behind name (some (false, fs)) = some (false, fs)
  mkdir_behind name (some (true, fs)) = some (sys.mkdir name fs)

  -- The branches of both functions.
  abbrev pub ensure : List ℕ → A → Option (Bool × A) → Option (Bool × A)
  ensure name fs behind =
      if sys.usable name fs
      then some (true, fs)
      else (if sys.exists name fs then some (false, fs) else mkdir_behind name behind)

  -- `create_parent_dir`; true is the return value 0.
  unfoldable pub create_parent_dir : ℕ → List ℕ → A → Option (Bool × A)
  create_parent_dir zero path fs = none
  create_parent_dir (suc fuel) path fs =
      let parent = dirname path false in
      ensure (c_string parent) fs (create_parent_dir fuel parent fs)

  -- `create_dir`
  unfoldable pub create_dir : ℕ → List ℕ → A → Option (Bool × A)
  create_dir fuel path fs = ensure (c_string path) fs (create_parent_dir fuel path fs)

-- What the code relies on: a directory that can be used exists, as does one that `mkdir` has made.
pub record IsFileSystem {A : Type 0} (sys : FileSystem A) : Type 0 where
  pub used : (name : List ℕ) (fs : A) → sys.usable name fs ≡ true → sys.exists name fs ≡ true
  pub made :
      (name : List ℕ) (fs : A)
      → (sys.mkdir name fs).0 ≡ true
      → sys.exists name (sys.mkdir name fs).1 ≡ true

module _ {A : Type 0} (sys : FileSystem A) (is : IsFileSystem sys) where
  -- A call has returned, and has failed or left the path in place.
  abbrev pub Ends : List ℕ → Option (Bool × A) → Type 0
  Ends name o = (r : Bool × A) × ((o ≡ some r) × ((r.0 ≡ false) ⊎ (sys.exists name r.1 ≡ true)))

  mkdir_behind-Ends : (name : List ℕ) (r : Bool × A) → Ends name (mkdir_behind sys name (some r))
  mkdir_behind-Ends name (false, fs) = ((false, fs), (refl, inl refl))
  mkdir_behind-Ends name (true, fs) = (
    sys.mkdir name fs,
    (
      refl,
      (elim (Bool-cases (sys.mkdir name fs).0) [ inl y ↦ inr (is.made name fs y) | inr y ↦ inl y ]),
    ),
  )

  ensure-there :
      (name : List ℕ) (fs : A) (behind : Option (Bool × A))
      → sys.exists name fs ≡ true
      → Ends name (ensure sys name fs behind)
  ensure-there name fs behind e = elim (Bool-cases (sys.usable name fs)) [
    | inl y ↦ rw y ((true, fs), (refl, inr e))
    | inr y ↦ rw (y, e) ((false, fs), (refl, inl refl))
  ]

  ensure-behind :
      (name : List ℕ) (fs : A) (behind : Option (Bool × A)) (r : Bool × A)
      → behind ≡ some r
      → Ends name (ensure sys name fs behind)
  ensure-behind name fs behind r e = elim (Bool-cases (sys.usable name fs)) [
    | inl y ↦ rw y ((true, fs), (refl, inr (is.used name fs y)))
    | inr y ↦ elim (Bool-cases (sys.exists name fs)) [
      | inl z ↦ rw (y, z) ((false, fs), (refl, inl refl))
      | inr z ↦ rw (y, z, e) (mkdir_behind-Ends name r)
    ]
  ]

  create_parent_dir-Ends :
      (fuel : ℕ) (path : List ℕ) (fs : A)
      → sys.exists (slash ∷ []) fs ≡ true
      → sys.exists (46 ∷ []) fs ≡ true
      → slash_count path < fuel
      → Ends (c_string (dirname path false)) (create_parent_dir sys fuel path fs)
  unfolding create_parent_dir
  create_parent_dir-Ends zero path fs root here h = absurd (omega arith)
  create_parent_dir-Ends (suc fuel) path fs root here h =
      let parent = dirname path false in
      let behind = create_parent_dir sys fuel parent fs in
      elim (dirname-parent path) [
        | inl (inl e) ↦ ensure-there (c_string parent) fs behind (rw e root)
        | inl (inr e) ↦ ensure-there (c_string parent) fs behind (rw e here)
        | inr e ↦
            let r = create_parent_dir-Ends fuel parent fs root here (omega (arith, e)) in
            ensure-behind (c_string parent) fs behind r.0 (r.1.0)
      ]

  -- For system calls under which a usable directory and one that `mkdir` has made exist: where the
  -- root and the current directory exist, more fuel than the path has slashes is enough for
  -- `create_dir` to return, and then it has failed or the path exists.
  pub create_dir-Ends :
      (fuel : ℕ) (path : List ℕ) (fs : A)
      → sys.exists (slash ∷ []) fs ≡ true
      → sys.exists (46 ∷ []) fs ≡ true
      → slash_count path < fuel
      → Ends (c_string path) (create_dir sys fuel path fs)
  unfolding create_dir
  create_dir-Ends fuel path fs root here h =
      let r = create_parent_dir-Ends fuel path fs root here h in
      ensure-behind (c_string path) fs (create_parent_dir sys fuel path fs) r.0 (r.1.0)
