-- ===== src/Examples/File.antt =====
-- The paths `/c/d//`, `a/b` and `a//b` for file.cpp.
use redis_agent.Base.{
  ℕ, Bool, false, List, ◌==◌, ◌&&◌, ◌||◌, if◌then◌else◌, inl, inr, Bool-cases, some, arith, ◌≡◌,
  refl, true, [], ◌∷◌,
}
use redis_agent.Connection.{c_string}
use redis_agent.File.{dirname, basename, skip_slashes, skip_letters, last_slash, strip_slashes}
use redis_agent.File.Directories.{
  FileSystem, IsFileSystem, Ends, create_dir, create_parent_dir, create_dir-Ends,
}
use redis_agent.File.Parts.{path, dirname-basename}

dirname-basename_example :
    (c_string (dirname (path (47 ∷ 99 ∷ []) (100 ∷ []) 2) true) ≡ 47 ∷ 99 ∷ 47 ∷ [])
    × (basename (path (47 ∷ 99 ∷ []) (100 ∷ []) 2) ≡ 100 ∷ [])
dirname-basename_example =
    dirname-basename (47 ∷ 99 ∷ []) 100 [] 2 (refl, tt) (refl, (refl, (refl, tt)))

abbrev same_text : List ℕ → List ℕ → Bool
same_text [] [] = true
same_text [] (y ∷ ys) = false
same_text (x ∷ xs) [] = false
same_text (x ∷ xs) (y ∷ ys) = (x == y) && same_text xs ys

same_text_self : (s : List ℕ) → same_text s s ≡ true
same_text_self [] = refl
same_text_self (x ∷ xs) = let rest = same_text_self xs in ground arith

abbrev listed : List ℕ → List (List ℕ) → Bool
listed name [] = false
listed name (d ∷ ds) = same_text name d || listed name ds

-- A file system that has directories alone.
abbrev directories : FileSystem (List (List ℕ))
directories = record {
  usable = listed;
  exists = listed;
  mkdir = λ name ds. if listed name ds then (false, ds) else (true, name ∷ ds);
}

directories-IsFileSystem : IsFileSystem directories
directories-IsFileSystem = record {
  used = λ name ds e. e;
  made = λ name ds e. elim (Bool-cases (listed name ds)) [
    | inl y ↦ rw y y
    | inr y ↦ let self = same_text_self name in rw y (ground arith)
  ];
}

abbrev two_directories : List (List ℕ)
two_directories = (47 ∷ []) ∷ (46 ∷ []) ∷ []

create_dir-Ends_example :
    Ends directories directories-IsFileSystem
      (97 ∷ 47 ∷ 98 ∷ [])
      (create_dir directories 2 (97 ∷ 47 ∷ 98 ∷ []) two_directories)
create_dir-Ends_example =
    create_dir-Ends directories directories-IsFileSystem 2 (97 ∷ 47 ∷ 98 ∷ []) two_directories refl
      refl (omega arith)

-- `a/b` is made with its parent.
one_slash_test :
    create_dir directories 3 (97 ∷ 47 ∷ 98 ∷ []) two_directories
    ≡ some (true, (97 ∷ 47 ∷ 98 ∷ []) ∷ (97 ∷ []) ∷ two_directories)
unfolding create_dir create_parent_dir dirname skip_slashes skip_letters last_slash strip_slashes
one_slash_test = refl

-- `a//b` is not made: the first `mkdir` makes `a`, the second finds it there and fails.
two_slashes_test :
    create_dir directories 3 (97 ∷ 47 ∷ 47 ∷ 98 ∷ []) two_directories
    ≡ some (false, (97 ∷ []) ∷ two_directories)
unfolding create_dir create_parent_dir dirname skip_slashes skip_letters last_slash strip_slashes
two_slashes_test = refl
