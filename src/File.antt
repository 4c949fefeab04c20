-- ===== src/File.antt =====
-- The names of files, of file.cpp: `dirname` and `basename` on texts of character codes. A text that is
-- returned may have a NUL inside, at which its readers stop.
pub mod Directories
pub mod Parts
use Prim.Native.Nat.{zero, suc}
use redis_agent.Base.{
  ℕ, ◌+◌, ◌-◌, Bool, true, false, List, [], ◌∷◌, ◌==◌, if◌then◌else◌, length, take, drop,
}
use redis_agent.Log.Buffer.{get_or}

-- '/'
abbrev pub slash : ℕ
slash = 47

-- `s[i] = c`; behind the end there is the NUL that the text ends in.
abbrev pub set_char : List ℕ → ℕ → ℕ → List ℕ
set_char [] i c = []
set_char (x ∷ xs) zero c = c ∷ xs
set_char (x ∷ xs) (suc i) c = x ∷ set_char xs i c

-- The two loops that both functions begin with. `n` is `last + 1`, so that 0 stands for -1.
unfoldable pub skip_slashes : List ℕ → ℕ → ℕ
skip_slashes s zero = 0
skip_slashes s (suc n) = let rest = skip_slashes s n in if get_or s n == slash then rest else suc n

unfoldable pub skip_letters : List ℕ → ℕ → ℕ
skip_letters s zero = 0
skip_letters s (suc n) = let rest = skip_letters s n in if get_or s n == slash then suc n else rest

-- The loop that keeps the first character.
unfoldable pub strip_slashes : List ℕ → ℕ → ℕ
strip_slashes s zero = 0
strip_slashes s (suc zero) = 1
strip_slashes s (suc (suc n)) =
    let rest = strip_slashes s (suc n) in if get_or s (suc n) == slash then rest else suc (suc n)

-- The end of `dirname`, with `last + 1`.
unfoldable pub last_slash : Bool → List ℕ → ℕ → List ℕ
last_slash true parent n = parent
last_slash false parent n = set_char parent (strip_slashes parent n) 0

-- `dirname`
unfoldable pub dirname : List ℕ → Bool → List ℕ
dirname pathname reserve =
    let n = skip_slashes pathname (length pathname) in
    let m = skip_letters pathname n in
    if n == 0
    then slash ∷ []
    else (if m == 0
        then last_slash reserve (46 ∷ slash ∷ []) 2
        else last_slash reserve (set_char pathname m 0) m)

-- `basename`
pub basename : List ℕ → List ℕ
basename pathname =
    let n = skip_slashes pathname (length pathname) in
    let m = skip_letters pathname n in if n == 0 then slash ∷ [] else take (n - m) (drop m pathname)
