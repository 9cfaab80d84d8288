-- ===== src/Io.antt =====
-- sys/io.c: `cl_mkdir_p`.
pub mod Ancestors
mod Tests
use libccll.Base.{
  ℕ, zero, suc, ◌+◌, ◌-◌, Bool, true, false, not, ◌||◌, List, [], ◌∷◌, ◌++◌, ltb, ◌==◌,
  if◌then◌else◌, Bytes, length, take, get_or,
}

-- what `mkdir` answers: it returns 0, or fails with `EEXIST`, or with another error
pub data Made : Type 0 where
  made exists failed : Made

unfoldable pub is_ok : Made → Bool
is_ok made = true
is_ok exists = true
is_ok failed = false

-- `0755`
abbrev pub mode_755 : ℕ
mode_755 = 493

-- `snprintf(tmp, sizeof(tmp), "%s", path);` and the slash at the end, for a path that is not empty
unfoldable pub tmp_of : Bytes → Bytes
tmp_of path =
    let tmp = take 255 path in
    if get_or tmp (length tmp - 1) 0 == b'/' then take (length tmp - 1) tmp else tmp

-- the loop and the last `mkdir`: `before` are the bytes up to `p`. The calls of `mkdir` in their order,
-- and whether the function returns `SUCC`.
unfoldable pub mkdir_loop :
    (answer : Bytes → ℕ → Made) → (mode : ℕ) → (before rest : Bytes) → List (Bytes × ℕ) × Bool
mkdir_loop answer mode before [] = ((before, mode) ∷ [], is_ok (answer before mode))
mkdir_loop answer mode before (c ∷ rest) =
    let (calls, ok) = mkdir_loop answer mode (before ++ c ∷ []) rest in
    if c == b'/'
    then (if is_ok (answer before mode_755)
        then ((before, mode_755) ∷ calls, ok)
        else ((before, mode_755) ∷ [], false))
    else (calls, ok)

-- `cl_mkdir_p` of a path that is not empty; the loop starts behind the first byte
unfoldable pub cl_mkdir_p :
    (answer : Bytes → ℕ → Made) → (path : Bytes) → (mode : ℕ) → List (Bytes × ℕ) × Bool
cl_mkdir_p answer path mode = elim (tmp_of path) [
  | [] ↦ (([], mode) ∷ [], is_ok (answer [] mode))
  | (c ∷ tmp) ↦ mkdir_loop answer mode (c ∷ []) tmp
]
