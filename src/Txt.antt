-- ===== src/Txt.antt =====
-- comm/txt.c: `cl_txt_pos_line` and `cl_txt_trim`. A C string is the list of the bytes before its
-- terminator.
pub mod Trim
pub mod Lines
mod Tests
use libccll.Base.{
  ℕ, zero, suc, ◌+◌, ◌-◌, Bool, true, false, ◌&&◌, ◌||◌, Option, none, some, [], ◌∷◌, ltb, leb,
  ◌==◌, if◌then◌else◌, Bytes, length, take, get_or,
}

-- `isspace` in the C locale
unfoldable pub is_space : ℕ → Bool
is_space c = c == b' ' || (leb 9 c && leb c 13)

-- What a call writes to `dst`: the string, and how many bytes of the buffer it touches.
pub record Line : Type 0 where
  pub text : Bytes
  pub written : ℕ
  pub ret : ℕ

-- the loop over `_src`: how far the first newline is, if there is one
unfoldable pub find_newline : Bytes → ℕ → ℕ × Bool
find_newline [] off = (off, false)
find_newline (c ∷ src) off = if c == b'\n' then (off, true) else find_newline src (off + 1)

-- `strncpy(dst, src, off); *(dst + off) = 0;` and the carriage return before a newline
unfoldable pub strip_cr : ℕ → Bytes → Bytes
strip_cr off dst = if ltb 0 off && get_or dst (off - 1) 0 == b'\r' then take (off - 1) dst else dst

-- `cl_txt_pos_line` on valid arguments; it takes no notice of `max`
unfoldable pub pos_line : Bytes → Line
unfolding find_newline strip_cr
pos_line src =
    let (off, newline) = find_newline src 0 in
    if newline
    then record { text = strip_cr off (take off src); written = off + 1; ret = off + 1 }
    else record { text = take off src; written = off + 1; ret = 0 }

-- `cl_txt_pos_line`: `none` is -1, `dst` says that the buffer is not null
unfoldable pub cl_txt_pos_line : (dst : Bool) → (max : ℕ) → (src : Option Bytes) → Option Line
cl_txt_pos_line dst max none = none
cl_txt_pos_line false max (some src) = none
cl_txt_pos_line true max (some src) = if ltb max 1 then none else some (pos_line src)

-- `while(isspace(*start)) start++;`
unfoldable pub skip_spaces : Bytes → Bytes
skip_spaces [] = []
skip_spaces (c ∷ start) = let rest = skip_spaces start in if is_space c then rest else c ∷ start

-- `while(dest >= str && isspace(*dest)) dest--;`, with the bytes up to `dest` counted
unfoldable pub trim_end : ℕ → Bytes → ℕ
trim_end zero str = zero
trim_end (suc dest) str =
    let rest = trim_end dest str in if is_space (get_or str dest 0) then rest else suc dest

-- `cl_txt_trim`, which leaves its argument alone if it is null
unfoldable pub cl_txt_trim : Bytes → Bytes
unfolding skip_spaces trim_end is_space
cl_txt_trim str = let start = skip_spaces str in take (trim_end (length start) start) start
