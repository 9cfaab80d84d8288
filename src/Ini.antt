-- ===== src/Ini.antt =====
-- cfg/ini.c: the search for a key in a file or in a text.
pub mod Loop
pub mod Entry
pub mod Buffers
mod Tests
use libccll.Base.{
  ℕ, zero, suc, ◌+◌, ◌-◌, Bool, true, false, ◌&&◌, ◌||◌, not, Option, none, some, [], ◌∷◌, ltb,
  ◌==◌, if◌then◌else◌, Bytes, length, take, drop, get_or,
}
use libccll.Txt.{Line, pos_line}

-- `MAX_KLEN` and `MAX_SLEN`, `MAX_LINE_BYTE`, `MAX_TXT_BYTE`
abbrev pub max_klen : ℕ
max_klen = 64

abbrev pub max_line_byte : ℕ
max_line_byte = 256

abbrev pub max_txt_byte : ℕ
max_txt_byte = 1048576

-- `FindRet`, with what the call leaves in `value` or in `_sec`
pub data FindRet : Type 0 where
  fr_found : (value : Bytes) → FindRet
  fr_none : (current : Bytes) → FindRet
  fr_fail : FindRet

-- `strcmp(a, b) == 0`
unfoldable pub str_eq : Bytes → Bytes → Bool
str_eq [] [] = true
str_eq (a ∷ s) (b ∷ t) = a == b && str_eq s t
str_eq [] (b ∷ t) = false
str_eq (a ∷ s) [] = false

-- `line[strcspn(line, "\n")] = '\0';`
unfoldable pub cut_newline : Bytes → Bytes
cut_newline [] = []
cut_newline (c ∷ line) = let rest = cut_newline line in if c == b'\n' then [] else c ∷ rest

unfoldable pub is_blank : ℕ → Bool
is_blank c = c == b' ' || c == b'\t'

-- `while (*s == ' ' || *s == '\t') s++;`
unfoldable pub skip_blanks : Bytes → Bytes
skip_blanks [] = []
skip_blanks (c ∷ s) = let rest = skip_blanks s in if is_blank c then rest else c ∷ s

-- `while (end > s && (*end == ' ' || *end == '\t')) end--;`, with the bytes up to `end` counted
unfoldable pub cut_blanks : ℕ → Bytes → ℕ
cut_blanks zero s = zero
cut_blanks (suc zero) s = suc zero
cut_blanks (suc (suc n)) s =
    let rest = cut_blanks (suc n) s in if is_blank (get_or s (suc n) 0) then rest else suc (suc n)

-- the two loops round a key or a value, and the terminator behind it
unfoldable pub trim_blanks : Bytes → Bytes
trim_blanks s = let t = skip_blanks s in take (cut_blanks (length t) t) t

-- `strchr(line, '=')`: the bytes before the delimiter and those behind it
unfoldable pub split_eq : Bytes → Option (Bytes × Bytes)
split_eq [] = none
split_eq (c ∷ s) =
    let rest : Option (Bytes × Bytes) = elim (split_eq s) [
      | none ↦ none
      | some (key, val) ↦ some (c ∷ key, val)
    ] in
    if c == b'=' then some ([], s) else rest

-- a line that is no comment and no section
unfoldable pub get_entry : Bytes → (current key : Bytes) → FindRet
get_entry line current key = elim (split_eq line) [
  | none ↦ fr_none current
  | some (k, v) ↦ if str_eq (trim_blanks k) key then fr_found (trim_blanks v) else fr_none current
]

-- whether the line belongs to another section than `sec`
unfoldable pub is_elsewhere : (sec : Option Bytes) → (current : Bytes) → Bool
is_elsewhere none current = false
is_elsewhere (some sec) current = not (str_eq sec current)

-- a section's line, which is an error if no section is asked for
unfoldable pub get_section : Bytes → (sec : Option Bytes) → FindRet
get_section line none = fr_fail
get_section line (some sec) = fr_none (take (length line - 2) (drop 1 line))

-- a line whose newline is cut, and which is not empty
unfoldable pub get_line : Bytes → (sec : Option Bytes) → (current key : Bytes) → FindRet
get_line line sec current key =
    let first = get_or line 0 0 in
    let last = get_or line (length line - 1) 0 in
    if first == b';' || first == b'#'
    then fr_none current
    else if first == b'[' && last == b']'
    then get_section line sec
    else if is_elsewhere sec current
    then fr_none current
    else get_entry line current key

unfoldable pub get_cut : Bytes → (sec : Option Bytes) → (current key : Bytes) → FindRet
get_cut [] sec current key = fr_none current
get_cut (c ∷ line) sec current key = get_line (c ∷ line) sec current key

-- `_get_value`
unfoldable pub get_value : Bytes → (sec : Option Bytes) → (current key : Bytes) → FindRet
get_value line sec current key =
    if ltb (length line) 1 then fr_fail else get_cut (cut_newline line) sec current key

-- `strlen(key)` and `strlen(section)` in their ranges
unfoldable pub is_length_ok : Bytes → Bool
is_length_ok s = not (ltb (length s) 1 || ltb max_klen (length s))

unfoldable pub is_request_ok : (sec : Option Bytes) → (key : Bytes) → Bool
is_request_ok none key = is_length_ok key
is_request_ok (some sec) key = is_length_ok key && is_length_ok sec

-- `fgets(line, n + 1, file)`: the bytes read and those left
unfoldable pub fgets : ℕ → Bytes → Bytes × Bytes
fgets zero file = ([], file)
fgets (suc n) [] = ([], [])
fgets (suc n) (c ∷ file) =
    let (line, rest) = fgets n file in if c == b'\n' then (c ∷ [], file) else (c ∷ line, rest)

-- the `switch` on what a line gave, and how the loop goes on behind a line that gave nothing
unfoldable pub next_line : FindRet → (Bytes → Option Bytes) → Option Bytes
next_line (fr_found value) go_on = some value
next_line (fr_none current) go_on = go_on current
next_line fr_fail go_on = none

-- the loop of `cl_ini_get`, on fuel; `none` is `FAIL`
unfoldable pub file_loop : ℕ → Bytes → (sec : Option Bytes) → (current key : Bytes) → Option Bytes
file_loop zero file sec current key = none
file_loop (suc fuel) [] sec current key = none
file_loop (suc fuel) (c ∷ file) sec current key =
    let (line, rest) = fgets (max_line_byte - 1) (c ∷ file) in
    next_line (get_value line sec current key) (λ current. file_loop fuel rest sec current key)

-- the loop of `cl_ini_get2`, on fuel
unfoldable pub text_loop : ℕ → Bytes → (sec : Option Bytes) → (current key : Bytes) → Option Bytes
text_loop zero txt sec current key = none
text_loop (suc fuel) txt sec current key =
    let l = pos_line txt in
    next_line (get_value l.text sec current key) λ current. elim (l.ret == 0) [
      | true ↦ none
      | false ↦ text_loop fuel (drop l.ret txt) sec current key
    ]

-- `cl_ini_get` on valid pointers: `file` is `none` where `fopen` fails. Each round reads a byte at
-- least, so as many rounds as there are bytes are enough.
unfoldable pub cl_ini_get :
    (file : Option Bytes) → (sec : Option Bytes) → (key : Bytes) → Option Bytes
cl_ini_get none sec key = none
cl_ini_get (some file) sec key =
    if is_request_ok sec key then file_loop (length file + 1) file sec [] key else none

-- `cl_ini_get2` on valid pointers
unfoldable pub cl_ini_get2 : (cfg_txt : Bytes) → (sec : Option Bytes) → (key : Bytes) → Option Bytes
cl_ini_get2 cfg_txt sec key =
    if not (is_request_ok sec key)
    then none
    else if ltb (length cfg_txt) 1 || ltb max_txt_byte (length cfg_txt)
    then none
    else text_loop (length cfg_txt + 1) cfg_txt sec [] key
