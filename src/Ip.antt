-- ===== src/Ip.antt =====
-- comm/ip.c: `cl_chk_ipv4`.
pub mod Dotted
mod Tests
use libccll.Base.{
  ℕ, ◌+◌, ◌-◌, ◌*◌, Bool, true, false, not, ◌&&◌, ◌||◌, Option, none, some, [], ◌∷◌, ltb, leb, ◌==◌,
  if◌then◌else◌, Bytes,
}

-- `isdigit`
unfoldable pub is_digit : ℕ → Bool
is_digit c = leb b'0' c && leb c b'9'

-- the loop over the text, and the test behind it
unfoldable pub chk_loop : Bytes → (dots num digit_count : ℕ) → Bool
chk_loop [] dots num digit_count = not (digit_count == 0 || ltb 255 num || not (dots == 3))
chk_loop (c ∷ ip) dots num digit_count =
    let dot = c == b'.' in
    let n = num * 10 + (c - b'0') in
    let rest =
      chk_loop ip (if dot then dots + 1 else dots) (if dot then 0 else n)
        (if dot then 0 else digit_count + 1) in
    if dot
    then (if digit_count == 0 || ltb 255 num then false else rest)
    else if is_digit c
    then (if ltb 3 (digit_count + 1) || ltb 255 n then false else rest)
    else false

-- `cl_chk_ipv4`; `none` is the null pointer
unfoldable pub cl_chk_ipv4 : Option Bytes → Bool
cl_chk_ipv4 none = false
cl_chk_ipv4 (some []) = false
cl_chk_ipv4 (some (c ∷ ip)) = chk_loop (c ∷ ip) 0 0 0
