-- ===== src/Mac.antt =====
-- comm/mac.c: `cl_is_mac_valid`.
pub mod Formats
mod Tests
use libccll.Base.{
  ℕ, zero, suc, ◌+◌, ◌%◌, Bool, true, false, not, ◌||◌, ◌&&◌, Option, none, some, [], ◌∷◌, leb,
  ◌==◌, if◌then◌else◌, Bytes, length,
}
use libccll.Ip.{is_digit}

-- `isxdigit`
unfoldable pub is_xdigit : ℕ → Bool
is_xdigit c = is_digit c || ((leb b'a' c && leb c b'f') || (leb b'A' c && leb c b'F'))

-- the loop of `_chk_type1` from index `i` on, and the test behind it
unfoldable pub chk_loop1 : (i colon_count dash_count : ℕ) → Bytes → Bool
chk_loop1 i colon_count dash_count [] = colon_count == 5 || dash_count == 5
chk_loop1 i colon_count dash_count (c ∷ mac) =
    let rest =
      chk_loop1 (i + 1) (if i % 3 == 2 && c == b':' then colon_count + 1 else colon_count)
        (if i % 3 == 2 && c == b'-' then dash_count + 1 else dash_count) mac in
    if not (i % 3 == 2)
    then (if is_xdigit c then rest else false)
    else if c == b':' || c == b'-'
    then rest
    else false

-- `_chk_type1`
unfoldable pub chk_type1 : Bytes → Bool
chk_type1 mac = if length mac == 17 then chk_loop1 0 0 0 mac else false

-- the loop of `_chk_type2`
unfoldable pub chk_loop2 : Bytes → Bool
chk_loop2 [] = true
chk_loop2 (c ∷ mac) = let rest = chk_loop2 mac in if is_xdigit c then rest else false

-- `_chk_type2`
unfoldable pub chk_type2 : Bytes → Bool
chk_type2 mac = if length mac == 12 then chk_loop2 mac else false

-- `cl_is_mac_valid`; `none` is the null pointer
unfoldable pub cl_is_mac_valid : Option Bytes → Bool
cl_is_mac_valid none = false
cl_is_mac_valid (some []) = false
cl_is_mac_valid (some (c ∷ mac)) =
    if chk_type1 (c ∷ mac) then true else if chk_type2 (c ∷ mac) then true else false
