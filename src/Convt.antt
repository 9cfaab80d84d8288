-- ===== src/Convt.antt =====
-- comm/convt.c: bytes in hexadecimal, and sizes with a unit.
pub mod Hex
pub mod Units
mod Tests
use libccll.Base.{
  ℕ, zero, suc, ◌+◌, ◌-◌, ◌*◌, ◌/◌, ◌%◌, ◌^◌, Bool, true, false, ◌&&◌, Option, none, some, [], ◌∷◌,
  ltb, leb, ◌==◌, if◌then◌else◌, Bytes, length,
}

-- one digit of `%02x`
unfoldable pub hex_digit : ℕ → ℕ
hex_digit n = if ltb n 10 then b'0' + n else b'a' + (n - 10)

-- the loop of `cl_print_bytes`: what it writes to `buf`; `k` is the place in the line
unfoldable pub hex_loop : (k : ℕ) → Bytes → Bytes
hex_loop k [] = []
hex_loop k (c ∷ bytes) =
    let rest = hex_loop (if k == 15 then 0 else k + 1) bytes in
    hex_digit (c / 16) ∷ hex_digit (c % 16) ∷ (if k == 15 then b'\n' ∷ rest else rest)

-- `MALLOC((size << 1) + 256)`
unfoldable pub buf_size : ℕ → ℕ
buf_size size = size * 2 + 256

-- `cl_print_bytes` of bytes that are not null: the text that it prints
unfoldable pub cl_print_bytes : Bytes → Option Bytes
cl_print_bytes bytes = if ltb 4096 (length bytes) then none else some (hex_loop 0 bytes)

-- `size >= 1024` where `size` is `bytes` divided by 1024 `unit_index` times; the divisions of the
-- double are exact
unfoldable pub is_large : (bytes unit_index : ℕ) → Bool
is_large bytes unit_index = leb (1024 * 1024 ^ unit_index) bytes

-- the loop of `cl_bytes_to_readable_str`, on the rounds left
unfoldable pub unit_loop : ℕ → (bytes unit_index : ℕ) → ℕ
unit_loop zero bytes unit_index = unit_index
unit_loop (suc n) bytes unit_index =
    let rest = unit_loop n bytes (unit_index + 1) in
    if is_large bytes unit_index && ltb unit_index 3 then rest else unit_index

-- the number of decimals that the formats ask for
unfoldable pub decimals : (bytes unit_index : ℕ) → ℕ
decimals bytes unit_index =
    if unit_index == 0
    then 0
    else if ltb bytes (10 * 1024 ^ unit_index)
    then 2
    else if ltb bytes (100 * 1024 ^ unit_index)
    then 1
    else 0

-- `cl_bytes_to_readable_str`: the unit, and the decimals that `sprintf` prints
unfoldable pub cl_bytes_to_readable_str : (bytes : ℕ) → ℕ × ℕ
cl_bytes_to_readable_str bytes =
    let unit_index = unit_loop 4 bytes 0 in (unit_index, decimals bytes unit_index)
