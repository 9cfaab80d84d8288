-- ===== src/Convt/Units.antt =====
-- The units of `cl_bytes_to_readable_str`.
use libccll.Base.{ℕ, ◌≡◌, ltb, if◌then◌else◌, arith}
use libccll.Convt.{is_large, unit_loop, decimals, cl_bytes_to_readable_str}

-- the table of the header file, with the number of decimals: three digits at least in the larger units
abbrev pub unit_table : ℕ → ℕ × ℕ
unit_table bytes =
    if ltb bytes 1024
    then (0, 0)
    else if ltb bytes 10240
    then (1, 2)
    else if ltb bytes 102400
    then (1, 1)
    else if ltb bytes 1048576
    then (1, 0)
    else if ltb bytes 10485760
    then (2, 2)
    else if ltb bytes 104857600
    then (2, 1)
    else if ltb bytes 1073741824
    then (2, 0)
    else if ltb bytes 10737418240
    then (3, 2)
    else if ltb bytes 107374182400
    then (3, 1)
    else (3, 0)

-- `cl_bytes_to_readable_str` follows the table of comm/inc/convt.h for every number of bytes.
cl_bytes_to_readable_str-unit_table :
    (bytes : ℕ) → cl_bytes_to_readable_str bytes ≡ unit_table bytes
unfolding cl_bytes_to_readable_str unit_loop is_large decimals
cl_bytes_to_readable_str-unit_table bytes = ground arith
