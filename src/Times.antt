-- ===== src/Times.antt =====
-- comm/times.c. What `mktime`, `localtime` and `strftime` answer is an argument, `none` being -1. A
-- field has fewer digits than a `long` holds, as the text has 19 bytes, and `atoi` keeps the 32 low bits.
pub mod Parse
mod Tests
use libccll.Base.{
  ℕ, zero, suc, ◌+◌, ◌-◌, ◌*◌, ◌%◌, ◌^◌, Bool, true, false, not, ◌||◌, ◌&&◌, Option, none, some, [],
  ◌∷◌, ltb, ◌==◌, if◌then◌else◌, Bytes, codes, length,
}
use libccll.Txt.{skip_spaces}
use libccll.Ip.{is_digit}

-- `strchr(a, c)`: the bytes before it and those behind it
unfoldable pub split_at : ℕ → Bytes → Option (Bytes × Bytes)
split_at c [] = none
split_at c (x ∷ s) =
    let rest : Option (Bytes × Bytes) = elim (split_at c s) [
      | none ↦ none
      | some (before, behind) ↦ some (x ∷ before, behind)
    ] in
    if x == c then some ([], s) else rest

-- the digits at the front, behind `num`
unfoldable pub number : ℕ → Bytes → ℕ
number num [] = num
number num (c ∷ s) = let rest = number (num * 10 + (c - b'0')) s in if is_digit c then rest else num

-- an `int`: whether it has a minus, and the number
pub record Parsed : Type 0 where
  pub minus : Bool
  pub abs : ℕ

-- a number as an `int`, of which the 32 low bits are kept
unfoldable pub to_int : (minus : Bool) → ℕ → Parsed
to_int minus n =
    let low = if minus then (2 ^ 32 - n % 2 ^ 32) % 2 ^ 32 else n % 2 ^ 32 in
    if ltb low (2 ^ 31)
    then record { minus = false; abs = low }
    else record { minus = true; abs = 2 ^ 32 - low }

unfoldable pub signed : Bytes → Parsed
signed [] = record { minus = false; abs = 0 }
signed (c ∷ s) =
    if c == b'-'
    then to_int true (number 0 s)
    else if c == b'+'
    then to_int false (number 0 s)
    else to_int false (number 0 (c ∷ s))

-- `atoi`
unfoldable pub atoi : Bytes → Parsed
atoi s = signed (skip_spaces s)

-- `z < low || z > high`
unfoldable pub is_outside : (low high : ℕ) → Parsed → Bool
is_outside low high z =
    if z.minus then not (z.abs == 0 && low == 0) else ltb z.abs low || ltb high z.abs

-- a number in its range
unfoldable pub get_number : (low high : ℕ) → Bytes → Option ℕ
get_number low high a = let z = atoi a in if is_outside low high z then none else some z.abs

-- a field up to its separator: the number and what is behind
unfoldable pub get_field : (sep low high : ℕ) → Bytes → Option (ℕ × Bytes)
get_field sep low high a = elim (split_at sep a) [
  | none ↦ none
  | some (before, behind) ↦ elim (get_number low high before) [
    | none ↦ none
    | some n ↦ some (n, behind)
  ]
]

-- `struct tm`
pub record Tm : Type 0 where
  pub tm_year : ℕ
  pub tm_mon : ℕ
  pub tm_mday : ℕ
  pub tm_hour : ℕ
  pub tm_min : ℕ
  pub tm_sec : ℕ
  pub tm_isdst : Bool

infixl 5 ◌>>=◌
abbrev pub ◌>>=◌ {ℓ κ} : {A : Type ℓ} {B : Type κ} → Option A → (A → Option B) → Option B
none >>= f = none
some a >>= f = f a

-- the fields, in their order
unfoldable pub get_tm : Bytes → Option Tm
get_tm a = do
  (ey, a) ← get_field b'-' 1970 2099 a
  (emo, a) ← get_field b'-' 1 12 a
  (ed, a) ← get_field b' ' 1 31 a
  (eh, a) ← get_field b':' 0 23 a
  (emi, a) ← get_field b':' 0 59 a
  es ← get_number 0 59 a
  some (record {
    tm_year = ey - 1900;
    tm_mon = emo - 1;
    tm_mday = ed;
    tm_hour = eh;
    tm_min = emi;
    tm_sec = es;
    tm_isdst = false;
  })

-- `cl_time_date2sec1`; `none` is `FAIL`
unfoldable pub cl_time_date2sec1 : (mktime : Tm → Option ℕ) → (time_str : Bytes) → Option ℕ
cl_time_date2sec1 mktime time_str =
    if not (length time_str == 19) then none else get_tm time_str >>= mktime

-- `cl_time_sec2date1` of a number that is not negative: the text that it writes
unfoldable pub cl_time_sec2date1 :
    (localtime : ℕ → Tm)
    → (strftime : (max : ℕ) → (format : Bytes) → Tm → Bytes) → (sec : ℕ) → Bytes
cl_time_sec2date1 localtime strftime sec = strftime 20 (codes "%F %T") (localtime sec)
