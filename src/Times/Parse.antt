-- ===== src/Times/Parse.antt =====
-- comm/times.c: a date in the format of comm/inc/times.h, and how it is read.
use libccll.Base.{
  ℕ, ◌+◌, ◌-◌, ◌/◌, ◌%◌, ◌≤◌, ◌<◌, ◌≡◌, refl, sym, ◌∙◌, false, Option, some, [], ◌∷◌, Bytes, codes,
  arith,
}
use libccll.Times.{
  cl_time_sec2date1, split_at, number, to_int, signed, atoi, is_outside, get_number, get_field, Tm,
  get_tm, cl_time_date2sec1,
}
use libccll.Txt.{is_space, skip_spaces}
use libccll.Ip.{is_digit}

-- a number with two digits, and one with four
abbrev pub two_digits : ℕ → Bytes → Bytes
two_digits n s = (b'0' + n / 10) ∷ ((b'0' + n % 10) ∷ s)

abbrev pub four_digits : ℕ → Bytes → Bytes
four_digits n s = two_digits (n / 100) (two_digits (n % 100) s)

split_at-two_digits :
    (sep n : ℕ) (s : Bytes)
    → is_digit sep ≡ false
    → n < 100
    → split_at sep (two_digits n (sep ∷ s)) ≡ some (two_digits n [], s)
unfolding split_at is_digit
split_at-two_digits sep n s h lt = ground arith

atoi-two_digits : (n : ℕ) → n < 100 → atoi (two_digits n []) ≡ record { minus = false; abs = n }
unfolding atoi signed to_int number skip_spaces is_space is_digit
atoi-two_digits n lt = ground arith

split_at-four_digits :
    (sep n : ℕ) (s : Bytes)
    → is_digit sep ≡ false
    → n < 10000
    → split_at sep (four_digits n (sep ∷ s)) ≡ some (four_digits n [], s)
unfolding split_at is_digit
split_at-four_digits sep n s h lt = ground arith

atoi-four_digits : (n : ℕ) → n < 10000 → atoi (four_digits n []) ≡ record { minus = false; abs = n }
unfolding atoi signed to_int number skip_spaces is_space is_digit
atoi-four_digits n lt = ground arith

get_number-two_digits :
    (low high n : ℕ) → low ≤ n → n ≤ high → n < 100 → get_number low high (two_digits n []) ≡ some n
unfolding get_number is_outside
get_number-two_digits low high n above below lt = ground (arith, atoi-two_digits n)

get_number-four_digits :
    (low high n : ℕ)
    → low ≤ n
    → n ≤ high
    → n < 10000
    → get_number low high (four_digits n []) ≡ some n
unfolding get_number is_outside
get_number-four_digits low high n above below lt = ground (arith, atoi-four_digits n)

get_field-two_digits :
    (sep low high n : ℕ) (s : Bytes)
    → is_digit sep ≡ false
    → low ≤ n
    → n ≤ high
    → n < 100
    → get_field sep low high (two_digits n (sep ∷ s)) ≡ some (n, s)
unfolding get_field
get_field-two_digits sep low high n s h above below lt =
    rw (split_at-two_digits sep n s h lt, get_field)
      (rw (get_number-two_digits low high n above below lt, get_field) refl)

get_field-four_digits :
    (sep low high n : ℕ) (s : Bytes)
    → is_digit sep ≡ false
    → low ≤ n
    → n ≤ high
    → n < 10000
    → get_field sep low high (four_digits n (sep ∷ s)) ≡ some (n, s)
unfolding get_field
get_field-four_digits sep low high n s h above below lt =
    rw (split_at-four_digits sep n s h lt, get_field)
      (rw (get_number-four_digits low high n above below lt, get_field) refl)

-- `2025-11-25 21:44:19`
abbrev pub date_text : (year month day hour minute second : ℕ) → Bytes
date_text year month day hour minute second = four_digits year (
    b'-'
    ∷ two_digits month (
        b'-'
        ∷ two_digits day
            (b' ' ∷ two_digits hour (b':' ∷ two_digits minute (b':' ∷ two_digits second [])))))

-- the date and the time are in the ranges of the fields
pub record InRange (year month day hour minute second : ℕ) : Type 0 where
  pub year_from : 1970 ≤ year
  pub year_to : year ≤ 2099
  pub month_from : 1 ≤ month
  pub month_to : month ≤ 12
  pub day_from : 1 ≤ day
  pub day_to : day ≤ 31
  pub hour_to : hour ≤ 23
  pub minute_to : minute ≤ 59
  pub second_to : second ≤ 59

sep_no_digit : (is_digit b'-' ≡ false) × (is_digit b' ' ≡ false) × (is_digit b':' ≡ false)
unfolding is_digit
sep_no_digit = (refl, refl, refl)

get_tm-date_text :
    (year month day hour minute second : ℕ)
    → InRange year month day hour minute second
    → get_tm (date_text year month day hour minute second)
      ≡ some (record {
        tm_year = year - 1900;
        tm_mon = month - 1;
        tm_mday = day;
        tm_hour = hour;
        tm_min = minute;
        tm_sec = second;
        tm_isdst = false;
      })
unfolding get_tm
get_tm-date_text year month day hour minute second h =
    let (dash, space, colon) = sep_no_digit in
    rw
      (get_field-four_digits b'-' 1970 2099 year _ dash h.year_from h.year_to
        (omega (arith, h.year_to)))
      (rw
        (get_field-two_digits b'-' 1 12 month _ dash h.month_from h.month_to
          (omega (arith, h.month_to)))
        (rw
          (get_field-two_digits b' ' 1 31 day _ space h.day_from h.day_to (omega (arith, h.day_to)))
          (rw
            (get_field-two_digits b':' 0 23 hour _ colon (omega arith) h.hour_to
              (omega (arith, h.hour_to)))
            (rw
              (get_field-two_digits b':' 0 59 minute _ colon (omega arith) h.minute_to
                (omega (arith, h.minute_to)))
              (rw
                (get_number-two_digits 0 59 second (omega arith) h.second_to
                  (omega (arith, h.second_to)))
                refl)))))

-- A date and time in the format of comm/inc/times.h, each number in its range, is given to `mktime` as
-- these numbers, and `cl_time_date2sec1` returns what `mktime` returns.
pub cl_time_date2sec1-date_text :
    (mktime : Tm → Option ℕ) (year month day hour minute second : ℕ)
    → InRange year month day hour minute second
    → cl_time_date2sec1 mktime (date_text year month day hour minute second)
      ≡ mktime (record {
        tm_year = year - 1900;
        tm_mon = month - 1;
        tm_mday = day;
        tm_hour = hour;
        tm_min = minute;
        tm_sec = second;
        tm_isdst = false;
      })
unfolding cl_time_date2sec1
cl_time_date2sec1-date_text mktime year month day hour minute second h =
    rw (get_tm-date_text year month day hour minute second h) refl

-- the text of a broken-down time
abbrev pub text_of : Tm → Bytes
text_of tm = date_text (tm.tm_year + 1900) (tm.tm_mon + 1) tm.tm_mday tm.tm_hour tm.tm_min tm.tm_sec

-- the years from 1970 to 2099, without leap seconds
abbrev pub TmInRange : Tm → Type 0
TmInRange tm = InRange (tm.tm_year + 1900) (tm.tm_mon + 1) tm.tm_mday tm.tm_hour tm.tm_min tm.tm_sec

-- `cl_time_date2sec1` gives back the time that `cl_time_sec2date1` has written, for a time from 1970 to 2099
-- that is not daylight saving time, on a `strftime` that writes the text of the time, and a `mktime` that
-- undoes `localtime` at it.
pub cl_time_date2sec1-cl_time_sec2date1 :
    (mktime : Tm → Option ℕ) (localtime : ℕ → Tm)
    (strftime : (max : ℕ) → (format : Bytes) → Tm → Bytes) (sec : ℕ)
    → ((tm : Tm) → TmInRange tm → strftime 20 (codes "%F %T") tm ≡ text_of tm)
    → mktime (localtime sec) ≡ some sec
    → TmInRange (localtime sec)
    → (localtime sec).tm_isdst ≡ false
    → cl_time_date2sec1 mktime (cl_time_sec2date1 localtime strftime sec) ≡ some sec
unfolding cl_time_sec2date1
cl_time_date2sec1-cl_time_sec2date1 mktime localtime strftime sec writes undoes h winter =
    let tm = localtime sec in
    let year : tm.tm_year + 1900 - 1900 ≡ tm.tm_year = omega arith in
    let month : tm.tm_mon + 1 - 1 ≡ tm.tm_mon = omega arith in
    rw (writes tm h)
      (cl_time_date2sec1-date_text mktime _ _ _ _ _ _ h ∙ rw (year, month, sym winter) undoes)
