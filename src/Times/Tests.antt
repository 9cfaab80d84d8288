-- ===== src/Times/Tests.antt =====
-- The date of the header file.
use libccll.Base.{false, Bytes, ℕ, ◌+◌, ◌≡◌, refl, Option, none, some, codes, arith}
use libccll.Txt.{skip_spaces, is_space}
use libccll.Ip.{is_digit}
use libccll.Times.{
  Tm, split_at, number, to_int, signed, atoi, is_outside, get_number, get_field, get_tm,
  cl_time_date2sec1, cl_time_sec2date1,
}
use libccll.Times.Parse.{
  text_of, cl_time_date2sec1-cl_time_sec2date1, date_text, InRange, cl_time_date2sec1-date_text,
}

abbrev mktime : Tm → Option ℕ
mktime tm = some (tm.tm_mon + tm.tm_sec)

text_test : date_text 2025 11 25 21 44 19 ≡ codes "2025-11-25 21:44:19"
text_test = refl

refused : cl_time_date2sec1 mktime (codes "2025-13-25 21:44:19") ≡ none
unfolding cl_time_date2sec1 get_tm get_field get_number split_at number to_int signed atoi
    is_outside skip_spaces is_space is_digit
refused = refl

-- a year that is too large for an `int`, and no digit for the seconds
wrapped :
    get_tm (codes "4294969321-1-1 1:1:")
    ≡ some (record {
      tm_year = 125;
      tm_mon = 0;
      tm_mday = 1;
      tm_hour = 1;
      tm_min = 1;
      tm_sec = 0;
      tm_isdst = false;
    })
unfolding get_tm get_field get_number split_at number to_int signed atoi is_outside skip_spaces
    is_space is_digit
wrapped = refl

in_range : InRange 2025 11 25 21 44 19
in_range = record {
  year_from = omega arith;
  year_to = omega arith;
  month_from = omega arith;
  month_to = omega arith;
  day_from = omega arith;
  day_to = omega arith;
  hour_to = omega arith;
  minute_to = omega arith;
  second_to = omega arith;
}

cl_time_date2sec1-date_text_example :
    cl_time_date2sec1 mktime (date_text 2025 11 25 21 44 19)
    ≡ mktime (record {
      tm_year = 125;
      tm_mon = 10;
      tm_mday = 25;
      tm_hour = 21;
      tm_min = 44;
      tm_sec = 19;
      tm_isdst = false;
    })
cl_time_date2sec1-date_text_example =
    cl_time_date2sec1-date_text mktime 2025 11 25 21 44 19 in_range

-- a clock for the first minute of the date of the header file
abbrev localtime : ℕ → Tm
localtime sec = record {
  tm_year = 125;
  tm_mon = 10;
  tm_mday = 25;
  tm_hour = 21;
  tm_min = 44;
  tm_sec = sec;
  tm_isdst = false;
}

abbrev seconds : Tm → Option ℕ
seconds tm = some tm.tm_sec

abbrev strftime : (max : ℕ) → (format : Bytes) → Tm → Bytes
strftime max format tm = text_of tm

cl_time_date2sec1-cl_time_sec2date1_example :
    cl_time_date2sec1 seconds (cl_time_sec2date1 localtime strftime 19) ≡ some 19
cl_time_date2sec1-cl_time_sec2date1_example =
    cl_time_date2sec1-cl_time_sec2date1 seconds localtime strftime 19 (λ tm h. refl) refl in_range
      refl
