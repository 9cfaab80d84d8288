-- ===== src/Ini/Tests.antt =====
-- The buffers, lookups as in test/main.c, and the theorems at lines of test/test1.ini's kind.
use libccll.Base.{◌≡◌, refl, true, some, none, [], arith, Bytes, codes}
use libccll.Ini.{
  fr_found, str_eq, is_blank, skip_blanks, cut_blanks, trim_blanks, split_eq, get_entry,
  is_elsewhere, get_section, get_line, get_cut, cut_newline, get_value, is_length_ok, is_request_ok,
  fgets, next_line, file_loop, cl_ini_get,
}
use libccll.Ini.Buffers.{
  sec_written, file_fits, text_fits, ShortLines, last_line, first_line, fits-short,
}
use libccll.Ini.Entry.{IsWord, get_value-entry}

abbrev file : Bytes
file = codes "; demo\nkey1 = a b \n\n[sec2]\nkey1=other\n"

-- Every name that a run of a search needs.
search_runs : cl_ini_get (some file) (some (codes "sec2")) (codes "key1") ≡ some (codes "other")
unfolding cl_ini_get file_loop next_line fgets is_request_ok is_length_ok get_value cut_newline
    get_cut get_line get_section is_elsewhere get_entry split_eq trim_blanks cut_blanks skip_blanks
    is_blank str_eq
search_runs = refl

first_runs : cl_ini_get (some file) none (codes "key1") ≡ some (codes "a b")
unfolding cl_ini_get file_loop next_line fgets is_request_ok is_length_ok get_value cut_newline
    get_cut get_line get_section is_elsewhere get_entry split_eq trim_blanks cut_blanks skip_blanks
    is_blank str_eq
first_runs = refl

abbrev text : Bytes
text = codes "a=1\r\nb=2"

word : IsWord (codes "ke") b'y'
unfolding is_blank
word = record { begins = refl; ends = refl }

number : IsWord [] b'7'
unfolding is_blank
number = record { begins = refl; ends = refl }

get_value-entry_example :
    get_value (codes " key\t= 7 ") (some (codes "s")) (codes "s") (codes "key")
    ≡ fr_found (codes "7")
unfolding is_blank is_elsewhere str_eq
get_value-entry_example =
    get_value-entry (codes " ") (codes "ke") (codes "\t") (codes " ") [] (codes " ") b'y' b'7'
      ((refl, tt), (refl, tt), (refl, tt), (refl, tt)) word number
      (refl, (refl, (refl, (refl, (refl, tt))))) (some (codes "s")) (codes "s")
      (refl, (refl, (refl, (refl, (refl, (refl, (refl, (refl, (refl, tt))))))))) (refl, refl, refl)
      refl

short_text : ShortLines (codes "[s]\nkey=7")
short_text =
    first_line (codes "[s]") (codes "key=7") refl (refl, (refl, (refl, tt))) (omega arith)
      (last_line (refl, (refl, (refl, (refl, (refl, tt))))) (omega arith))

fits-short_example :
    (file_fits 10 (codes "[s]\nkey=7") (some (codes "s")) [] (codes "key") ≡ true)
    × (text_fits 10 (codes "[s]\nkey=7") (some (codes "s")) [] (codes "key") ≡ true)
fits-short_example = fits-short (some (codes "s")) (codes "key") short_text

-- a section's line of 66 bytes, which writes one byte behind `_sec`
abbrev wide_section : Bytes
wide_section = codes "[a234567890123456789012345678901234567890123456789012345678901234]"

wide_section_overflow : sec_written wide_section ≡ 65
unfolding sec_written cut_newline
wide_section_overflow = refl
