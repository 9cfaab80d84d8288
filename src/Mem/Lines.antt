-- ===== src/Mem/Lines.antt =====
-- sys/mem.c: files of short lines, and how the loop reads one of them.
use libccll.Base.{
  ℕ, zero, suc, ◌+◌, ◌≤◌, ◌<◌, Option, none, some, List, [], ◌∷◌, ◌++◌, ◌≡◌, refl, ap, arith, ◌==◌,
  if◌then◌else◌, Bytes, length, length-append, NotIn,
}
use libccll.Ini.{fgets}
use libccll.Mem.{key_of, MemInfo, set_field, status_loop}

abbrev pub line : Bytes → Bytes
line text = text ++ b'\n' ∷ []

-- a file of lines, each short enough for the buffer
unfoldable pub file_of : List Bytes → Bytes
file_of [] = []
file_of (text ∷ texts) = text ++ b'\n' ∷ file_of texts

unfoldable pub AreLines : List Bytes → Type 0
AreLines [] = Unit
AreLines (text ∷ texts) = (length text < 255) × NotIn b'\n' text × AreLines texts

pub fgets-line :
    (n : ℕ) (text rest : Bytes)
    → length text < n
    → NotIn b'\n' text
    → fgets n (text ++ b'\n' ∷ rest) ≡ (line text, rest)
unfolding fgets
fgets-line zero text rest h out = absurd (omega (arith, h))
fgets-line (suc n) [] rest h out = refl
fgets-line (suc n) (c ∷ text) rest h out =
    ground (arith, fgets-line n text rest (omega (arith, h)) out.1, out.0)

pub length-file_of : (texts : List Bytes) → length texts ≤ length (file_of texts)
unfolding file_of
length-file_of [] = omega arith
length-file_of (text ∷ texts) =
    omega (arith, length-append text (b'\n' ∷ file_of texts), length-file_of texts)

-- the number of lines with a key
unfoldable pub found_in : List Bytes → ℕ
found_in [] = 0
found_in (text ∷ texts) = elim (key_of (line text)) [
  | none ↦ found_in texts
  | some _ ↦ suc (found_in texts)
]

-- what the loop does with a line that was read
abbrev pub after_read : (scan : Bytes → Option ℕ) → ℕ → ℕ → MemInfo → Bytes × Bytes → MemInfo
after_read scan fuel found_cnt mi (buffer, rest) =
    if found_cnt == 14 then mi else elim (key_of buffer) [
      | none ↦ status_loop scan fuel rest found_cnt mi
      | some (k, text) ↦ status_loop scan fuel rest (found_cnt + 1) (set_field k (scan text) mi)
    ]

pub status_loop-line :
    (scan : Bytes → Option ℕ) (fuel : ℕ) (text rest : Bytes) (found_cnt : ℕ) (mi : MemInfo)
    → length text < 255
    → NotIn b'\n' text
    → status_loop scan (suc fuel) (text ++ b'\n' ∷ rest) found_cnt mi
      ≡ after_read scan fuel found_cnt mi (line text, rest)
unfolding status_loop
status_loop-line scan fuel [] rest found_cnt mi h out =
    ap (after_read scan fuel found_cnt mi) (fgets-line 255 [] rest h out)
status_loop-line scan fuel (c ∷ text) rest found_cnt mi h out =
    ap (after_read scan fuel found_cnt mi) (fgets-line 255 (c ∷ text) rest h out)
