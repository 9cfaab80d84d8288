-- ===== src/Ini/Buffers.antt =====
-- cfg/ini.c: the two fixed buffers, `line` and `_sec`, that a search writes.
use libccll.Base.{
  ℕ, zero, suc, ◌+◌, ◌-◌, ◌<◌, ◌≤◌, ◌≡◌, refl, ap, ◌∙◌, Bool, true, false, ◌&&◌, inl, inr, Option,
  [], ◌∷◌, ◌++◌, leb, ◌==◌, if◌then◌else◌, arith, Bytes, length, drop, get_or, length-append,
  Bool-cases,
}
use libccll.Txt.{Line, pos_line}
use libccll.Txt.Lines.{IsLine, chomp, drop-append, pos_line-line, pos_line-last}
use libccll.Ini.{
  FindRet, fr_found, fr_none, fr_fail, get_value, cut_newline, fgets, max_klen, max_line_byte,
}

-- how many bytes of `_sec` a line writes: the name that `memcpy` copies, and the terminator
unfoldable pub sec_written : Bytes → ℕ
sec_written line =
    let cut = cut_newline line in
    if get_or cut 0 0 == b'[' && get_or cut (length cut - 1) 0 == b']'
    then length cut - 2 + 1
    else 0

-- the round behind a line, if there is one
unfoldable pub next_fits : FindRet → (Bytes → Bool) → Bool
next_fits (fr_found value) go_on = true
next_fits (fr_none current) go_on = go_on current
next_fits fr_fail go_on = true

-- Whether the loop of `cl_ini_get` comes to its end with every write inside the two buffers; `fgets`
-- writes the line and a terminator. The terminators that `_get_value` puts into the line lie inside what
-- was read.
unfoldable pub file_fits : ℕ → Bytes → (sec : Option Bytes) → (current key : Bytes) → Bool
file_fits zero file sec current key = false
file_fits (suc fuel) [] sec current key = true
file_fits (suc fuel) (c ∷ file) sec current key =
    let (line, rest) = fgets (max_line_byte - 1) (c ∷ file) in
    leb (length line + 1) max_line_byte
    && leb (sec_written line) max_klen
    && next_fits (get_value line sec current key) (λ current. file_fits fuel rest sec current key)

-- The same of `cl_ini_get2`.
unfoldable pub text_fits : ℕ → Bytes → (sec : Option Bytes) → (current key : Bytes) → Bool
text_fits zero txt sec current key = false
text_fits (suc fuel) txt sec current key =
    let l = pos_line txt in
    leb l.written max_line_byte
    && leb (sec_written l.text) max_klen
    && next_fits (get_value l.text sec current key) λ current. elim (l.ret == 0) [
      | true ↦ true
      | false ↦ text_fits fuel (drop l.ret txt) sec current key
    ]

-- No line has more than 65 bytes: a section's name of 63 bytes in its brackets.
pub data ShortLines : Bytes → Type 0 where
  last_line : {txt : Bytes} → IsLine txt → length txt ≤ 65 → ShortLines txt
  first_line :
      {txt : Bytes} (a rest : Bytes)
      → txt ≡ a ++ b'\n' ∷ rest
      → IsLine a
      → length a ≤ 65
      → ShortLines rest
      → ShortLines txt

next_fits_all : (v : FindRet) (f : Bytes → Bool) → ((c : Bytes) → f c ≡ true) → next_fits v f ≡ true
unfolding next_fits
next_fits_all (fr_found value) f h = refl
next_fits_all (fr_none current) f h = h current
next_fits_all fr_fail f h = refl

length-chomp : (s : Bytes) → length (chomp s) ≤ length s
length-chomp [] = omega arith
length-chomp (c ∷ []) = ground arith
length-chomp (c ∷ d ∷ s) = omega (arith, length-chomp (d ∷ s))

length-cut_newline : (s : Bytes) → length (cut_newline s) ≤ length s
unfolding cut_newline
length-cut_newline [] = omega arith
length-cut_newline (c ∷ s) = let h = length-cut_newline s in ground arith

if_at_most : (t : Bool) (m n : ℕ) → m ≤ n → (if t then m else 0) ≤ n
if_at_most true m n h = h
if_at_most false m n h = omega arith

-- A line of 65 bytes fits, whatever it is.
sec_written-short : (s : Bytes) → length (cut_newline s) ≤ 65 → leb (sec_written s) 64 ≡ true
unfolding sec_written
sec_written-short s h =
    let cut = cut_newline s in
    let fits =
      if_at_most (get_or cut 0 0 == b'[' && get_or cut (length cut - 1) 0 == b']')
        (length cut - 2 + 1) 64 (omega arith) in
    ground arith

cut_newline-line : (a rest : Bytes) → IsLine a → cut_newline (a ++ b'\n' ∷ rest) ≡ a
unfolding cut_newline
cut_newline-line [] rest h = refl
cut_newline-line (c ∷ a) rest h = rw h.0 (ap (◌∷◌ c) (cut_newline-line a rest h.1))

-- a line and its newline, where the buffer has room for them
fgets-line :
    (n : ℕ) (a rest : Bytes)
    → IsLine a
    → length a < n
    → fgets n (a ++ b'\n' ∷ rest) ≡ (a ++ b'\n' ∷ [], rest)
unfolding fgets
fgets-line zero a rest h room = absurd (omega arith)
fgets-line (suc n) [] rest h room = refl
fgets-line (suc n) (c ∷ a) rest h room = rw (h.0, fgets-line n a rest h.1 (omega arith)) refl

-- the last line, which has no newline
fgets-last : (n : ℕ) (a : Bytes) → IsLine a → length a ≤ n → fgets n a ≡ (a, [])
unfolding fgets
fgets-last zero [] h room = refl
fgets-last zero (c ∷ a) h room = absurd (omega arith)
fgets-last (suc n) [] h room = refl
fgets-last (suc n) (c ∷ a) h room = rw (h.0, fgets-last n a h.1 (omega arith)) refl

stops : (n : ℕ) → (n == n) ≡ false → ⊥
stops n h = ground arith

module _ (sec : Option Bytes) (key : Bytes) where
  -- one round of each loop, on what has been read
  file_part : ℕ → Bytes → Bytes × Bytes → Bool
  file_part fuel current (line, rest) =
      leb (length line + 1) max_line_byte
      && leb (sec_written line) max_klen
      && next_fits (get_value line sec current key) (λ current. file_fits fuel rest sec current key)

  text_part : ℕ → Bytes → Bytes → Line → Bool
  text_part fuel txt current l =
      leb l.written max_line_byte
      && leb (sec_written l.text) max_klen
      && next_fits (get_value l.text sec current key) λ current. elim (l.ret == 0) [
        | true ↦ true
        | false ↦ text_fits fuel (drop l.ret txt) sec current key
      ]

  file_part-short :
      (fuel : ℕ) (line rest current : Bytes)
      → length line ≤ 66
      → length (cut_newline line) ≤ 65
      → ((c : Bytes) → file_fits fuel rest sec c key ≡ true)
      → file_part fuel current (line, rest) ≡ true
  unfolding file_part
  file_part-short fuel line rest current long cut h =
      let room : leb (length line + 1) 256 ≡ true = ground arith in
      rw (room, sec_written-short line cut) (next_fits_all (get_value line sec current key) _ h)

  file_fits-cons :
      (fuel : ℕ) (c : ℕ) (file current : Bytes)
      → file_fits (suc fuel) (c ∷ file) sec current key
        ≡ file_part fuel current (fgets 255 (c ∷ file))
  unfolding file_fits file_part
  file_fits-cons fuel c file current = refl

  file_fits-part :
      (fuel : ℕ) (file line rest current : Bytes)
      → fgets 255 file ≡ (line, rest)
      → file_part fuel current (line, rest) ≡ true
      → file_fits (suc fuel) file sec current key ≡ true
  file_fits-part fuel [] line rest current e h = unfold file_fits in refl
  file_fits-part fuel (c ∷ file) line rest current e h =
      file_fits-cons fuel c file current ∙ ap (file_part fuel current) e ∙ h

  file_fits-empty : (fuel : ℕ) (current : Bytes) → file_fits (suc fuel) [] sec current key ≡ true
  unfolding file_fits
  file_fits-empty fuel current = refl

  file_fits-last :
      (fuel : ℕ) (file current : Bytes)
      → length file < fuel
      → IsLine file
      → length file ≤ 65
      → file_fits fuel file sec current key ≡ true
  file_fits-last zero file current enough one short = absurd (omega arith)
  file_fits-last (suc fuel) [] current enough one short = file_fits-empty fuel current
  file_fits-last (suc zero) (c ∷ file) current enough one short = absurd (omega arith)
  file_fits-last (suc (suc fuel)) (c ∷ file) current enough one short =
      file_fits-part (suc fuel) (c ∷ file) (c ∷ file) [] current
        (fgets-last 255 (c ∷ file) one (omega arith))
        (file_part-short (suc fuel) (c ∷ file) [] current (omega arith)
          (omega (arith, length-cut_newline (c ∷ file))) (file_fits-empty fuel))

  file_fits-short :
      (fuel : ℕ) {file : Bytes} (current : Bytes)
      → length file < fuel
      → ShortLines file
      → file_fits fuel file sec current key ≡ true
  file_fits-short zero current enough h = absurd (omega arith)
  file_fits-short (suc fuel) {file} current enough (last_line one short) =
      file_fits-last (suc fuel) file current enough one short
  file_fits-short (suc fuel) {file} current enough (first_line a rest e one short later) =
      let n : length (a ++ b'\n' ∷ []) ≡ length a + 1 = length-append a (b'\n' ∷ []) in
      let shorter : length rest < fuel =
        omega (arith, ap length e, length-append a (b'\n' ∷ rest)) in
      file_fits-part fuel file (a ++ b'\n' ∷ []) rest current
        (ap (fgets 255) e ∙ fgets-line 255 a rest one (omega arith))
        (file_part-short fuel (a ++ b'\n' ∷ []) rest current (omega (arith, n))
          (omega (arith, ap length (cut_newline-line a [] one)))
          (λ c. file_fits-short fuel c shorter later))

  text_part-short :
      (fuel : ℕ) (txt current : Bytes) (l : Line)
      → l.written ≤ 66
      → length l.text ≤ 65
      → ((c : Bytes) → (l.ret == 0) ≡ false → text_fits fuel (drop l.ret txt) sec c key ≡ true)
      → text_part fuel txt current l ≡ true
  unfolding text_part
  text_part-short fuel txt current l long short h =
      let room : leb l.written 256 ≡ true = ground arith in
      let name : leb (sec_written l.text) 64 ≡ true =
        sec_written-short l.text (omega (arith, length-cut_newline l.text)) in
      rw (room, name)
        (next_fits_all (get_value l.text sec current key) _
          (λ c. elim (Bool-cases (l.ret == 0)) [ inl e ↦ rw e refl | inr e ↦ rw e (h c e) ]))

  text_fits-short :
      (fuel : ℕ) {txt : Bytes} (current : Bytes)
      → length txt < fuel
      → ShortLines txt
      → text_fits fuel txt sec current key ≡ true
  unfolding text_fits text_part
  text_fits-short zero current enough h = absurd (omega arith)
  text_fits-short (suc fuel) {txt} current enough (last_line one short) =
      ap (text_part fuel txt current) (pos_line-last txt one)
      ∙ text_part-short fuel txt current (record { text = txt; written = length txt + 1; ret = 0 })
          (omega arith) short (λ c more. absurd (stops 0 more))
  text_fits-short (suc fuel) {txt} current enough (first_line a rest e one short later) =
      let shorter : length rest < fuel =
        omega (arith, ap length e, length-append a (b'\n' ∷ rest)) in
      let step : length a + 1 ≡ suc (length a) = omega arith in
      ap (text_part fuel txt current) (ap pos_line e ∙ pos_line-line a rest one)
      ∙ text_part-short fuel txt current _ (omega arith) (omega (arith, length-chomp a))
          (λ c more. rw (e, step) (rw drop-append (text_fits-short fuel c shorter later)))

  -- Where no line has more than 65 bytes, both loops come to their end, in at most one round more
  -- than there are bytes, and every write is inside `line` and `_sec`.
  pub fits-short :
      {txt : Bytes}
      → ShortLines txt
      → (file_fits (length txt + 1) txt sec [] key ≡ true)
        × (text_fits (length txt + 1) txt sec [] key ≡ true)
  fits-short {txt} h = (
    file_fits-short (length txt + 1) [] (omega arith) h,
    text_fits-short (length txt + 1) [] (omega arith) h,
  )
