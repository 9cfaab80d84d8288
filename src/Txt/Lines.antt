-- ===== src/Txt/Lines.antt =====
-- comm/txt.c: `cl_txt_pos_line` on a text with a first line.
use libccll.Base.{
  ℕ, suc, ◌+◌, ◌-◌, ◌<◌, ◌≤◌, ◌≡◌, refl, ap, ◌∙◌, true, false, some, [], ◌∷◌, ◌++◌, ltb, ◌==◌,
  if◌then◌else◌, arith, Bytes, length, take, drop,
}
use libccll.Txt.{Line, find_newline, strip_cr, pos_line, cl_txt_pos_line}

-- No byte is a newline.
abbrev pub IsLine : Bytes → Type 0
IsLine [] = Unit
IsLine (c ∷ s) = ((c == b'\n') ≡ false) × IsLine s

-- a line less one carriage return at its end
abbrev pub chomp : Bytes → Bytes
chomp [] = []
chomp (c ∷ []) = if c == b'\r' then [] else c ∷ []
chomp (c ∷ d ∷ s) = c ∷ chomp (d ∷ s)

find_newline-line :
    (a rest : Bytes) (off : ℕ)
    → IsLine a
    → find_newline (a ++ b'\n' ∷ rest) off ≡ (off + length a, true)
unfolding find_newline
find_newline-line [] rest off h = let e : off ≡ off + 0 = omega arith in ap (λ (n : ℕ). (n, true)) e
find_newline-line (c ∷ a) rest off h =
    rw h.0 (find_newline-line a rest (off + 1) h.1 ∙ ap (λ (n : ℕ). (n, true)) (omega arith))

find_newline-last : (a : Bytes) (off : ℕ) → IsLine a → find_newline a off ≡ (off + length a, false)
unfolding find_newline
find_newline-last [] off h = ap (λ (n : ℕ). (n, false)) (omega arith)
find_newline-last (c ∷ a) off h =
    rw h.0 (find_newline-last a (off + 1) h.1 ∙ ap (λ (n : ℕ). (n, false)) (omega arith))

pub take-append : (a rest : Bytes) → take (length a) (a ++ rest) ≡ a
take-append [] rest = refl
take-append (c ∷ a) rest = ap (◌∷◌ c) (take-append a rest)

pub drop-append : (a : Bytes) (c : ℕ) (rest : Bytes) → drop (suc (length a)) (a ++ c ∷ rest) ≡ rest
drop-append [] c rest = refl
drop-append (d ∷ a) c rest = drop-append a c rest

take-length : (a : Bytes) → take (length a) a ≡ a
take-length [] = refl
take-length (c ∷ a) = ap (◌∷◌ c) (take-length a)

strip_cr-cons :
    (c d : ℕ) (s : Bytes)
    → strip_cr (suc (suc (length s))) (c ∷ d ∷ s) ≡ c ∷ strip_cr (suc (length s)) (d ∷ s)
unfolding strip_cr
strip_cr-cons c d s =
    let e : suc (suc (length s)) - 1 ≡ suc (length s) = omega arith in
    let f : suc (length s) - 1 ≡ length s = omega arith in
    let p : ltb 0 (suc (suc (length s))) ≡ true = ground arith in
    let q : ltb 0 (suc (length s)) ≡ true = ground arith in rw (e, f, p, q) (ground arith)

strip_cr-chomp : (a : Bytes) → strip_cr (length a) a ≡ chomp a
strip_cr-chomp [] = unfold strip_cr in refl
strip_cr-chomp (c ∷ []) = unfold strip_cr in refl
strip_cr-chomp (c ∷ d ∷ s) = strip_cr-cons c d s ∙ ap (◌∷◌ c) (strip_cr-chomp (d ∷ s))

pub pos_line-line :
    (a rest : Bytes)
    → IsLine a
    → pos_line (a ++ b'\n' ∷ rest)
      ≡ record { text = chomp a; written = length a + 1; ret = length a + 1 }
unfolding pos_line
pos_line-line a rest h =
    let zero_add : 0 + length a ≡ length a = omega arith in
    rw (find_newline-line a rest 0 h, zero_add) (rw (take-append, strip_cr-chomp))

pub pos_line-last :
    (a : Bytes) → IsLine a → pos_line a ≡ record { text = a; written = length a + 1; ret = 0 }
unfolding pos_line
pos_line-last a h =
    let zero_add : 0 + length a ≡ length a = omega arith in
    rw (find_newline-last a 0 h, zero_add) (rw take-length)

module _ (max : ℕ) (a rest : Bytes) (room : 1 ≤ max) (h : IsLine a) where
  -- On a text whose first line is `a`, `cl_txt_pos_line` delivers `a` less one carriage return at
  -- its end, and returns the offset of the byte behind the newline.
  cl_txt_pos_line-line :
      cl_txt_pos_line true max (some (a ++ b'\n' ∷ rest))
      ≡ some (record { text = chomp a; written = length a + 1; ret = length a + 1 })
  unfolding cl_txt_pos_line
  cl_txt_pos_line-line =
      let t : ltb max 1 ≡ false = ground arith in rw t (ap some (pos_line-line a rest h))

  -- A line of `max` bytes or more is written beyond the `max` bytes of the buffer.
  cl_txt_pos_line_overflow :
      max ≤ length a
      → (l : Line) × (cl_txt_pos_line true max (some (a ++ b'\n' ∷ rest)) ≡ some l)
        × (max < l.written)
  cl_txt_pos_line_overflow long = (_, cl_txt_pos_line-line, omega arith)
