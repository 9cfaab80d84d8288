-- ===== src/Ini/Entry.antt =====
-- A line with a key and a value, whatever blanks stand round them.
use libccll.Base.{
  append_assoc, ℕ, zero, suc, ◌+◌, ◌-◌, ◌<◌, ◌≤◌, ◌≡◌, refl, sym, ap, ◌∙◌, true, false, Option,
  none, some, [], ◌∷◌, ◌++◌, ltb, ◌==◌, arith, Bytes, length, get_or, length-append,
}
use libccll.Txt.Lines.{IsLine, take-append}
use libccll.Ini.{
  fr_found, fr_none, str_eq, is_blank, skip_blanks, cut_blanks, trim_blanks, split_eq, get_entry,
  get_value, get_cut, get_line, get_section, is_elsewhere, cut_newline, fr_fail,
}

abbrev pub AllBlank : Bytes → Type 0
AllBlank [] = Unit
AllBlank (c ∷ s) = (is_blank c ≡ true) × AllBlank s

-- A word begins and ends with a byte that is no blank: `t` stands before its last byte.
abbrev pub BeginsInk : Bytes → Type 0
BeginsInk [] = ⊥
BeginsInk (c ∷ s) = is_blank c ≡ false

pub record IsWord (t : Bytes) (c : ℕ) : Type 0 where
  pub begins : BeginsInk (t ++ c ∷ [])
  pub ends : is_blank c ≡ false

skip_blanks-append : (a s : Bytes) → AllBlank a → BeginsInk s → skip_blanks (a ++ s) ≡ s
unfolding skip_blanks
skip_blanks-append [] [] h b = absurd b
skip_blanks-append [] (c ∷ s) h b = rw b
skip_blanks-append (d ∷ a) s h b = rw h.0 (skip_blanks-append a s h.1 b)

get_or-append : (t : Bytes) (s : Bytes) (k : ℕ) → get_or (t ++ s) (length t + k) 0 ≡ get_or s k 0
get_or-append [] s k = ap (λ (n : ℕ). get_or s n 0) (omega arith)
get_or-append (c ∷ t) s k =
    let e : suc (length t) + k ≡ suc (length t + k) = omega arith in rw e (get_or-append t s k)

get_or-AllBlank : (d : Bytes) (k : ℕ) → k < length d → AllBlank d → is_blank (get_or d k 0) ≡ true
get_or-AllBlank [] k lt h = elim lt [ ]
get_or-AllBlank (c ∷ d) zero lt h = h.0
get_or-AllBlank (c ∷ d) (suc k) lt h = get_or-AllBlank d k (omega arith) h.1

cut_one : (n : ℕ) (s : Bytes) → is_blank (get_or s n 0) ≡ false → cut_blanks (suc n) s ≡ suc n
unfolding cut_blanks
cut_one zero s h = refl
cut_one (suc n) s h = rw h

cut_more :
    (n : ℕ) (s : Bytes)
    → is_blank (get_or s (suc n) 0) ≡ true
    → cut_blanks (suc (suc n)) s ≡ cut_blanks (suc n) s
unfolding cut_blanks
cut_more n s h = rw h

-- From the end the loop passes the blanks behind a word and stops at the word's last byte.
cut_blanks-append :
    (k : ℕ) (t : Bytes) (c : ℕ) (d : Bytes)
    → k ≤ length d
    → AllBlank d
    → is_blank c ≡ false
    → cut_blanks (suc (length t + k)) (t ++ c ∷ d) ≡ suc (length t)
cut_blanks-append zero t c d le h ink =
    let e : length t + 0 ≡ length t = omega arith in
    let at : get_or (t ++ c ∷ d) (length t) 0 ≡ c =
      ap (λ (n : ℕ). get_or (t ++ c ∷ d) n 0) (sym e) ∙ get_or-append t (c ∷ d) 0 in
    rw e (cut_one (length t) (t ++ c ∷ d) (rw at ink))
cut_blanks-append (suc k) t c d le h ink =
    let e : length t + suc k ≡ suc (length t + k) = omega arith in
    let at : get_or (t ++ c ∷ d) (suc (length t + k)) 0 ≡ get_or d k 0 =
      ap (λ (n : ℕ). get_or (t ++ c ∷ d) n 0) (sym e) ∙ get_or-append t (c ∷ d) (suc k) in
    rw e (
      cut_more (length t + k) (t ++ c ∷ d) (rw at (get_or-AllBlank d k le h))
      ∙ cut_blanks-append k t c d (omega arith) h ink)

begins_more : (t d : Bytes) (c : ℕ) → BeginsInk (t ++ c ∷ []) → BeginsInk (t ++ c ∷ d)
begins_more [] d c h = h
begins_more (x ∷ t) d c h = h

-- The blanks round a word are taken off, and no more.
pub trim_blanks-word :
    (a t d : Bytes) (c : ℕ)
    → AllBlank a
    → AllBlank d
    → IsWord t c
    → trim_blanks (a ++ (t ++ c ∷ d)) ≡ t ++ c ∷ []
unfolding trim_blanks
trim_blanks-word a t d c ha hd w =
    let n : length (t ++ c ∷ d) ≡ suc (length t + length d) =
      length-append t (c ∷ d) ∙ omega arith in
    let whole : t ++ c ∷ d ≡ (t ++ c ∷ []) ++ d = sym (append_assoc t (c ∷ []) d) in
    let m : suc (length t) ≡ length (t ++ c ∷ []) = omega (arith, length-append t (c ∷ [])) in
    rw
      (
        skip_blanks-append a (t ++ c ∷ d) ha (begins_more t d c w.begins),
        n,
        cut_blanks-append (length d) t c d (omega arith) hd w.ends,
      )
      (rw (m, whole) (take-append (t ++ c ∷ []) d))

-- No byte is the delimiter.
abbrev pub NoDelimiter : Bytes → Type 0
NoDelimiter [] = Unit
NoDelimiter (c ∷ s) = ((c == b'=') ≡ false) × NoDelimiter s

split_eq-append : (k v : Bytes) → NoDelimiter k → split_eq (k ++ b'=' ∷ v) ≡ some (k, v)
unfolding split_eq
split_eq-append [] v h = refl
split_eq-append (c ∷ k) v h = rw (h.0, split_eq-append k v h.1)

pub str_eq_refl : (s : Bytes) → str_eq s s ≡ true
unfolding str_eq
str_eq_refl [] = refl
str_eq_refl (c ∷ s) = let e : (c == c) ≡ true = ground arith in rw (e, str_eq_refl s)

-- The first byte begins neither a comment nor a section.
abbrev pub IsPlain : Bytes → Type 0
IsPlain [] = ⊥
IsPlain (c ∷ s) = ((c == b';') ≡ false) × ((c == b'#') ≡ false) × ((c == b'[') ≡ false)

cut_newline-IsLine : (s : Bytes) → IsLine s → cut_newline s ≡ s
unfolding cut_newline
cut_newline-IsLine [] h = refl
cut_newline-IsLine (c ∷ s) h = rw (h.0, cut_newline-IsLine s h.1)

get_value_plain :
    (line : Bytes) (sec : Option Bytes) (current key : Bytes)
    → IsLine line
    → IsPlain line
    → is_elsewhere sec current ≡ false
    → get_value line sec current key ≡ get_entry line current key
unfolding get_value get_cut get_line
get_value_plain [] sec current key h p here = absurd p
get_value_plain (c ∷ line) sec current key h p here =
    let some_byte : ltb (suc (length line)) 1 ≡ false = ground arith in
    rw (some_byte, cut_newline-IsLine (c ∷ line) h) (rw (p.0, p.1, p.2, here))

module _ (a t d b v f : Bytes) (c e : ℕ)
    (blanks : AllBlank a × AllBlank d × AllBlank b × AllBlank f) (key : IsWord t c)
    (value : IsWord v e) (no_delimiter : NoDelimiter (a ++ (t ++ c ∷ d))) where
  -- the line: blanks, the key, blanks, `=`, blanks, the value, blanks
  abbrev pub entry_line : Bytes
  entry_line = (a ++ (t ++ c ∷ d)) ++ b'=' ∷ (b ++ (v ++ e ∷ f))

  -- In the section that is asked for, or if none is, the line of a key gives its value less the
  -- blanks round it; for a key and a value that are not empty and neither begin nor end with a blank,
  -- a key without `=`, and a line that has no newline and begins with none of `;`, `#` and `[`.
  pub get_value-entry :
      (sec : Option Bytes) (current : Bytes)
      → IsLine entry_line
      → IsPlain entry_line
      → is_elsewhere sec current ≡ false
      → get_value entry_line sec current (t ++ c ∷ []) ≡ fr_found (v ++ e ∷ [])
  unfolding get_entry
  get_value-entry sec current one_line plain here =
      get_value_plain entry_line sec current (t ++ c ∷ []) one_line plain here
      ∙ rw (
        split_eq-append (a ++ (t ++ c ∷ d)) (b ++ (v ++ e ∷ f)) no_delimiter,
        get_entry,
        trim_blanks-word a t d c blanks.0 blanks.1 key,
        str_eq_refl (t ++ c ∷ []),
        trim_blanks-word b v f e blanks.2 blanks.3 value,
      )

IsLine-append : (s : Bytes) → IsLine s → IsLine (s ++ b']' ∷ [])
IsLine-append [] h = (refl, tt)
IsLine-append (c ∷ s) h = (h.0, IsLine-append s h.1)

-- A line in brackets names the current section from there on, if a section is asked for; if none
-- is, it ends the search.
get_value-section :
    (name : Bytes) (sec current key : Bytes)
    → IsLine name
    → (get_value (b'[' ∷ (name ++ b']' ∷ [])) (some sec) current key ≡ fr_none name)
      × (get_value (b'[' ∷ (name ++ b']' ∷ [])) none current key ≡ fr_fail)
unfolding get_value get_cut get_line get_section
get_value-section name sec current key h =
    let line : Bytes = name ++ b']' ∷ [] in
    let n : length line ≡ suc (length name) = length-append name (b']' ∷ []) ∙ omega arith in
    let cut : cut_newline (b'[' ∷ line) ≡ b'[' ∷ line =
      cut_newline-IsLine (b'[' ∷ line) (refl, IsLine-append name h) in
    let some_byte : ltb (suc (length line)) 1 ≡ false = ground arith in
    let last_at : suc (length line) - 1 ≡ suc (length name + 0) = omega arith in
    let last : get_or line (length name + 0) 0 ≡ b']' = get_or-append name (b']' ∷ []) 0 in
    let inner : suc (length line) - 2 ≡ length name = omega arith in
    (
      rw (some_byte, cut) (rw (last_at, last, inner) (ap fr_none (take-append name (b']' ∷ [])))),
      rw (some_byte, cut) (rw (last_at, last)),
    )
