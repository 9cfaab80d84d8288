-- ===== src/Txt/Trim.antt =====
-- comm/txt.c: `cl_txt_trim` and the white space at both ends.
use libccll.Base.{
  ℕ, zero, suc, ◌<◌, ◌≤◌, ◌≡◌, refl, sym, ap, ◌∙◌, true, false, inl, inr, [], ◌∷◌, ◌++◌, arith,
  Bytes, length, take, drop, get_or, Bool-cases,
}
use libccll.Txt.{is_space, skip_spaces, trim_end, cl_txt_trim}

abbrev pub AllSpace : Bytes → Type 0
AllSpace [] = Unit
AllSpace (c ∷ s) = (is_space c ≡ true) × AllSpace s

-- The first and the last byte are no white space.
abbrev pub BeginsBlack : Bytes → Type 0
BeginsBlack [] = Unit
BeginsBlack (c ∷ s) = is_space c ≡ false

abbrev pub EndsBlack : Bytes → Type 0
EndsBlack [] = Unit
EndsBlack (c ∷ []) = is_space c ≡ false
EndsBlack (c ∷ d ∷ s) = EndsBlack (d ∷ s)

-- `t` is `s` less white space before and behind it.
pub record IsTrimmed (s t : Bytes) : Type 0 where
  pub before : Bytes
  pub behind : Bytes
  pub splits : s ≡ before ++ (t ++ behind)
  pub before_space : AllSpace before
  pub behind_space : AllSpace behind
  pub begins : BeginsBlack t
  pub ends : EndsBlack t

-- the head of the string
record Skipped (s t : Bytes) : Type 0 where
  before : Bytes
  splits : s ≡ before ++ t
  space : AllSpace before
  begins : BeginsBlack t

skip_spaces-Skipped : (s : Bytes) → Skipped s (skip_spaces s)
unfolding skip_spaces
skip_spaces-Skipped [] = record { before = []; splits = refl; space = tt; begins = tt }
skip_spaces-Skipped (c ∷ s) = elim (Bool-cases (is_space c)) [
  | inl white ↦
      let r = skip_spaces-Skipped s in
      rw white (record {
        before = c ∷ r.before;
        splits = ap (◌∷◌ c) r.splits;
        space = (white, r.space);
        begins = r.begins;
      })
  | inr black ↦ rw black (record { before = []; splits = refl; space = tt; begins = black })
]

take-append-drop : (n : ℕ) (s : Bytes) → take n s ++ drop n s ≡ s
take-append-drop zero s = refl
take-append-drop (suc n) [] = refl
take-append-drop (suc n) (c ∷ s) = ap (◌∷◌ c) (take-append-drop n s)

drop-get_or : (n : ℕ) (s : Bytes) → n < length s → drop n s ≡ get_or s n 0 ∷ drop (suc n) s
drop-get_or n [] h = elim h [ ]
drop-get_or zero (c ∷ s) h = refl
drop-get_or (suc n) (c ∷ s) h = drop-get_or n s (omega arith)

drop-length : (s : Bytes) → drop (length s) s ≡ []
drop-length [] = refl
drop-length (c ∷ s) = drop-length s

BeginsBlack-take : (n : ℕ) (s : Bytes) → BeginsBlack s → BeginsBlack (take n s)
BeginsBlack-take zero s h = tt
BeginsBlack-take (suc n) [] h = tt
BeginsBlack-take (suc n) (c ∷ s) h = h

EndsBlack-take :
    (n : ℕ) (s : Bytes)
    → n < length s
    → is_space (get_or s n 0) ≡ false
    → EndsBlack (take (suc n) s)
EndsBlack-take n [] lt h = elim lt [ ]
EndsBlack-take zero (c ∷ s) lt h = h
EndsBlack-take (suc n) (c ∷ []) lt h = absurd (omega arith)
EndsBlack-take (suc n) (c ∷ d ∷ s) lt h = EndsBlack-take n (d ∷ s) (omega arith) h

-- the loop from the end: what is cut off is white, and what stays ends in black
trim_end_lem :
    (n : ℕ) (s : Bytes)
    → n ≤ length s
    → AllSpace (drop n s)
    → AllSpace (drop (trim_end n s) s) × EndsBlack (take (trim_end n s) s)
unfolding trim_end
trim_end_lem zero s le space = (space, tt)
trim_end_lem (suc n) s le space = elim (Bool-cases (is_space (get_or s n 0))) [
  | inl white ↦ rw white (trim_end_lem n s (omega arith) (rw (drop-get_or n s le) (white, space)))
  | inr black ↦ rw black (space, EndsBlack-take n s le black)
]

-- For every string, `cl_txt_trim` returns the string less the white space at both ends: only white
-- space is taken off, and what is left neither begins nor ends with white space.
pub trim-IsTrimmed : (s : Bytes) → IsTrimmed s (cl_txt_trim s)
unfolding cl_txt_trim
trim-IsTrimmed s =
    let t : Bytes = skip_spaces s in
    let k = skip_spaces-Skipped s in
    let n : ℕ = trim_end (length t) t in
    let (space, ends) = trim_end_lem (length t) t (omega arith) (rw drop-length tt) in
    record {
      before = k.before;
      behind = drop n t;
      splits = k.splits ∙ ap (◌++◌ k.before) (sym (take-append-drop n t));
      before_space = k.space;
      behind_space = space;
      begins = BeginsBlack-take n t k.begins;
      ends = ends;
    }
