-- ===== src/Ini/Loop.antt =====
-- The loops of `cl_ini_get` and `cl_ini_get2` over the lines of their input.
use libccll.Base.{
  leb, ◌&&◌, Option, none, ℕ, suc, ◌+◌, ◌≤◌, ◌≡◌, refl, ap, Bool, true, false, Option, none, some,
  List, [], ◌∷◌, ◌++◌, ◌==◌, if◌then◌else◌, arith, Bytes, length, drop,
}
use libccll.Txt.{Line}
use libccll.Txt.Lines.{IsLine, chomp, pos_line-line}
use libccll.Ini.{
  next_line, get_value, get_cut, cut_newline, fgets, file_loop, text_loop, cl_ini_get, cl_ini_get2,
}

-- `ls` are the lines of `txt`, each of at most 255 bytes, as the buffer `line` holds: behind every newline
-- one begins, and a carriage return before a newline is no part of its line.
pub data HasLines : Bytes → List Bytes → Type 0 where
  last : {txt : Bytes} → IsLine txt → length txt ≤ 255 → HasLines txt (txt ∷ [])
  line :
      {txt : Bytes} {ls : List Bytes} (a rest : Bytes)
      → txt ≡ a ++ b'\n' ∷ rest
      → IsLine a
      → length a ≤ 255
      → HasLines rest ls
      → HasLines txt (chomp a ∷ ls)

-- The search through a list of lines, with no reference to offsets: an empty line ends it without a value,
-- a line that gives neither a value nor an error is passed over.
unfoldable pub find_in : List Bytes → (sec : Option Bytes) → (current key : Bytes) → Option Bytes
find_in [] sec current key = none
find_in ([] ∷ ls) sec current key = none
find_in ((c ∷ l) ∷ ls) sec current key =
    next_line (get_value (c ∷ l) sec current key) (λ current. find_in ls sec current key)

-- `strlen` from 1 to 64
abbrev pub is_short : Bytes → Bool
is_short s = leb 1 (length s) && leb (length s) 64

abbrev pub are_short : (sec : Option Bytes) → (key : Bytes) → Bool
are_short none key = is_short key
are_short (some sec) key = is_short key && is_short sec

if_same : (t : Bool) (r : Option Bytes) → (if t then r else r) ≡ r
if_same true r = refl
if_same false r = refl

module _ (sec : Option Bytes) (key : Bytes) where
  -- one round of the loop, when `pos_line` has returned `l`
  text_round : ℕ → Bytes → Bytes → Line → Option Bytes
  text_round fuel txt current l = next_line (get_value l.text sec current key) λ current.
      elim (l.ret == 0) [ true ↦ none | false ↦ text_loop fuel (drop l.ret txt) sec current key ]

  text_blank :
      (fuel : ℕ) (rest current : Bytes) → text_loop (suc fuel) (b'\n' ∷ rest) sec current key ≡ none
  unfolding text_loop text_round get_value next_line
  text_blank fuel rest current =
      ap (text_round fuel (b'\n' ∷ rest) current) (pos_line-line [] rest tt)

  file_blank :
      (fuel : ℕ) (rest current : Bytes)
      → file_loop (suc fuel) (b'\n' ∷ rest) sec current key ≡ file_loop fuel rest sec current key
  unfolding file_loop fgets get_value cut_newline get_cut next_line
  file_blank fuel rest current = refl

  -- In a text a blank line ends the search, in a file it is passed over.
  blank_line :
      (rest : Bytes)
      → (cl_ini_get2 (b'\n' ∷ rest) sec key ≡ none)
        × (cl_ini_get (some (b'\n' ∷ rest)) sec key ≡ cl_ini_get (some rest) sec key)
  unfolding cl_ini_get cl_ini_get2
  blank_line rest =
      let e : suc (length rest) + 1 ≡ suc (length rest + 1) = omega arith in
      (rw (e, text_blank) (rw (if_same, if_same)), rw (e, file_blank))
