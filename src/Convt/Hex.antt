-- ===== src/Convt/Hex.antt =====
-- comm/convt.c: the text of `cl_print_bytes`, and how long it is.
use libccll.Base.{Bool, if◌then◌else◌, ◌%◌, codes, get_or, ℕ, ◌+◌, ◌/◌, ◌<◌, [], ◌∷◌, ◌==◌, Bytes}
use libccll.Convt.{hex_digit}

-- the digit of a number below 16
abbrev pub digit : ℕ → ℕ
digit n = get_or (codes "0123456789abcdef") n 0

-- the text of the bytes from number `i` on: two digits for each, and a newline behind every sixteenth
unfoldable pub hex_text : (i : ℕ) → Bytes → Bytes
hex_text i [] = []
hex_text i (c ∷ bytes) =
    let rest = hex_text (i + 1) bytes in
    digit (c / 16) ∷ digit (c % 16) ∷ (if (i + 1) % 16 == 0 then b'\n' ∷ rest else rest)

abbrev pub AllBytes : Bytes → Type 0
AllBytes [] = Unit
AllBytes (c ∷ bytes) = (c < 256) × AllBytes bytes

digit_test : ℕ → Bool
digit_test n = hex_digit n == digit n
