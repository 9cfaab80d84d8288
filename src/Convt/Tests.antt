-- ===== src/Convt/Tests.antt =====
-- Two bytes, and a size in kilobytes.
use libccll.Base.{◌≡◌, refl, [], ◌∷◌, codes}
use libccll.Convt.{hex_digit, hex_loop}

hex_test : hex_loop 14 (1 ∷ (0xab ∷ [])) ≡ codes "01ab\n"
unfolding hex_loop hex_digit
hex_test = refl
