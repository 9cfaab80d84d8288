-- ===== src/Ip/Tests.antt =====
-- Addresses that are accepted and refused.
use libccll.Base.{◌≡◌, ◌↔◌, refl, true, false, some, List, ◌∷◌, length, codes, Bytes}
use libccll.Ip.{is_digit, chk_loop, cl_chk_ipv4}
use libccll.Ip.Dotted.{AllOctets, dotted, cl_chk_ipv4-dotted}

accepted : cl_chk_ipv4 (some (codes "192.168.0.1")) ≡ true
unfolding cl_chk_ipv4 chk_loop is_digit
accepted = refl

refused : cl_chk_ipv4 (some (codes "192.168.0.256")) ≡ false
unfolding cl_chk_ipv4 chk_loop is_digit
refused = refl

cl_chk_ipv4-dotted_example : (cl_chk_ipv4 (some (codes "192.168.0.1")) ≡ true) ↔ (
    (s : Bytes) × (ts : List Bytes) × (codes "192.168.0.1" ≡ dotted s ts)
    × AllOctets (s ∷ ts)
    × (length ts ≡ 3))
cl_chk_ipv4-dotted_example = cl_chk_ipv4-dotted (codes "192.168.0.1")
