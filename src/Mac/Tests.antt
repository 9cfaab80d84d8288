-- ===== src/Mac/Tests.antt =====
-- Addresses that are accepted, and one with separators of both kinds.
use libccll.Base.{◌≡◌, ◌↔◌, ◌⊎◌, refl, true, false, some, length, codes}
use libccll.Ip.{is_digit}
use libccll.Mac.{is_xdigit, chk_loop1, chk_type1, chk_loop2, chk_type2, cl_is_mac_valid}
use libccll.Mac.Formats.{AllHex, IsGroups, cl_is_mac_valid-IsGroups}

mixed : cl_is_mac_valid (some (codes "00:11:22:33:44-55")) ≡ false
unfolding cl_is_mac_valid chk_type1 chk_loop1 chk_type2 chk_loop2 is_xdigit is_digit
mixed = refl

cl_is_mac_valid-IsGroups_example : (cl_is_mac_valid (some (codes "00-1A-2b-33-44-55")) ≡ true) ↔ (
    (IsGroups b':' 5 (codes "00-1A-2b-33-44-55") ⊎ IsGroups b'-' 5 (codes "00-1A-2b-33-44-55"))
    ⊎ (AllHex (codes "00-1A-2b-33-44-55") × (length (codes "00-1A-2b-33-44-55") ≡ 12)))
cl_is_mac_valid-IsGroups_example = cl_is_mac_valid-IsGroups (codes "00-1A-2b-33-44-55")
