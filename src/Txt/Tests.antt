-- ===== src/Txt/Tests.antt =====
-- Lines and trimmed strings of test/main.c's kind.
use libccll.Base.{◌≡◌, refl, codes}
use libccll.Txt.{cl_txt_trim}
use libccll.Txt.Trim.{IsTrimmed, trim-IsTrimmed}

trimmed : cl_txt_trim (codes " \t a b\n ") ≡ codes "a b"
unfolding cl_txt_trim
trimmed = refl

trim-IsTrimmed_example : IsTrimmed (codes " \t a b\n ") (cl_txt_trim (codes " \t a b\n "))
trim-IsTrimmed_example = trim-IsTrimmed (codes " \t a b\n ")
