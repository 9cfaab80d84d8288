-- ===== src/Log/Tests.antt =====
-- A line of the log.
use libccll.Base.{ℕ, ◌∷◌, ◌++◌, ◌≡◌, ◌≤◌, ◌↔◌, ◌+◌, refl, true, some, Bytes, codes, length, arith}
use libccll.Log.Header.{IsThreeDigits, log_hdr_sz, log_hdr_bounds}
use libccll.Log.{cl_info, code_of, three_digits, log_hdr, paint, def_print_fun}

abbrev now : Bytes
now = codes "2025-11-01 12:49:38"

line :
    def_print_fun true now 7168 cl_info (codes "main") (codes "ready")
    ≡ some (codes "2025-11-01 12:49:38.007 I-main: ready\n")
unfolding def_print_fun paint log_hdr three_digits code_of
line = refl

log_hdr_bounds_example :
    ((a : ℕ) × (b : ℕ) × (c : ℕ) × IsThreeDigits 7 a b c
      × (log_hdr now 7168 cl_info (codes "main")
          ≡ codes "2025-11-01 12:49:38."
            ++ ((48 + a) ∷ ((48 + b) ∷ ((48 + c) ∷ codes " I-main: ")))))
    × ((length (log_hdr now 7168 cl_info (codes "main")) + 1 ≤ log_hdr_sz)
        ↔ (length (codes "main") ≤ 99))
log_hdr_bounds_example = log_hdr_bounds now (codes "main") 7168 cl_info (omega arith) (omega arith)
