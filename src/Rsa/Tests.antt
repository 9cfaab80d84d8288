-- ===== src/Rsa/Tests.antt =====
-- The theorems at concrete answers of OpenSSL.
use libccll.Base.{ℕ, Bool, true, false, ◌≡◌, ◌⊎◌, refl, none, some, []}
use libccll.Base.Held.{Held, hold}
use libccll.Rsa.{pkey, ExtractAnswers, ExportAnswers, cl_rsa_to_file}
use libccll.Rsa.Keygen.{GenAnswers, cl_rsa_gen, cl_rsa_destroy, cl_rsa_gen-Held}
use libccll.Rsa.Export.{IsWhole, files, cl_rsa_to_file-Held}

abbrev nothing : Held
nothing = record { objs = []; stray = [] }

abbrev pushed : GenAnswers
pushed = record {
  ctx_new = true;
  keygen_init = true;
  set_bits = true;
  bn_new = true;
  set_word = true;
  bld_new = true;
  push_bn = false;
  to_param = true;
  set_params = true;
  set_pubexp = true;
  keygen = true;
}

cl_rsa_gen-Held_example :
    ((cl_rsa_gen true pushed 65537 2048 nothing ≡ (some tt, hold pkey nothing))
      × (cl_rsa_destroy (some pkey) (hold pkey nothing) ≡ (some tt, nothing))
      × (◌≡◌ {A = ℕ} 65537 65537)
      × (◌≡◌ {A = ℕ} 2048 2048 ⊎ ◌≡◌ {A = ℕ} 2048 4096))
    ⊎ (cl_rsa_gen true pushed 65537 2048 nothing ≡ (none, nothing))
cl_rsa_gen-Held_example = cl_rsa_gen-Held true pushed 65537 2048 nothing

abbrev whole : ExtractAnswers
whole = record {
  n = true;
  e = true;
  rsa_new = true;
  d = true;
  p = true;
  q = true;
  dp = true;
  dq = true;
  qinv = true;
  get1_rsa = true;
}

whole-IsWhole : IsWhole whole
whole-IsWhole = record { factors = refl; exponents = refl; coefficient = refl }

abbrev written : Bool → ExportAnswers
written ok = record { bio_new = true; extract = whole; write = ok }

cl_rsa_to_file-Held_example :
    (cl_rsa_to_file true true (written true) (written false) true true nothing
      ≡ (some tt, files true true nothing))
    ⊎ (cl_rsa_to_file true true (written true) (written false) true true nothing ≡ (none, nothing))
cl_rsa_to_file-Held_example =
    cl_rsa_to_file-Held true true (written true) (written false) true true nothing whole-IsWhole
      whole-IsWhole
