-- ===== src/Rsa/Keygen.antt =====
-- `cl_rsa_gen` of cipher/rsa.c: what it acquires and releases on each path.
use libccll.Base.{
  Bool, Option, List, [], arith, false, if◌then◌else◌, none, some, true, ℕ, ◌==◌, ◌∷◌, ◌≡◌, ◌⊎◌,
}
use libccll.Base.Held.{Act, Held, check, free, give, hold, new, try_new, ◌>>◌}
use libccll.Rsa.{ctx, bn_exp, bld, params, pkey}

-- the loops over `allowed_expn` and `allowed_bits`
unfoldable pub is_allowed : List ℕ → ℕ → Bool
is_allowed [] x = false
is_allowed (a ∷ allowed) x = if a == x then true else is_allowed allowed x

-- what the calls of `cl_rsa_gen` answer, in their order
pub record GenAnswers : Type 0 where
  pub ctx_new : Bool
  pub keygen_init : Bool
  pub set_bits : Bool
  pub bn_new : Bool
  pub set_word : Bool
  pub bld_new : Bool
  pub push_bn : Bool
  pub to_param : Bool
  pub set_params : Bool
  pub set_pubexp : Bool
  pub keygen : Bool

-- the block that sets the public exponent, in the two versions
unfoldable pub set_exponent : (v3 : Bool) → GenAnswers → Act {0} Unit
set_exponent true a = do
  new a.bld_new bld (bn_exp ∷ ctx ∷ [])
  check a.push_bn (bn_exp ∷ bld ∷ ctx ∷ [])
  try_new a.to_param params
  free bn_exp
  free bld
  check a.to_param (ctx ∷ [])
  check a.set_params (params ∷ ctx ∷ [])
  free params
set_exponent false a = do check a.set_pubexp (bn_exp ∷ ctx ∷ []); free bn_exp

-- `cl_rsa_gen` with a place for the key; on success the caller holds it
unfoldable pub cl_rsa_gen : (v3 : Bool) → GenAnswers → (exponent bits : ℕ) → Act {0} Unit
cl_rsa_gen v3 a exponent bits = do
  check (is_allowed (65537 ∷ []) exponent) []
  check (is_allowed (2048 ∷ 4096 ∷ []) bits) []
  new a.ctx_new ctx []
  check a.keygen_init (ctx ∷ [])
  check a.set_bits (ctx ∷ [])
  new a.bn_new bn_exp (ctx ∷ [])
  check a.set_word (bn_exp ∷ ctx ∷ [])
  set_exponent v3 a
  new a.keygen pkey (ctx ∷ [])
  free ctx

-- `cl_rsa_destroy`, of a key or of the null pointer
unfoldable pub cl_rsa_destroy : (key : Option ℕ) → Act {0} Unit
cl_rsa_destroy none = give tt
cl_rsa_destroy (some key) = free key

-- Whatever OpenSSL answers, and in both versions: `cl_rsa_gen` either succeeds, with an exponent of
-- 65537 and 2048 or 4096 bits, and then leaves the key alone, which `cl_rsa_destroy` takes away, or fails
-- and leaves nothing; and it releases nothing that it does not hold.
pub cl_rsa_gen-Held :
    (v3 : Bool) (a : GenAnswers) (exponent bits : ℕ) (s : Held)
    → ((cl_rsa_gen v3 a exponent bits s ≡ (some tt, hold pkey s))
        × (cl_rsa_destroy (some pkey) (hold pkey s) ≡ (some tt, s))
        × (exponent ≡ 65537)
        × ((bits ≡ 2048) ⊎ (bits ≡ 4096)))
      ⊎ (cl_rsa_gen v3 a exponent bits s ≡ (none, s))
unfolding cl_rsa_gen set_exponent is_allowed cl_rsa_destroy
cl_rsa_gen-Held v3 a exponent bits s = ground arith
