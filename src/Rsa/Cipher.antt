-- ===== src/Rsa/Cipher.antt =====
-- `cl_rsa_enc` and `cl_rsa_dec` of cipher/rsa.c.
use libccll.Base.{
  Bool, Bytes, Option, [], ap, arith, false, if◌then◌else◌, inl, inr, none, not, some, sym, true,
  ◌∙◌, ◌∷◌, ◌≡◌, ◌⊎◌,
}
use libccll.Base.Held.{Act, Held, check, free, give, new, some_or, ◌>>=◌, ◌>>◌}
use libccll.Rsa.{ctx}

-- the operations of OpenSSL on a key; `none` is an answer other than 1
record Evp : Type 0 where
  encrypt : Bytes → Option Bytes
  sign : Bytes → Option Bytes
  decrypt : Bytes → Option Bytes
  verify_recover : Bytes → Option Bytes

-- what the other calls of `cl_rsa_enc` or `cl_rsa_dec` answer, in their order
record RunAnswers : Type 0 where
  ctx_new : Bool
  init : Bool
  padding : Bool
  query : Bool

-- the common course of `cl_rsa_enc` and `cl_rsa_dec`: `out` is what the operation yields
unfoldable run_with : RunAnswers → (out : Option Bytes) → Act Bytes
run_with a out = do
  new a.ctx_new ctx []
  check a.init (ctx ∷ [])
  check a.padding (ctx ∷ [])
  check a.query (ctx ∷ [])
  r ← some_or out (ctx ∷ [])
  free ctx
  give r

-- `cl_rsa_enc` and `cl_rsa_dec`, on valid pointers
unfoldable cl_rsa_enc : Evp → RunAnswers → (with_pbk : Bool) → (plain : Bytes) → Act Bytes
cl_rsa_enc evp a with_pbk plain =
    run_with a (if with_pbk then evp.encrypt plain else evp.sign plain)

unfoldable cl_rsa_dec : Evp → RunAnswers → (with_pbk : Bool) → (cipher : Bytes) → Act Bytes
cl_rsa_dec evp a with_pbk cipher =
    run_with a (if with_pbk then evp.verify_recover cipher else evp.decrypt cipher)

-- a run leaves nothing, and yields what the operation yields, unless a call fails
run_with-Held :
    (a : RunAnswers) (out : Option Bytes) (s : Held)
    → (run_with a out s ≡ (out, s)) ⊎ (run_with a out s ≡ (none, s))
unfolding run_with
run_with-Held a none s = ground arith
run_with-Held a (some r) s = ground arith

-- the calls of OpenSSL succeed
abbrev all_answered : RunAnswers
all_answered = record { ctx_new = true; init = true; padding = true; query = true }

run_with-all_answered : (out : Option Bytes) (s : Held) → run_with all_answered out s ≡ (out, s)
unfolding run_with
run_with-all_answered none s = ground arith
run_with-all_answered (some r) s = ground arith

fst-none : {c : Bytes} {s t : Held} → ◌≡◌ {A = Option Bytes × Held} (none, s) (some c, t) → ⊥
fst-none e = cc

-- What `cl_rsa_enc` yields with one key, `cl_rsa_dec` turns back into the text with the other one, if
-- its calls of OpenSSL succeed; both leave no object. For operations of OpenSSL that undo each other:
-- `decrypt` what `encrypt` yields, and `verify_recover` what `sign` yields.
cl_rsa_dec-enc :
    (evp : Evp) (a : RunAnswers) (with_pbk : Bool) (plain cipher : Bytes) (s t u : Held)
    → ((p c : Bytes) → evp.encrypt p ≡ some c → evp.decrypt c ≡ some p)
    → ((p c : Bytes) → evp.sign p ≡ some c → evp.verify_recover c ≡ some p)
    → cl_rsa_enc evp a with_pbk plain s ≡ (some cipher, t)
    → (t ≡ s) × (cl_rsa_dec evp all_answered (not with_pbk) cipher u ≡ (some plain, u))
unfolding cl_rsa_enc cl_rsa_dec
cl_rsa_dec-enc evp a true plain cipher s t u undo recover e =
    elim (run_with-Held a (evp.encrypt plain) s) [
      | inr f ↦ absurd (fst-none (sym f ∙ e))
      | inl f ↦
          let k = sym f ∙ e in
          let yields : evp.encrypt plain ≡ some cipher = ap (λ r. r.0) k in
          (
            sym (ap (λ r. r.1) k),
            run_with-all_answered _ u ∙ ap (λ o. (o, u)) (undo plain cipher yields),
          )
    ]
cl_rsa_dec-enc evp a false plain cipher s t u undo recover e =
    elim (run_with-Held a (evp.sign plain) s) [
      | inr f ↦ absurd (fst-none (sym f ∙ e))
      | inl f ↦
          let k = sym f ∙ e in
          let yields : evp.sign plain ≡ some cipher = ap (λ r. r.0) k in
          (
            sym (ap (λ r. r.1) k),
            run_with-all_answered _ u ∙ ap (λ o. (o, u)) (recover plain cipher yields),
          )
    ]
