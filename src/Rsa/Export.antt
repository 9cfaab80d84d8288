-- ===== src/Rsa/Export.antt =====
-- cipher/rsa.c: what the exports acquire and release, and the files that they leave.
use libccll.Base.{
  ℕ, Bool, true, false, ◌≡◌, ◌⊎◌, inl, inr, refl, none, some, List, [], ◌∷◌, if◌then◌else◌, arith,
}
use libccll.Base.Held.{Held, hold, release_all}
use libccll.Rsa.{
  rsa, pub_key_file, prv_key_file, ExtractAnswers, ExportAnswers, extract_with, cl_rsa_extract,
  export_file, cl_rsa_to_file, export_bytes, cl_rsa_to_bytes,
}

-- the key has both of its factors or neither, and the three numbers for the remainders or none
pub record IsWhole (a : ExtractAnswers) : Type 0 where
  pub factors : a.p ≡ a.q
  pub exponents : a.dp ≡ a.dq
  pub coefficient : a.dq ≡ a.qinv

cl_rsa_extract-Held :
    (v3 : Bool) (a : ExtractAnswers) (s : Held)
    → IsWhole a
    → (cl_rsa_extract v3 a s ≡ (some tt, hold rsa s)) ⊎ (cl_rsa_extract v3 a s ≡ (none, s))
unfolding cl_rsa_extract extract_with
cl_rsa_extract-Held v3 a s h = ground arith

export_file-Held :
    (v3 pkcs1 : Bool) (a : ExportAnswers) (fn : ℕ) (others : List ℕ) (s : Held)
    → IsWhole a.extract
    → (export_file v3 pkcs1 a fn others s ≡ (some tt, hold fn s))
      ⊎ (export_file v3 pkcs1 a fn others s ≡ (none, release_all others s))
unfolding export_file
export_file-Held v3 false a fn others s h = ground arith
export_file-Held v3 true a fn others s h =
    elim (cl_rsa_extract-Held v3 a.extract (hold 7 (hold fn s)) h) [
      | inl e ↦ ground (arith, e)
      | inr e ↦ ground (arith, e)
    ]

export_bytes-Held :
    (v3 pkcs1 : Bool) (a : ExportAnswers) (len : Bool) (s : Held)
    → IsWhole a.extract
    → (export_bytes v3 pkcs1 a len s ≡ (some tt, s)) ⊎ (export_bytes v3 pkcs1 a len s ≡ (none, s))
unfolding export_bytes
export_bytes-Held v3 false a len s h = ground arith
export_bytes-Held v3 true a len s h = elim (cl_rsa_extract-Held v3 a.extract (hold 7 s) h) [
  | inl e ↦ ground (arith, e)
  | inr e ↦ ground (arith, e)
]

-- the files that were asked for
abbrev pub files : (pub_key_fn prv_key_fn : Bool) → Held → Held
files pub_key_fn prv_key_fn s =
    let t = if pub_key_fn then hold pub_key_file s else s in
    if prv_key_fn then hold prv_key_file t else t

-- For a key with whole parameters, whatever OpenSSL answers, in both versions and both formats:
-- `cl_rsa_to_file` either succeeds and leaves exactly the files that were asked for, or fails and leaves
-- none of them; and in both cases it has released every object of OpenSSL that it acquired, and nothing
-- else.
pub cl_rsa_to_file-Held :
    (v3 pkcs1 : Bool) (pbk pvk : ExportAnswers) (pub_key_fn prv_key_fn : Bool) (s : Held)
    → IsWhole pbk.extract
    → IsWhole pvk.extract
    → (cl_rsa_to_file v3 pkcs1 pbk pvk pub_key_fn prv_key_fn s
        ≡ (some tt, files pub_key_fn prv_key_fn s))
      ⊎ (cl_rsa_to_file v3 pkcs1 pbk pvk pub_key_fn prv_key_fn s ≡ (none, s))
unfolding cl_rsa_to_file
cl_rsa_to_file-Held v3 pkcs1 pbk pvk false false s hb hv = inl refl
cl_rsa_to_file-Held v3 pkcs1 pbk pvk false true s hb hv =
    export_file-Held v3 pkcs1 pvk prv_key_file [] s hv
cl_rsa_to_file-Held v3 pkcs1 pbk pvk true prv_key_fn s hb hv =
    elim (export_file-Held v3 pkcs1 pbk pub_key_file [] s hb) [
      | inr e ↦ ground (arith, e)
      | inl e ↦
          elim (export_file-Held v3 pkcs1 pvk prv_key_file (pub_key_file ∷ []) (hold pub_key_file s)
            hv) [ inl f ↦ ground (arith, e, f) | inr f ↦ ground (arith, e, f) ]
    ]

-- The same of `cl_rsa_to_bytes`, which leaves nothing.
cl_rsa_to_bytes-Held :
    (v3 pkcs1 : Bool) (pbk pvk : ExportAnswers) (pub_key_buf pbk_len prv_key_buf pvk_len : Bool)
    (s : Held)
    → IsWhole pbk.extract
    → IsWhole pvk.extract
    → (cl_rsa_to_bytes v3 pkcs1 pbk pvk pub_key_buf pbk_len prv_key_buf pvk_len s ≡ (some tt, s))
      ⊎ (cl_rsa_to_bytes v3 pkcs1 pbk pvk pub_key_buf pbk_len prv_key_buf pvk_len s ≡ (none, s))
unfolding cl_rsa_to_bytes
cl_rsa_to_bytes-Held v3 pkcs1 pbk pvk pub_key_buf pbk_len prv_key_buf pvk_len s hb hv =
    elim (export_bytes-Held v3 pkcs1 pbk pbk_len s hb) [
      | inl e ↦ elim (export_bytes-Held v3 pkcs1 pvk pvk_len s hv) [
        | inl f ↦ ground (arith, e, f)
        | inr f ↦ ground (arith, e, f)
      ]
      | inr e ↦ elim (export_bytes-Held v3 pkcs1 pvk pvk_len s hv) [
        | inl f ↦ ground (arith, e, f)
        | inr f ↦ ground (arith, e, f)
      ]
    ]
