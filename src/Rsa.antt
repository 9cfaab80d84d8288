-- ===== src/Rsa.antt =====
-- cipher/rsa.c: what the functions do around the calls of OpenSSL. The answers of OpenSSL are arguments;
-- `v3` tells whether its version is 3 or later, and `pkcs1` whether `CL_RSA_PEM_FORMAT` is
-- `CL_RSA_PKCS1`.
pub mod Keygen
pub mod Export
pub mod Cipher
mod Tests
use libccll.Base.{
  ℕ, Bool, true, false, not, ◌||◌, ◌&&◌, Option, none, some, List, [], ◌∷◌, ◌==◌, if◌then◌else◌,
  Bytes,
}
use libccll.Base.Held.{
  Held, Act, ◌>>=◌, ◌>>◌, give, new, check, try_new, free, free_if, give_up, or_else, some_or,
}

-- the objects
abbrev pub ctx : ℕ
ctx = 1

abbrev pub bn_exp : ℕ
bn_exp = 2

abbrev pub bld : ℕ
bld = 3

abbrev pub params : ℕ
params = 4

abbrev pub pkey : ℕ
pkey = 5

abbrev pub rsa : ℕ
rsa = 6

abbrev pub bio : ℕ
bio = 7

abbrev pub pub_key_file : ℕ
pub_key_file = 8

abbrev pub prv_key_file : ℕ
prv_key_file = 9

-- the parameters of a key, which `cl_rsa_extract` asks for; a false one is missing
pub record ExtractAnswers : Type 0 where
  pub n : Bool
  pub e : Bool
  pub rsa_new : Bool
  pub d : Bool
  pub p : Bool
  pub q : Bool
  pub dp : Bool
  pub dq : Bool
  pub qinv : Bool
  pub get1_rsa : Bool

-- the objects behind the parameters
abbrev pub bn_n : ℕ
bn_n = 10

abbrev pub bn_e : ℕ
bn_e = 11

abbrev pub bn_d : ℕ
bn_d = 12

abbrev pub bn_p : ℕ
bn_p = 13

abbrev pub bn_q : ℕ
bn_q = 14

abbrev pub bn_dp : ℕ
bn_dp = 15

abbrev pub bn_dq : ℕ
bn_dq = 16

abbrev pub bn_qinv : ℕ
bn_qinv = 17

-- an object that moves into another one, which frees it from then on
abbrev pub give_away : ℕ → Act {0} Unit
give_away = free

-- `if(…) set0(…);`
abbrev pub when : Bool → Act {0} Unit → Act {0} Unit
when true m = m
when false m = give tt

-- `cl_rsa_extract` behind the two parameters of the public key
unfoldable pub extract_with : ExtractAnswers → Act {0} Unit
extract_with a = do
  new a.rsa_new rsa (bn_n ∷ bn_e ∷ [])
  try_new a.d bn_d
  try_new a.p bn_p
  try_new a.q bn_q
  try_new a.dp bn_dp
  try_new a.dq bn_dq
  try_new a.qinv bn_qinv
  give_away bn_n
  give_away bn_e
  when a.d (give_away bn_d)
  when (a.p && a.q) (do give_away bn_p; give_away bn_q)
  when (a.dp && (a.dq && a.qinv)) (do give_away bn_dp; give_away bn_dq; give_away bn_qinv)

-- `cl_rsa_extract` of a key that is not null
unfoldable pub cl_rsa_extract : (v3 : Bool) → ExtractAnswers → Act {0} Unit
cl_rsa_extract true a = do
  try_new a.n bn_n
  try_new (a.n && a.e) bn_e
  if not (a.n && a.e)
      then (do free_if a.n bn_n; free_if (a.n && a.e) bn_e; give_up)
      else extract_with a
cl_rsa_extract false a = new a.get1_rsa rsa []

-- what the calls of one half of an export answer, in their order
pub record ExportAnswers : Type 0 where
  pub bio_new : Bool
  pub extract : ExtractAnswers
  pub write : Bool

-- one half of `cl_rsa_to_file`, for the file `fn`; `others` are the files that its failures remove too
unfoldable pub export_file :
    (v3 pkcs1 : Bool) → ExportAnswers → (fn : ℕ) → (others : List ℕ) → Act {0} Unit
export_file v3 true a fn others = do
  check a.bio_new others
  new true fn []
  new true bio []
  or_else (cl_rsa_extract v3 a.extract) (bio ∷ fn ∷ others)
  check a.write (rsa ∷ bio ∷ fn ∷ others)
  free rsa
  free bio
export_file v3 false a fn others = do
  check a.bio_new others
  new true fn []
  new true bio []
  check a.write (bio ∷ fn ∷ others)
  free bio

-- `cl_rsa_to_file` with a key; `pub_key_fn` and `prv_key_fn` tell which names are not null, and the
-- names differ
unfoldable pub cl_rsa_to_file :
    (v3 pkcs1 : Bool) → (pbk pvk : ExportAnswers) → (pub_key_fn prv_key_fn : Bool) → Act {0} Unit
cl_rsa_to_file v3 pkcs1 pbk pvk pub_key_fn prv_key_fn = do
  when pub_key_fn (export_file v3 pkcs1 pbk pub_key_file [])
  when prv_key_fn
      (export_file v3 pkcs1 pvk prv_key_file (if pub_key_fn then pub_key_file ∷ [] else []))

-- one half of `cl_rsa_to_bytes`, `len` telling whether the place for the length is not null
unfoldable pub export_bytes : (v3 pkcs1 : Bool) → ExportAnswers → (len : Bool) → Act {0} Unit
export_bytes v3 true a len = do
  check len []
  new a.bio_new bio []
  or_else (cl_rsa_extract v3 a.extract) (bio ∷ [])
  check a.write (rsa ∷ bio ∷ [])
  free rsa
  free bio
export_bytes v3 false a len = do
  check len []
  new a.bio_new bio []
  check a.write (bio ∷ [])
  free bio

-- `cl_rsa_to_bytes` with a key; what it reads from the buffers is left out
unfoldable pub cl_rsa_to_bytes :
    (v3 pkcs1 : Bool)
    → (pbk pvk : ExportAnswers) → (pub_key_buf pbk_len prv_key_buf pvk_len : Bool) → Act {0} Unit
cl_rsa_to_bytes v3 pkcs1 pbk pvk pub_key_buf pbk_len prv_key_buf pvk_len = do
  when pub_key_buf (export_bytes v3 pkcs1 pbk pbk_len)
  when prv_key_buf (export_bytes v3 pkcs1 pvk pvk_len)
