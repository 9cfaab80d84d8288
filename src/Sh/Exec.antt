-- ===== src/Sh/Exec.antt =====
-- sys/sh.c: what `cl_sh_exec` delivers of the output, and how much of it is read.
use libccll.Base.{
  ℕ, zero, suc, ◌+◌, ◌-◌, ◌*◌, ◌≤◌, ◌<◌, false, Option, some, [], ◌∷◌, ◌++◌, ◌≡◌, refl, sym, ap,
  ◌∙◌, arith, ltb, ◌==◌, if◌then◌else◌, Bool-cases, inl, inr, ltb→lt, Bytes, codes, length, take,
  drop,
}
use mathlib.Core.Path.{ap₂}
use libccll.Sh.{Proc, read_all_out, set_at, read_result, cl_sh_exec}

drop-nil : (n : ℕ) → drop {A = ℕ} n [] ≡ []
drop-nil zero = refl
drop-nil (suc n) = refl

drop_add : (k m n : ℕ) (xs : Bytes) → k ≡ m + n → drop k xs ≡ drop n (drop m xs)
drop_add k zero n xs e = ap (λ i. drop i xs) (omega (arith, e))
drop_add k (suc m) n [] e = drop-nil k ∙ sym (drop-nil n)
drop_add zero (suc m) n (x ∷ xs) e = absurd (omega (arith, e))
drop_add (suc k) (suc m) n (x ∷ xs) e = drop_add k m n xs (omega (arith, e))

drop_all : (n : ℕ) (xs : Bytes) → length xs ≤ n → drop n xs ≡ []
drop_all zero [] h = refl
drop_all zero (x ∷ xs) h = absurd (omega (arith, h))
drop_all (suc n) [] h = refl
drop_all (suc n) (x ∷ xs) h = drop_all n xs (omega (arith, h))

read_all_out-drop : (cnt : ℕ) (out : Bytes) → read_all_out cnt out ≡ drop (cnt * 2048) out
unfolding read_all_out
read_all_out-drop zero out = refl
read_all_out-drop (suc cnt) out = elim (Bool-cases (ltb (length out) 2048)) [
  | inl short ↦ rw short (
      drop_all 2048 out (omega (arith, ltb→lt _ _ short))
      ∙ sym (drop_all (suc cnt * 2048) out (omega (arith, ltb→lt _ _ short))))
  | inr long ↦
      rw long (
        read_all_out-drop cnt (drop 2048 out)
        ∙ sym (drop_add _ 2048 (cnt * 2048) out (omega arith)))
]

set_at-last : (n : ℕ) (buf : Bytes) → length buf ≡ suc n → set_at n 0 buf ≡ take n buf ++ 0 ∷ []
set_at-last n [] h = absurd (omega (arith, h))
set_at-last zero (b ∷ []) h = refl
set_at-last zero (b ∷ (c ∷ buf)) h = absurd (omega (arith, h))
set_at-last (suc n) (b ∷ buf) h = ap (◌∷◌ b) (set_at-last n buf (omega (arith, h)))

set_at-overlay :
    (n : ℕ) (out buf : Bytes)
    → length buf ≡ suc n
    → set_at n 0 (take n out ++ drop (length (take n out)) buf)
      ≡ take n out ++ drop (length out) (take n buf) ++ 0 ∷ []
set_at-overlay n out [] h = absurd (omega (arith, h))
set_at-overlay zero [] (b ∷ buf) h = set_at-last zero (b ∷ buf) h
set_at-overlay zero (c ∷ out) (b ∷ buf) h = set_at-last zero (b ∷ buf) h
set_at-overlay (suc n) [] (b ∷ buf) h = set_at-last (suc n) (b ∷ buf) h
set_at-overlay (suc n) (c ∷ out) (b ∷ buf) h =
    ap (◌∷◌ c) (set_at-overlay n out buf (omega (arith, h)))

length_short : (n : ℕ) (out : Bytes) → (length (take n out) == n) ≡ false → length out ≤ n
length_short zero [] h = omega arith
length_short zero (c ∷ out) h = ground (arith, h)
length_short (suc n) [] h = omega arith
length_short (suc n) (c ∷ out) h = omega (arith, length_short n out (ground (arith, h)))

ltb-false : (a b : ℕ) → b ≤ a → ltb a b ≡ false
ltb-false a b h = ground (arith, h)

-- the status behind the reads, for every length of the output
rest-drop :
    (rsz : ℕ) (out : Bytes)
    → (if length (take rsz out) == rsz then read_all_out 10000 (drop rsz out) else drop rsz out)
      ≡ drop (rsz + 20480000) out
rest-drop rsz out = elim (Bool-cases (length (take rsz out) == rsz)) [
  | inl full ↦
      rw full (read_all_out-drop 10000 (drop rsz out) ∙ sym (drop_add _ rsz 20480000 out refl))
  | inr short ↦
      let few : length out ≤ rsz = length_short rsz out short in
      rw short (drop_all rsz out few ∙ sym (drop_all (rsz + 20480000) out (omega (arith, few))))
]

-- With a buffer of `size` bytes, at least one and at most 1048576: `cl_sh_exec` delivers the output up to
-- the last byte but one of the buffer, tells how many bytes they are, keeps what lies behind them, and
-- writes a 0 into the last byte alone; it returns the exit status of the command, which finds all of its
-- output read up to 20480000 bytes and what the buffer takes.
pub cl_sh_exec-take :
    (popen : Bytes → Option Proc) (cmd buf : Bytes) (pf : Proc) (rsz : ℕ)
    → length buf ≡ suc rsz
    → rsz < 0x100000
    → popen (cmd ++ codes " 2>&1") ≡ some pf
    → cl_sh_exec popen (some cmd) (some buf) (suc rsz) ≡ record {
      ret = some (pf.status (drop (rsz + 20480000) pf.output));
      result = some (take rsz pf.output ++ drop (length pf.output) (take rsz buf) ++ 0 ∷ []);
      rlen = some (length (take rsz pf.output));
    }
unfolding cl_sh_exec read_result
cl_sh_exec-take popen cmd buf pf rsz size small started =
    let some_bytes : (suc rsz == 0) ≡ false = ground arith in
    let but_last : suc rsz - 1 ≡ rsz = omega arith in
    rw (ltb-false 0x100000 (suc rsz) (omega (arith, small)), started, some_bytes, but_last)
      (ap₂
        (λ unread result. record {
          ret = some (pf.status unread);
          result = some result;
          rlen = some (length (take rsz pf.output));
        })
        (rest-drop rsz pf.output) (set_at-overlay rsz pf.output buf size))
