-- ===== src/Sh.antt =====
-- sys/sh.c: `cl_sh_exec`. `popen` is an argument, and so is how the exit status follows from the output
-- that was not read when `pclose` is called.
pub mod Exec
mod Tests
use libccll.Base.{
  ℕ, zero, suc, ◌+◌, ◌-◌, Bool, true, false, Option, none, some, List, [], ◌∷◌, ◌++◌, ltb, ◌==◌,
  if◌then◌else◌, Bytes, codes, length, take, drop,
}

-- a running command: what it writes, and `WEXITSTATUS(pclose(pf))`
pub record Proc : Type 0 where
  pub output : Bytes
  pub status : (unread : Bytes) → ℕ

-- the loop of `_read_all_out`: what is not read behind it
unfoldable pub read_all_out : (cnt : ℕ) → Bytes → Bytes
read_all_out zero out = out
read_all_out (suc cnt) out =
    let rest = read_all_out cnt (drop 2048 out) in
    if ltb (length out) 2048 then drop 2048 out else rest

abbrev pub set_at : ℕ → ℕ → Bytes → Bytes
set_at i x [] = []
set_at zero x (c ∷ cs) = x ∷ cs
set_at (suc i) x (c ∷ cs) = c ∷ set_at i x cs

-- what `cl_sh_exec` returns, `none` being `FAIL`, and the two outputs, `none` where nothing is written
pub record Executed : Type 0 where
  pub ret : Option ℕ
  pub result : Option Bytes
  pub rlen : Option ℕ

-- the command runs, and its output is not asked for
unfoldable pub run_only : Proc → Executed
run_only pf = record {
  ret = some (pf.status (read_all_out 10000 pf.output));
  result = none;
  rlen = none;
}

-- the command runs, and its output goes to the buffer: `rsz` is one less than its size
unfoldable pub read_result : Proc → (rsz : ℕ) → (buf : Bytes) → Executed
read_result pf rsz buf =
    let got = take rsz pf.output in
    let rest = drop rsz pf.output in
    record {
      ret = some (pf.status (if length got == rsz then read_all_out 10000 rest else rest));
      result = some (set_at rsz 0 (got ++ drop (length got) buf));
      rlen = some (length got);
    }

abbrev pub refused : Executed
refused = record { ret = none; result = none; rlen = none }

-- `cl_sh_exec` with a size that is not negative, a buffer `result` of so many bytes, and a place for the
-- length; `none` is a null pointer
unfoldable pub cl_sh_exec :
    (popen : Bytes → Option Proc) → (cmd result : Option Bytes) → (size : ℕ) → Executed
cl_sh_exec popen none result size = refused
cl_sh_exec popen (some cmd) result size =
    if ltb 0x100000 size then refused else elim (popen (cmd ++ codes " 2>&1")) [
      | none ↦ refused
      | some pf ↦ elim result [
        | none ↦ run_only pf
        | some buf ↦ if size == 0 then run_only pf else read_result pf (size - 1) buf
      ]
    ]
