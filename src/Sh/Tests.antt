-- ===== src/Sh/Tests.antt =====
-- A command that writes three bytes into a buffer of six.
use libccll.Base.{Option, some, [], ◌∷◌, ◌++◌, ◌≡◌, refl, arith, Bytes, codes, length}
use libccll.Sh.{Proc, cl_sh_exec}
use libccll.Sh.Exec.{cl_sh_exec-take}

abbrev echo : Proc
echo = record { output = codes "hi\n"; status = length }

abbrev shell : Bytes → Option Proc
shell cmd = some echo

cl_sh_exec-take_example :
    cl_sh_exec shell (some (codes "echo hi")) (some (codes "xxxxxx")) 6
    ≡ record { ret = some 0; result = some (codes "hi\nxx" ++ 0 ∷ []); rlen = some 3 }
cl_sh_exec-take_example =
    cl_sh_exec-take shell (codes "echo hi") (codes "xxxxxx") echo 5 refl (omega arith) refl
