-- ===== src/Io/Tests.antt =====
-- A path with two directories above it, of which one cannot be made.
use libccll.Base.{arith, ℕ, ◌≡◌, refl, false, [], ◌∷◌, ◌==◌, if◌then◌else◌, Bytes, length, codes}
use libccll.Io.{Made, made, failed, is_ok, tmp_of, mkdir_loop, cl_mkdir_p}
use libccll.Io.Ancestors.{slashes, ancestors, make_all, cl_mkdir_p-make_all}

abbrev answer : Bytes → ℕ → Made
answer path mode = if length path == 4 then failed else made

stops :
    cl_mkdir_p answer (codes "/a/b/c/") 448
    ≡ ((codes "/a", 493) ∷ ((codes "/a/b", 493) ∷ []), false)
unfolding cl_mkdir_p mkdir_loop tmp_of is_ok
stops = refl

cl_mkdir_p-make_all_example :
    cl_mkdir_p answer (codes "/a/b/c/") 448
    ≡ make_all answer (ancestors 448 (codes "/a/b/c") (slashes 1 (codes "a/b/c")))
cl_mkdir_p-make_all_example = cl_mkdir_p-make_all answer (codes "/a/b/c/") 448 (omega arith)
