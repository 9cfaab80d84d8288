-- ===== src/Io/Ancestors.antt =====
-- sys/io.c: the calls of `mkdir` for the directories above a path.
use libccll.Base.{
  ◌<◌, ℕ, suc, ◌+◌, ◌-◌, get_or, arith, ◌≡◌, refl, ap, ◌∙◌, Bool, true, false, List, [], ◌∷◌, ◌++◌,
  append_assoc, append-nil, length-append, drop, ◌==◌, if◌then◌else◌, Bytes, length, take,
  Bool-cases, inl, inr,
}
use libccll.Io.{Made, made, exists, failed, is_ok, tmp_of, mkdir_loop, cl_mkdir_p}

-- the places of the slashes from place `i` on
unfoldable pub slashes : ℕ → Bytes → List ℕ
slashes i [] = []
slashes i (c ∷ s) = if c == b'/' then i ∷ slashes (i + 1) s else slashes (i + 1) s

-- the paths above `tmp`, by the places of its slashes, and `tmp` itself
abbrev pub ancestors : (mode : ℕ) → (tmp : Bytes) → List ℕ → List (Bytes × ℕ)
ancestors mode tmp [] = (tmp, mode) ∷ []
ancestors mode tmp (i ∷ is) = (take i tmp, 493) ∷ ancestors mode tmp is

-- the calls up to the first that fails, and whether none did
unfoldable pub make_ok : (answer : Bytes → ℕ → Made) → List (Bytes × ℕ) → List (Bytes × ℕ) × Bool
make_ok answer [] = ([], true)
make_ok answer ((path, mode) ∷ paths) =
    let (calls, ok) = make_ok answer paths in
    if is_ok (answer path mode) then ((path, mode) ∷ calls, ok) else ((path, mode) ∷ [], false)

take-append : (s t : Bytes) → take (length s) (s ++ t) ≡ s
take-append [] t = refl
take-append (c ∷ s) t = ap (◌∷◌ c) (take-append s t)

length-snoc : (s : Bytes) (c : ℕ) → length (s ++ c ∷ []) ≡ length s + 1
length-snoc s c = length-append s (c ∷ [])

mkdir_loop-make_ok :
    (answer : Bytes → ℕ → Made) (mode : ℕ) (before rest : Bytes)
    → mkdir_loop answer mode before rest
      ≡ make_ok answer (ancestors mode (before ++ rest) (slashes (length before) rest))
unfolding mkdir_loop make_ok slashes
mkdir_loop-make_ok answer mode before [] =
    rw (append-nil before) (elim (Bool-cases (is_ok (answer before mode))) [
      | inl ok ↦ rw ok refl
      | inr bad ↦ rw bad refl
    ])
mkdir_loop-make_ok answer mode before (c ∷ rest) =
    let ih : mkdir_loop answer mode (before ++ c ∷ []) rest
        ≡ make_ok answer (ancestors mode (before ++ c ∷ rest) (slashes (length before + 1) rest)) =
      mkdir_loop-make_ok answer mode (before ++ c ∷ []) rest
      ∙ rw (append_assoc before (c ∷ []) rest, length-snoc before c) refl in
    elim (Bool-cases (c == b'/')) [
      | inl slash ↦ rw slash (rw (take-append before (c ∷ rest)) (rw ih refl))
      | inr other ↦ rw other (rw ih refl)
    ]

cl_mkdir_p_at :
    (answer : Bytes → ℕ → Made) (path tmp : Bytes) (mode : ℕ)
    → tmp_of path ≡ tmp
    → cl_mkdir_p answer path mode ≡ make_ok answer (ancestors mode tmp (slashes 1 (drop 1 tmp)))
unfolding cl_mkdir_p make_ok slashes
cl_mkdir_p_at answer path [] mode e =
    rw (e, cl_mkdir_p)
      (elim (Bool-cases (is_ok (answer [] mode))) [ inl ok ↦ rw ok refl | inr bad ↦ rw bad refl ])
cl_mkdir_p_at answer path (c ∷ tmp) mode e =
    rw (e, cl_mkdir_p) (mkdir_loop-make_ok answer mode (c ∷ []) tmp)

-- which answers of `mkdir` let the function go on
unfoldable pub goes_on : Made → Bool
goes_on made = true
goes_on exists = true
goes_on failed = false

-- the calls up to the first that fails with an error other than `EEXIST`, and whether none did
unfoldable pub make_all : (answer : Bytes → ℕ → Made) → List (Bytes × ℕ) → List (Bytes × ℕ) × Bool
make_all answer [] = ([], true)
make_all answer ((path, mode) ∷ paths) =
    let (calls, ok) = make_all answer paths in
    if goes_on (answer path mode) then ((path, mode) ∷ calls, ok) else ((path, mode) ∷ [], false)

is_ok-goes_on : (m : Made) → is_ok m ≡ goes_on m
unfolding is_ok goes_on
is_ok-goes_on made = refl
is_ok-goes_on exists = refl
is_ok-goes_on failed = refl

make_ok-make_all :
    (answer : Bytes → ℕ → Made) (paths : List (Bytes × ℕ))
    → make_ok answer paths ≡ make_all answer paths
unfolding make_ok make_all
make_ok-make_all answer [] = refl
make_ok-make_all answer ((path, mode) ∷ paths) =
    rw (is_ok-goes_on (answer path mode), make_ok-make_all answer paths) refl

-- a path less one slash at its end
abbrev pub less_slash : Bytes → Bytes
less_slash [] = []
less_slash (c ∷ []) = if c == b'/' then [] else c ∷ []
less_slash (c ∷ d ∷ s) = c ∷ less_slash (d ∷ s)

-- the test of the last byte
abbrev cut_last : Bytes → Bytes
cut_last tmp = if get_or tmp (length tmp - 1) 0 == b'/' then take (length tmp - 1) tmp else tmp

cut_last-cons : (c d : ℕ) (s : Bytes) → cut_last (c ∷ d ∷ s) ≡ c ∷ cut_last (d ∷ s)
cut_last-cons c d s =
    let e : suc (suc (length s)) - 1 ≡ suc (length s) = omega arith in
    let f : suc (length s) - 1 ≡ length s = omega arith in rw (e, f) (ground arith)

cut_last-less_slash : (s : Bytes) → cut_last s ≡ less_slash s
cut_last-less_slash [] = refl
cut_last-less_slash (c ∷ []) = refl
cut_last-less_slash (c ∷ d ∷ s) = cut_last-cons c d s ∙ ap (◌∷◌ c) (cut_last-less_slash (d ∷ s))

tmp_of-less_slash : (path : Bytes) → tmp_of path ≡ less_slash (take 255 path)
unfolding tmp_of
tmp_of-less_slash path = cut_last-less_slash (take 255 path)

-- For every path that is not empty, cut to 255 bytes and less one slash at its end: `cl_mkdir_p` calls
-- `mkdir` for the path above each slash but a leading one, the shortest first and with the mode 0755, and
-- then for the path itself with the mode that it was given; it stops behind the first call that fails with
-- an error other than `EEXIST`, and returns `SUCC` exactly if there is none.
pub cl_mkdir_p-make_all :
    (answer : Bytes → ℕ → Made) (path : Bytes) (mode : ℕ)
    → 0 < length path
    → let tmp = less_slash (take 255 path) in
      cl_mkdir_p answer path mode ≡ make_all answer (ancestors mode tmp (slashes 1 (drop 1 tmp)))
cl_mkdir_p-make_all answer path mode some_byte =
    cl_mkdir_p_at answer path _ mode (tmp_of-less_slash path) ∙ make_ok-make_all answer _
