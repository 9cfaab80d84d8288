-- ===== src/Base/Held.antt =====
-- The objects that a C function holds: what it acquires on its way, and what it releases before it
-- returns. An object is a number; `stray` are those that were released without being held.
use libccll.Base.Tests.{◌==◌, if◌then◌else◌}
use Prim.Native.Nat.{ℕ}
use mathlib.Core.Bool.{Bool, true, false}
use mathlib.Core.List.{List, [], ◌∷◌}
use mathlib.Core.Option.{Option, none, some}

pub record Held : Type 0 where
  pub objs : List ℕ
  pub stray : List ℕ

-- a function that acquires and releases; `none` is a return with an error
abbrev pub Act {ℓ} : Type ℓ → Type ℓ
Act A = Held → Option A × Held

infixl 5 ◌>>=◌
abbrev pub ◌>>=◌ {ℓ κ} : {A : Type ℓ} {B : Type κ} → Act A → (A → Act B) → Act B
◌>>=◌ m f s = let (r, s') = m s in elim r [ none ↦ (none, s') | some a ↦ f a s' ]

infixl 5 ◌>>◌
abbrev pub ◌>>◌ {ℓ κ} : {A : Type ℓ} {B : Type κ} → Act A → Act B → Act B
m >> n = m >>= (λ _. n)

abbrev pub give {ℓ} : {A : Type ℓ} → A → Act A
give a s = (some a, s)

abbrev pub take_out : ℕ → List ℕ → Option (List ℕ)
take_out x [] = none
take_out x (y ∷ ys) =
    let rest : Option (List ℕ) = elim (take_out x ys) [ none ↦ none | some zs ↦ some (y ∷ zs) ] in
    if y == x then some ys else rest

abbrev pub release : ℕ → Held → Held
release x s = elim (take_out x s.objs) [
  | none ↦ record s { stray = x ∷ s.stray }
  | some rest ↦ record s { objs = rest }
]

abbrev pub release_all : List ℕ → Held → Held
release_all [] s = s
release_all (x ∷ xs) s = release_all xs (release x s)

abbrev pub hold : ℕ → Held → Held
hold x s = record s { objs = x ∷ s.objs }

-- `x = x_new(); if(x == NULL) { …free…; return FAIL; }`
abbrev pub new : (ok : Bool) → ℕ → (frees : List ℕ) → Act {0} Unit
new true x frees s = (some tt, hold x s)
new false x frees s = (none, release_all frees s)

-- `if(call(…) != 1) { …free…; return FAIL; }`
abbrev pub check : (ok : Bool) → (frees : List ℕ) → Act {0} Unit
check true frees s = (some tt, s)
check false frees s = (none, release_all frees s)

-- a pointer that stays null if the call fails
abbrev pub try_new : (ok : Bool) → ℕ → Act {0} Unit
try_new true x s = (some tt, hold x s)
try_new false x s = (some tt, s)

abbrev pub free : ℕ → Act {0} Unit
free x s = (some tt, release x s)

-- `free` of a pointer that is null unless `ok`
abbrev pub free_if : (ok : Bool) → ℕ → Act {0} Unit
free_if true x s = (some tt, release x s)
free_if false x s = (some tt, s)

abbrev pub give_up {ℓ} : {A : Type ℓ} → Act A
give_up s = (none, s)

-- `if(f(…) == NULL) { …free…; return FAIL; }`
abbrev pub or_else {ℓ} : {A : Type ℓ} → Act A → (frees : List ℕ) → Act A
or_else m frees s =
    let (r, s') = m s in elim r [ none ↦ (none, release_all frees s') | some a ↦ (some a, s') ]

abbrev pub some_or {ℓ} : {A : Type ℓ} → Option A → (frees : List ℕ) → Act A
some_or none frees s = (none, release_all frees s)
some_or (some a) frees s = (some a, s)
