-- ===== src/Klciph/Store.antt =====
-- cipher/klciph.c: `_put_data` and the buffer behind it.
use Prim.Native.Nat.{bit_xor}
use libccll.Base.{ℕ, zero, suc, ◌+◌, ◌<◌, ◌≡◌, ◌≢◌, refl, true, false, [], ◌∷◌, arith, Bytes}
use libccll.Klciph.{Cells, wrap, store, mark, is_taken}
use libccll.Klciph.Enc.{put_bytes}

-- The `n` bytes from `i` on are free.
abbrev pub IsFree : ℕ → ℕ → Cells → Type 0
IsFree zero i s = Unit
IsFree (suc n) i s = (s.bucket i ≡ false) × IsFree n (wrap (i + 1)) s

-- `j` is none of the `n` bytes from `i` on.
abbrev pub Outside : ℕ → ℕ → ℕ → Type 0
Outside j zero i = Unit
Outside j (suc n) i = (j ≢ i) × Outside j n (wrap (i + 1))

-- The `n` bytes from `i` on are different ones.
abbrev pub Apart : ℕ → ℕ → Type 0
Apart zero i = Unit
Apart (suc n) i = Outside i n (wrap (i + 1)) × Apart n (wrap (i + 1))

-- The bytes of `xs` stand under `key` from `i` on, and are taken.
abbrev pub Kept : ℕ → ℕ → ℕ → Bytes → Cells → Type 0
Kept key zero i xs s = Unit
Kept key (suc n) i [] s = Unit
Kept key (suc n) i (x ∷ xs) s =
    (s.buffer i ≡ bit_xor x key) × (s.bucket i ≡ true) × Kept key n (wrap (i + 1)) xs s

pub Apart-four : (i : ℕ) → i < 256 → Apart 4 i
unfolding wrap
Apart-four i h = ground arith

pub is_taken-IsFree : (i : ℕ) (s : Cells) → is_taken s.bucket i ≡ false → IsFree 4 i s
unfolding is_taken
is_taken-IsFree i s h = ground arith

-- A taken byte lies outside a free stretch.
pub Outside-of_taken : (n i j : ℕ) (s : Cells) → s.bucket j ≡ true → IsFree n i s → Outside j n i
Outside-of_taken zero i j s h free = tt
Outside-of_taken (suc n) i j s h free =
    (ground arith, Outside-of_taken n (wrap (i + 1)) j s h free.1)

-- Outside its stretch the function changes no byte, and it frees none.
pub put_bytes-Outside :
    (n : ℕ) (xs : Bytes) (key i j : ℕ) (s : Cells)
    → Outside j n i
    → ((put_bytes n xs key i s).buffer j ≡ s.buffer j)
      × ((put_bytes n xs key i s).bucket j ≡ s.bucket j)
unfolding put_bytes store mark
put_bytes-Outside zero xs key i j s out = (refl, refl)
put_bytes-Outside (suc n) [] key i j s out = (refl, refl)
put_bytes-Outside (suc n) (x ∷ xs) key i j s out =
    ground (
      arith,
      put_bytes-Outside n xs key (wrap (i + 1)) j (mark i (store i (bit_xor x key) s)) out.1,
    )

pub put_bytes-Kept :
    (n : ℕ) (xs : Bytes) (key i : ℕ) (s : Cells)
    → Apart n i
    → Kept key n i xs (put_bytes n xs key i s)
unfolding put_bytes store mark
put_bytes-Kept zero xs key i s apart = tt
put_bytes-Kept (suc n) [] key i s apart = tt
put_bytes-Kept (suc n) (x ∷ xs) key i s apart =
    let s' : Cells = mark i (store i (bit_xor x key) s) in
    let here = put_bytes-Outside n xs key (wrap (i + 1)) i s' apart.0 in
    (ground (arith, here), ground (arith, here), put_bytes-Kept n xs key (wrap (i + 1)) s' apart.1)
