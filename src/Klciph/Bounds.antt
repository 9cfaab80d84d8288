-- ===== src/Klciph/Bounds.antt =====
-- What `cl_klciph_dec` may write, whatever bytes it is given.
use libccll.Base.{
  ℕ, zero, suc, ◌-◌, ◌%◌, ◌≤◌, ◌≡◌, Bool, Option, none, some, [], ◌∷◌, arith, Bytes, length, take,
  get_or,
}
use Prim.Native.Nat.{bit_xor}
use libccll.Klciph.{Clock, Buffer, byte}
use libccll.Klciph.Enc.{idx_amt}
use libccll.Klciph.Dec.{get_next_idx, get_chunks, dec_body, dec_from, cl_klciph_dec}

length-take-le : (n : ℕ) (xs : Bytes) → length (take n xs) ≤ n
length-take-le zero xs = omega arith
length-take-le (suc n) [] = omega arith
length-take-le (suc n) (x ∷ xs) = omega (arith, length-take-le n xs)

dec_body-bounds :
    (buf : Buffer) (key1 key2 idx len : ℕ) (now : Clock) (max_plen : ℕ) (xs : Bytes)
    → len ≤ 120
    → dec_body buf key1 key2 idx len now max_plen ≡ some xs
    → (length xs ≤ max_plen) × (length xs ≤ 120)
unfolding dec_body
dec_body-bounds buf key1 key2 idx len now max_plen xs le e =
    let plain_buf : Bytes = get_chunks (byte (idx_amt len)) idx buf key1 key2 in
    let k : ℕ = length plain_buf - (4 - len % 4) % 4 in ground (arith, length-take-le k plain_buf)

dec_from-bounds :
    (buf : Buffer) (now : Clock) (max_plen : ℕ) (xs : Bytes)
    → dec_from buf now max_plen ≡ some xs
    → (length xs ≤ max_plen) × (length xs ≤ 120)
unfolding dec_from
dec_from-bounds buf now max_plen xs e =
    let i2 : ℕ = get_next_idx (get_next_idx (buf 97)) in
    let i4 : ℕ = get_next_idx (get_next_idx i2) in
    let i6 : ℕ = get_next_idx (get_next_idx i4) in
    ground
      (arith, dec_body-bounds buf (buf i2) (buf i6) i6 (bit_xor (buf i4) (buf i2)) now max_plen xs)

-- For every cipher, also one that was made up: the text that `cl_klciph_dec` delivers is no longer
-- than the caller's `max_plen`, and no longer than 120 bytes.
pub dec_bounds :
    (cipher : Option Bytes) (outputs : Bool) (now : Clock) (max_plen : ℕ) (xs : Bytes)
    → cl_klciph_dec cipher outputs now max_plen ≡ some xs
    → (length xs ≤ max_plen) × (length xs ≤ 120)
unfolding cl_klciph_dec
dec_bounds none outputs now max_plen xs e = cc
dec_bounds (some cipher) outputs now max_plen xs e =
    ground (arith, dec_from-bounds (λ i. get_or cipher i 0) now max_plen xs)
