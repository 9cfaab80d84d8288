-- ===== src/Base/Bits.antt =====
-- Exclusive or on bytes.
use Prim.Native.Nat.{ℕ, zero, suc, ◌<◌, bit_xor}
use mathlib.Core.Path.{◌≡◌, refl}
use mathlib.Core.Bool.{Bool, true, ◌&&◌}
use native.Mathlib.Omega.{arith}
use libccll.Base.Tests.{&&-true, ◌==◌, ltb}

-- whether a test holds of the numbers less than a bound, by trying each of them
unfoldable pub holds_below : ℕ → (ℕ → Bool) → Bool
holds_below zero test = true
holds_below (suc bound) test = holds_below bound test && test bound

pub holds_below_elim :
    (bound : ℕ) (test : ℕ → Bool)
    → holds_below bound test ≡ true
    → (i : ℕ) → i < bound
    → test i ≡ true
unfolding holds_below
holds_below_elim zero test tried i small = absurd (omega arith)
holds_below_elim (suc bound) test tried i small =
    let both = &&-true (holds_below bound test) (test bound) tried in
    let earlier : i < bound → test i ≡ true = holds_below_elim bound test both.0 i in
    ground (arith, earlier, both.1)

xor_cell : ℕ → ℕ → Bool
xor_cell x k = bit_xor (bit_xor x k) k == x && ltb (bit_xor x k) 256

xor_row : ℕ → Bool
xor_row x = holds_below 256 (xor_cell x)

xor_table : holds_below 256 xor_row ≡ true
unfolding holds_below xor_row xor_cell
xor_table = refl

xor_cell-true : (x k : ℕ) → x < 256 → k < 256 → xor_cell x k ≡ true
unfolding xor_row
xor_cell-true x k hx hk =
    holds_below_elim 256 (xor_cell x) (holds_below_elim 256 xor_row xor_table x hx) k hk

pub bit_xor_twice : (x k : ℕ) → x < 256 → k < 256 → bit_xor (bit_xor x k) k ≡ x
unfolding xor_cell
bit_xor_twice x k hx hk = ground (arith, xor_cell-true x k hx hk)

pub bit_xor-lt : (x k : ℕ) → x < 256 → k < 256 → bit_xor x k < 256
unfolding xor_cell
bit_xor-lt x k hx hk = ground (arith, xor_cell-true x k hx hk)
