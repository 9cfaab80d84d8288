-- ===== src/Klciph/Layout.antt =====
-- What the 256 bytes of a message hold, by themselves: the rule in the comment of `cl_klciph_enc`.
use Prim.Native.Nat.{bit_xor}
use libccll.Base.{
  ℕ, zero, suc, ◌+◌, ◌/◌, ◌<◌, ◌≡◌, List, [], ◌∷◌, if◌then◌else◌, Bytes, length, drop,
}
use libccll.Klciph.{Clock, Buffer, byte, wrap}
use libccll.Klciph.Enc.{is_odd, idx_amt}
use libccll.Klciph.Walk.{pos}

abbrev pub AllBytes : Bytes → Type 0
AllBytes [] = Unit
AllBytes (x ∷ xs) = (x < 256) × AllBytes xs

-- the `n` places of the walk from `b` that follow step `k`
abbrev pub places : ℕ → ℕ → ℕ → List ℕ
places b k zero = []
places b k (suc n) = pos b (suc k) ∷ places b (suc k) n

-- From `i` on, round the end, stand the first bytes of `xs`, at most `n`, under `key`.
abbrev pub Stored : Buffer → ℕ → ℕ → ℕ → Bytes → Type 0
Stored buf key zero i xs = Unit
Stored buf key (suc n) i [] = Unit
Stored buf key (suc n) i (x ∷ xs) = (buf i ≡ bit_xor x key) × Stored buf key n (wrap (i + 1)) xs

-- Each of the places holds an index under a key, and four bytes stand there under the other key.
abbrev pub Chunks : Buffer → (key1 key2 : ℕ) → List ℕ → Bytes → Type 0
Chunks buf key1 key2 [] xs = Unit
Chunks buf key1 key2 (p ∷ ps) xs =
    ((i : ℕ) × (i < 256)
      × (buf p ≡ bit_xor i (if is_odd p then key1 else key2))
      × Stored buf (if is_odd p then key2 else key1) 4 i xs)
    × Chunks buf key1 key2 ps (drop 4 xs)

pub record Layout (buf : Buffer) (b key1 key2 ch : ℕ) (now : Clock) (xs : Bytes) : Type 0 where
  pub begins : buf 97 ≡ pos b 0
  pub low : buf (pos b 0) ≡ byte ch
  pub high : buf (pos b 1) ≡ bit_xor (ch / 256) key2
  pub first_key : buf (pos b 2) ≡ key1
  pub len : buf (pos b 4) ≡ bit_xor (byte (length xs)) key1
  pub second_key : buf (pos b 6) ≡ key2
  pub minute : buf (pos b (suc (idx_amt (length xs) + 6))) ≡ bit_xor (byte now.minute) key1
  pub mday : buf (pos b (suc (suc (idx_amt (length xs) + 6)))) ≡ bit_xor (byte now.mday) key1
  pub hour : buf (pos b (suc (suc (suc (idx_amt (length xs) + 6))))) ≡ bit_xor (byte now.hour) key2
  pub sec :
      buf (pos b (suc (suc (suc (suc (idx_amt (length xs) + 6)))))) ≡ bit_xor (byte now.sec) key2
  pub chunks : Chunks buf key1 key2 (places b 6 (idx_amt (length xs))) xs
