-- ===== src/Klciph/Read.antt =====
-- cipher/klciph.c: the parts of `cl_klciph_dec` on a message that has the layout.
use Prim.Native.Nat.{bit_xor}
use libccll.Base.{
  ℕ, zero, suc, ◌+◌, ◌*◌, ◌≤◌, ◌<◌, ◌≡◌, refl, ap, ◌∙◌, Bool, true, false, [], ◌∷◌, ◌++◌,
  if◌then◌else◌, arith, Bytes, length, take, drop, length-drop,
}
use libccll.Base.Bits.{bit_xor_twice}
use libccll.Klciph.{Buffer, wrap}
use libccll.Klciph.Enc.{is_odd}
use libccll.Klciph.Dec.{get_next_idx, skip, inc_where, get_chunk, get_chunks}
use libccll.Klciph.Walk.{pos, get_next_idx-pos}
use libccll.Klciph.Layout.{AllBytes, places, Stored, Chunks}

-- the two ways in which the source steps round the end
inc_where-wrap : (i : ℕ) → inc_where i ≡ wrap (i + 1)
unfolding inc_where wrap
inc_where-wrap i = ground arith

-- A byte under a key is read back.
pub read_byte :
    (buf : Buffer) (i x key : ℕ)
    → buf i ≡ bit_xor x key
    → x < 256
    → key < 256
    → bit_xor (buf i) key ≡ x
read_byte buf i x key h hx hk = rw h (bit_xor_twice x key hx hk)

pub skip-pos : (n b k : ℕ) → skip n (pos b k) ≡ pos b (n + k)
unfolding skip
skip-pos zero b k = ap (pos b) (omega arith)
skip-pos (suc n) b k = rw get_next_idx-pos (skip-pos n b (suc k) ∙ ap (pos b) (omega arith))

pub length-get_chunks :
    (n idx : ℕ) (buf : Buffer) (key1 key2 : ℕ) → length (get_chunks n idx buf key1 key2) ≡ 4 * n
unfolding get_chunks get_chunk
length-get_chunks zero idx buf key1 key2 = refl
length-get_chunks (suc n) idx buf key1 key2 =
    omega (arith, length-get_chunks n (get_next_idx idx) buf key1 key2)

module _ (buf : Buffer) (key : ℕ) (hk : key < 256) where
  -- The four bytes read behind an index begin with the bytes stored there.
  get_chunk-Stored :
      (i : ℕ) (xs rest : Bytes)
      → AllBytes xs
      → Stored buf key 4 i xs
      → take (length xs) (get_chunk buf key i ++ rest) ≡ take 4 xs ++ take (length (drop 4 xs)) rest
  unfolding get_chunk
  get_chunk-Stored i [] rest all h = refl
  get_chunk-Stored i (x1 ∷ []) rest all h = rw (read_byte buf i x1 key h.0 all.0 hk)
  get_chunk-Stored i (x1 ∷ x2 ∷ []) rest all h =
      simp inc_where-wrap
        (rw (read_byte buf i x1 key h.0 all.0 hk, read_byte buf _ x2 key h.1.0 all.1.0 hk))
  get_chunk-Stored i (x1 ∷ x2 ∷ x3 ∷ []) rest all h = simp inc_where-wrap (
      rw (
        read_byte buf i x1 key h.0 all.0 hk,
        read_byte buf _ x2 key h.1.0 all.1.0 hk,
        read_byte buf _ x3 key h.1.1.0 all.1.1.0 hk,
      ))
  get_chunk-Stored i (x1 ∷ x2 ∷ x3 ∷ x4 ∷ xs) rest all h = simp inc_where-wrap (
      rw (
        read_byte buf i x1 key h.0 all.0 hk,
        read_byte buf _ x2 key h.1.0 all.1.0 hk,
        read_byte buf _ x3 key h.1.1.0 all.1.1.0 hk,
        read_byte buf _ x4 key h.1.1.1.0 all.1.1.1.0 hk,
      ))

pub AllBytes-drop : (n : ℕ) (xs : Bytes) → AllBytes xs → AllBytes (drop n xs)
AllBytes-drop zero xs all = all
AllBytes-drop (suc n) [] all = all
AllBytes-drop (suc n) (x ∷ xs) all = AllBytes-drop n xs all.1

choose-lt : (b : Bool) (x y : ℕ) → x < 256 → y < 256 → (if b then x else y) < 256
choose-lt true x y hx hy = hx
choose-lt false x y hx hy = hy

take-append-drop : (n : ℕ) (xs : Bytes) → take n xs ++ drop n xs ≡ xs
take-append-drop zero xs = refl
take-append-drop (suc n) [] = refl
take-append-drop (suc n) (x ∷ xs) = rw (take-append-drop n xs)

module _ (buf : Buffer) (key1 key2 : ℕ) (h1 : key1 < 256) (h2 : key2 < 256) where
  -- The loop of step 8 begins with the text whose chunks the buffer holds.
  pub get_chunks-Chunks :
      (n b k : ℕ) (xs : Bytes)
      → AllBytes xs
      → length xs ≤ 4 * n
      → Chunks buf key1 key2 (places b k n) xs
      → take (length xs) (get_chunks n (pos b k) buf key1 key2) ≡ xs
  unfolding get_chunks
  get_chunks-Chunks zero b k [] all fits c = refl
  get_chunks-Chunks zero b k (x ∷ xs) all fits c = absurd (omega arith)
  get_chunks-Chunks (suc n) b k xs all fits ((i, hi, at_i, stored), c) =
      let p : ℕ = pos b (suc k) in
      let index = read_byte buf p i _ at_i hi (choose-lt (is_odd p) key1 key2 h1 h2) in
      let chunk =
        get_chunk-Stored buf _ (choose-lt (is_odd p) key2 key1 h2 h1) i xs
          (get_chunks n p buf key1 key2) all stored in
      let later =
        get_chunks-Chunks n b (suc k) (drop 4 xs) (AllBytes-drop 4 xs all)
          (omega (arith, length-drop 4 xs)) c in
      rw (get_next_idx-pos, index, chunk, later) (take-append-drop 4 xs)
