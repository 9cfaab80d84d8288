-- ===== src/Klciph/Header.antt =====
-- The header and the time of a message, in the places where the walk finds them.
use Prim.Native.Nat.{bit_xor}
use libccll.Base.{ℕ, zero, suc, ◌+◌, ◌≤◌, ◌<◌, ◌≡◌, refl, List, [], ◌∷◌, arith, length}
use libccll.Klciph.{Buffer, Cells, byte, store, mark}
use libccll.Klciph.Enc.{done, Header, put_header, put_time}
use libccll.Klciph.Walk.{pos, pos-ne-beg_idx, pos-injective}
use libccll.Klciph.Marks.{Marks, Marks-mark, Marks-store, reserve-Marks, pos-ne, pos-ne_sym}

-- Index 97 and the places up to step `k` hold what they held.
pub record Keeps (b k : ℕ) (s s' : Cells) : Type 0 where
  pub begins : s'.buffer 97 ≡ s.buffer 97
  pub upto : (j : ℕ) → j ≤ k → s'.buffer (pos b j) ≡ s.buffer (pos b j)

abbrev pub Times : Buffer → ℕ → ℕ → List (ℕ × ℕ) → Type 0
Times buf b k [] = Unit
Times buf b k ((t, key) ∷ ts) = (buf (pos b (suc k)) ≡ bit_xor t key) × Times buf b (suc k) ts

pub put_time-Marks :
    (ts : List (ℕ × ℕ)) {b k : ℕ} {s : Cells}
    → Marks b (suc k) s
    → k + length ts < 254
    → (s' : Cells) × (put_time ts (pos b k) s ≡ done s')
      × Marks b (suc (k + length ts)) s'
      × Times s'.buffer b k ts
      × Keeps b k s s'
unfolding put_time store mark
put_time-Marks [] {b} {k} {s} m h =
    let e : k + zero ≡ k = omega arith in
    (s, refl, rw e m, tt, record { begins = refl; upto = λ j le. refl })
put_time-Marks ((t, key) ∷ ts) {b} {k} {s} m h =
    let e : k + suc (length ts) ≡ suc k + length ts = omega arith in
    let p : ℕ = pos b (suc k) in
    let m' = Marks-store p (bit_xor t key) (Marks-mark m (omega arith)) in
    let (s', eq, marks, times, keeps) = put_time-Marks ts m' (omega arith) in
    (
      s',
      rw (reserve-Marks m (omega arith)) eq,
      rw e marks,
      (ground (arith, keeps.upto (suc k)), times),
      record {
        begins = ground (arith, keeps.begins, pos-ne-beg_idx b (suc k));
        upto = λ j le. ground (arith, keeps.upto j, pos-ne b j (suc k));
      },
    )

pub record HeaderAt (b plen : ℕ) (s : Cells) (h : Header) : Type 0 where
  pub last : h.last ≡ pos b 6
  pub marks : Marks b 7 h.cells
  pub keys : (h.key1 ≡ s.buffer (pos b 2)) × (h.key2 ≡ s.buffer (pos b 6))
  pub begins : h.cells.buffer 97 ≡ s.buffer 97
  pub low : h.cells.buffer (pos b 0) ≡ s.buffer (pos b 0)
  pub high : h.cells.buffer (pos b 1) ≡ bit_xor (s.buffer (pos b 1)) h.key2
  pub first_key : h.cells.buffer (pos b 2) ≡ h.key1
  pub len : h.cells.buffer (pos b 4) ≡ bit_xor (byte plen) h.key1
  pub second_key : h.cells.buffer (pos b 6) ≡ h.key2

-- what the function leaves when the five bytes that it takes follow in the walk
pub header_of : ℕ → ℕ → Cells → Header
header_of b plen s =
    let taken = mark (pos b 4) (mark (pos b 3) (mark (pos b 2) s)) in
    let s' = mark (pos b 6) (mark (pos b 5) (store (pos b 4) (byte plen) taken)) in
    let key1 = s.buffer (pos b 2) in
    let key2 = s'.buffer (pos b 6) in
    let ch1 = store (pos b 1) (bit_xor (s'.buffer (pos b 1)) key2) s' in
    record {
      key1 = key1;
      key2 = key2;
      last = pos b 6;
      cells = store (pos b 4) (bit_xor (ch1.buffer (pos b 4)) key1) ch1;
    }

module _ {b : ℕ} (plen : ℕ) {s : Cells} (m : Marks b 2 s) where
  pub put_header-header_of : put_header (pos b 1) plen s ≡ done (header_of b plen s)
  unfolding put_header header_of store mark
  put_header-header_of =
      let m3 = Marks-mark m (omega arith) in
      let m4 = Marks-mark m3 (omega arith) in
      let m5 = Marks-store (pos b 4) (byte plen) (Marks-mark m4 (omega arith)) in
      let m6 = Marks-mark m5 (omega arith) in
      rw (
        reserve-Marks m (omega arith),
        reserve-Marks m3 (omega arith),
        reserve-Marks m4 (omega arith),
        reserve-Marks m5 (omega arith),
        reserve-Marks m6 (omega arith),
      )

  header_of-Marks : Marks b 7 (header_of b plen s).cells
  unfolding header_of
  header_of-Marks =
      let m4 = Marks-mark (Marks-mark m (omega arith)) (omega arith) in
      let m5 = Marks-store (pos b 4) (byte plen) (Marks-mark m4 (omega arith)) in
      let m7 = Marks-mark (Marks-mark m5 (omega arith)) (omega arith) in
      Marks-store (pos b 4) _ (Marks-store (pos b 1) _ m7)

  pub header_of-HeaderAt : HeaderAt b plen s (header_of b plen s)
  unfolding header_of store mark
  header_of-HeaderAt = record {
    last = refl;
    marks = header_of-Marks;
    keys = (refl, rw (pos-ne_sym b 4 6 (omega arith) (omega arith)));
    begins = ground (arith, pos-ne-beg_idx b 4, pos-ne-beg_idx b 1);
    low = rw (pos-ne b 0 4 (omega arith) (omega arith), pos-ne b 0 1 (omega arith) (omega arith));
    high = ground (arith, pos-injective b 1 4 (omega arith) (omega arith));
    first_key =
        rw (pos-ne b 2 4 (omega arith) (omega arith), pos-ne_sym b 1 2 (omega arith) (omega arith));
    len = ground (arith, pos-injective b 1 4 (omega arith) (omega arith));
    second_key = ground (
      arith,
      pos-injective b 4 6 (omega arith) (omega arith),
      pos-injective b 1 6 (omega arith) (omega arith),
    );
  }
