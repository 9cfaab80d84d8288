-- ===== src/Klciph/Encode.antt =====
-- cipher/klciph.c: `cl_klciph_enc` and the layout of a message.
use Prim.Native.Nat.{bit_xor}
use libccll.Base.{
  NotIn, Distinct, ℕ, zero, suc, ◌+◌, ◌/◌, ◌≤◌, ◌<◌, ◌≡◌, ◌≢◌, refl, sym, ap, ◌∙◌, arith, Bytes,
  length, get_or,
}
use libccll.Klciph.{Clock, Buffer, Cells, byte, ch14s}
use libccll.Klciph.Enc.{
  Outcome, done, fail, ◌>>=◌, Header, idx_amt, tarr, put_characteristic, put_chunks, enc_from,
}
use libccll.Klciph.Walk.{pos, pos-ne-beg_idx, pos-injective}
use libccll.Klciph.Layout.{AllBytes, places, Layout}
use libccll.Klciph.Marks.{Marks, put_places-Marks}
use libccll.Klciph.Header.{
  Times, put_time-Marks, header_of, put_header-header_of, header_of-HeaderAt,
}
use libccll.Klciph.Chunks.{AllTaken, put_chunks-Filled, done-injective}
use libccll.Klciph.Begin.{begun, put_characteristic-Begun}

NotIn-places_before : (b j k n : ℕ) → j ≤ k → k + n < 255 → NotIn (pos b j) (places b k n)
NotIn-places_before b j k zero le h = tt
NotIn-places_before b j k (suc n) le h = (
  pos-injective b j (suc k) (omega arith) (omega arith),
  NotIn-places_before b j (suc k) n (omega arith) (omega arith),
)

NotIn-places_behind : (b j k n : ℕ) → k + n < j → j < 255 → NotIn (pos b j) (places b k n)
NotIn-places_behind b j k zero lt h = tt
NotIn-places_behind b j k (suc n) lt h = (
  (λ e. pos-injective b (suc k) j (omega arith) h (sym e)),
  NotIn-places_behind b j (suc k) n (omega arith) h,
)

NotIn-places_start : (b k n : ℕ) → NotIn 97 (places b k n)
NotIn-places_start b k zero = tt
NotIn-places_start b k (suc n) =
    ((λ e. pos-ne-beg_idx b (suc k) (sym e)), NotIn-places_start b (suc k) n)

Distinct-places : (b k n : ℕ) → k + n < 255 → Distinct (places b k n)
Distinct-places b k zero h = tt
Distinct-places b k (suc n) h = (
  NotIn-places_before b (suc k) (suc k) n (omega arith) (omega arith),
  Distinct-places b (suc k) n (omega arith),
)

AllTaken-places :
    (b k n m : ℕ) (s : Cells) → Marks b m s → k + n < m → AllTaken (places b k n) s.bucket
AllTaken-places b k zero m s marks h = tt
AllTaken-places b k (suc n) m s marks h =
    (marks.used (suc k) (omega arith), AllTaken-places b (suc k) n m s marks (omega arith))

pub >>=-eq-done :
    {A B : Type 0} (m : Outcome A) (f : A → Outcome B) {b : B}
    → (m >>= f) ≡ done b
    → (a : A) × (m ≡ done a) × (f a ≡ done b)
>>=-eq-done (done a) f h = (a, refl, h)
>>=-eq-done (fail o) f h = cc

-- The cells before the last loop, and the keys.
record Prepared (b chidx : ℕ) (buffer : Buffer) (frd : Bytes) (now : Clock) (plain : Bytes)
    : Type 0 where
  key1 : ℕ
  key2 : ℕ
  cells : Cells
  keys : (key1 ≡ buffer (pos b 2)) × (key2 ≡ buffer (pos b 6))
  marks : Marks b (suc (idx_amt (length plain) + 6 + 4)) cells
  begins : cells.buffer 97 ≡ pos b 0
  low : cells.buffer (pos b 0) ≡ byte (get_or ch14s chidx 0)
  high : cells.buffer (pos b 1) ≡ bit_xor (get_or ch14s chidx 0 / 256) key2
  first_key : cells.buffer (pos b 2) ≡ key1
  len : cells.buffer (pos b 4) ≡ bit_xor (byte (length plain)) key1
  second_key : cells.buffer (pos b 6) ≡ key2
  times : Times cells.buffer b (idx_amt (length plain) + 6) (tarr now key1 key2)
  ready : enc_from chidx b buffer frd now plain ≡ (do
    s ← put_chunks (places b 6 (idx_amt (length plain))) plain key1 key2 frd cells
    done s.buffer)

module _ (b chidx : ℕ) (buffer : Buffer) (frd : Bytes) (now : Clock) (plain : Bytes) (lt : b < 256)
    (ne : b ≢ 97) (short : length plain ≤ 120) where
  prepare : Prepared b chidx buffer frd now plain
  unfolding enc_from begun
  prepare =
      let ch : ℕ = get_or ch14s chidx 0 in
      let n : ℕ = idx_amt (length plain) in
      let g = put_characteristic-Begun b ch buffer lt ne in
      let s : Cells = (put_characteristic b ch (begun b buffer)).1 in
      let h : Header = header_of b (length plain) s in
      let at = header_of-HeaderAt (length plain) g.marks in
      let (placed, marks, same) = put_places-Marks n at.marks (omega arith) in
      let (s', timed, marks', times, keeps) =
        put_time-Marks (tarr now h.key1 h.key2) marks (omega arith) in
      let kept : (j : ℕ) → j ≤ n + 6 → s'.buffer (pos b j) ≡ h.cells.buffer (pos b j) =
        λ j le. keeps.upto j le ∙ ap (λ (f : Buffer). f (pos b j)) same in
      record {
        key1 = h.key1;
        key2 = h.key2;
        cells = s';
        keys = (
          at.keys.0 ∙ g.rest 2 (omega arith) (omega arith),
          at.keys.1 ∙ g.rest 6 (omega arith) (omega arith),
        );
        marks = marks';
        begins = keeps.begins ∙ ap (λ (f : Buffer). f 97) same ∙ at.begins ∙ g.begins;
        low = kept 0 (omega arith) ∙ at.low ∙ g.low;
        high = kept 1 (omega arith) ∙ at.high ∙ ap (λ (t : ℕ). bit_xor t h.key2) g.high;
        first_key = kept 2 (omega arith) ∙ at.first_key;
        len = kept 4 (omega arith) ∙ at.len;
        second_key = kept 6 (omega arith) ∙ at.second_key;
        times = times;
        ready = rw (g.place, put_header-header_of (length plain) g.marks, at.last, placed, timed);
      }

  -- What the function leaves in the buffer when it succeeds has the layout.
  pub enc_from-Layout :
      {b' : Buffer}
      → AllBytes frd
      → enc_from chidx b buffer frd now plain ≡ done b'
      → Layout b' b (buffer (pos b 2)) (buffer (pos b 6)) (get_or ch14s chidx 0) now plain
  enc_from-Layout {b'} all e =
      let n : ℕ = idx_amt (length plain) in
      let p = prepare in
      let (s', filled_eq, out) =
        >>=-eq-done (put_chunks (places b 6 n) plain p.key1 p.key2 frd p.cells) (λ s. done s.buffer)
          (sym p.ready ∙ e) in
      let taken = AllTaken-places b 6 n _ p.cells p.marks (omega arith) in
      let filled =
        put_chunks-Filled (places b 6 n) plain p.key1 p.key2 frd p.cells s' all taken
          (Distinct-places b 6 n (omega arith)) filled_eq in
      let same : s'.buffer ≡ b' = done-injective out in
      let early : (j : ℕ) → j ≤ 6 → s'.buffer (pos b j) ≡ p.cells.buffer (pos b j) = λ j le.
        filled.frame (pos b j) (p.marks.used j (omega arith))
          (NotIn-places_before b j 6 n le (omega arith)) in
      let late : (j : ℕ) → 6 + n < j → j < n + 11 → s'.buffer (pos b j) ≡ p.cells.buffer (pos b j) =
        λ j lo hi.
          filled.frame (pos b j) (p.marks.used j (omega arith))
            (NotIn-places_behind b j 6 n lo (omega arith)) in
      rw (← same, ← p.keys.0, ← p.keys.1)
        (record {
          begins = filled.frame 97 p.marks.skips (NotIn-places_start b 6 n) ∙ p.begins;
          low = early 0 (omega arith) ∙ p.low;
          high = early 1 (omega arith) ∙ p.high;
          first_key = early 2 (omega arith) ∙ p.first_key;
          len = early 4 (omega arith) ∙ p.len;
          second_key = early 6 (omega arith) ∙ p.second_key;
          minute = late (suc (n + 6)) (omega arith) (omega arith) ∙ p.times.0;
          mday = late (suc (suc (n + 6))) (omega arith) (omega arith) ∙ p.times.1.0;
          hour = late (suc (suc (suc (n + 6)))) (omega arith) (omega arith) ∙ p.times.1.1.0;
          sec = late (suc (suc (suc (suc (n + 6))))) (omega arith) (omega arith) ∙ p.times.1.1.1.0;
          chunks = filled.chunks;
        })
