-- ===== src/Klciph/Decode.antt =====
-- cipher/klciph.c: `cl_klciph_dec` on a message that has the layout, and its time.
use Prim.Native.Nat.{bit_xor, bit_or, bit_and}
use libccll.Base.{
  ℕ, ◌+◌, ◌-◌, ◌*◌, ◌/◌, ◌%◌, ◌≤◌, ◌<◌, ◌≡◌, refl, ◌∙◌, Bool, true, false, not, ◌&&◌, Option, none,
  some, ltb, ltb→lt, &&-true, ◌==◌, if◌then◌else◌, arith, Bytes, length, get_or,
}
use libccll.Base.Bits.{holds_below, holds_below_elim}
use libccll.Klciph.{Clock, Buffer, byte, ch14s}
use libccll.Klciph.Enc.{idx_amt}
use libccll.Klciph.Dec.{is_characteristic, get_chunks, is_fresh, dec_body, dec_from}
use libccll.Klciph.Walk.{pos, get_next_idx-pos}
use libccll.Klciph.Layout.{AllBytes, Layout}
use libccll.Klciph.Read.{read_byte, skip-pos, length-get_chunks, get_chunks-Chunks}

-- The text was sent in the same hour of the same day, at most six seconds ago.
pub record IsFresh (sent now : Clock) : Type 0 where
  pub same_day : byte sent.mday ≡ byte now.mday
  pub same_hour : byte sent.hour ≡ byte now.hour
  pub not_later : byte sent.minute * 60 + byte sent.sec ≤ byte now.minute * 60 + byte now.sec
  pub recent : byte now.minute * 60 + byte now.sec ≤ byte sent.minute * 60 + byte sent.sec + 6

pub is_fresh-IsFresh :
    (sent now : Clock)
    → IsFresh sent now
    → is_fresh (byte sent.minute) (byte sent.mday) (byte sent.hour) (byte sent.sec) now ≡ true
unfolding is_fresh
is_fresh-IsFresh sent now f = ground arith

-- the test is no weaker than the predicate
pub IsFresh-of_is_fresh :
    (sent now : Clock)
    → is_fresh (byte sent.minute) (byte sent.mday) (byte sent.hour) (byte sent.sec) now ≡ true
    → IsFresh sent now
unfolding is_fresh
IsFresh-of_is_fresh sent now h = record {
  same_day = ground arith;
  same_hour = ground arith;
  not_later = ground arith;
  recent = ground arith;
}

if-not {ℓ} : {A : Type ℓ} (t : Bool) (x y : A) → (if not t then x else y) ≡ (if t then y else x)
if-not true x y = refl
if-not false x y = refl

module _ {buf : Buffer} {b key1 key2 ch : ℕ} {sent : Clock} {xs : Bytes}
    (l : Layout buf b key1 key2 ch sent xs) (h1 : key1 < 256) (h2 : key2 < 256) (all : AllBytes xs)
    (now : Clock) (max_plen : ℕ) (fits : length xs ≤ 120) (room : length xs ≤ max_plen) where
  amt_lem : byte (idx_amt (length xs)) ≡ idx_amt (length xs)
  amt_lem = omega arith

  k_lem :
      length (get_chunks (idx_amt (length xs)) (pos b 6) buf key1 key2) - (4 - length xs % 4) % 4
      ≡ length xs
  k_lem = omega (arith, length-get_chunks (idx_amt (length xs)) (pos b 6) buf key1 key2)

  -- what becomes of a message that has the layout, by its age
  abbrev verdict : Option Bytes
  verdict =
      if is_fresh (byte sent.minute) (byte sent.mday) (byte sent.hour) (byte sent.sec) now
      then some xs
      else none

  dec_body-Layout : dec_body buf key1 key2 (pos b 6) (length xs) now max_plen ≡ verdict
  unfolding dec_body
  dec_body-Layout =
      let minute = read_byte buf _ (byte sent.minute) key1 l.minute (omega arith) h1 in
      let mday = read_byte buf _ (byte sent.mday) key1 l.mday (omega arith) h1 in
      let hour = read_byte buf _ (byte sent.hour) key2 l.hour (omega arith) h2 in
      let sec = read_byte buf _ (byte sent.sec) key2 l.sec (omega arith) h2 in
      let plain =
        get_chunks-Chunks buf key1 key2 h1 h2 (idx_amt (length xs)) b 6 xs all (omega arith)
          l.chunks in
      let kept : (length xs == length xs) ≡ true = ground arith in
      let fitting : ltb max_plen (length xs) ≡ false = ground arith in
      rw (amt_lem, skip-pos)
        (simp get_next_idx-pos (
          rw (minute, mday, hour, sec)
            (rw (k_lem, kept, fitting, plain)
              (if-not
                (is_fresh (byte sent.minute) (byte sent.mday) (byte sent.hour) (byte sent.sec) now)
                none (some xs)))))

  -- A message that has the layout, with a characteristic of the table, is read: its text is
  -- returned if it is fresh.
  pub dec_from-Layout :
      is_characteristic (bit_or (byte ch) (bit_and (ch / 256 * 256) 0xff00)) ch14s ≡ true
      → ch < 65536
      → dec_from buf now max_plen ≡ verdict
  unfolding dec_from
  dec_from-Layout known hc =
      let high = read_byte buf _ (ch / 256) key2 l.high (omega arith) h2 in
      let len : bit_xor (buf (pos b 4)) key1 ≡ length xs =
        read_byte buf _ (byte (length xs)) key1 l.len (omega arith) h1 ∙ omega arith in
      let short : ltb 120 (length xs) ≡ false = ground arith in
      rw l.begins (
        simp get_next_idx-pos
          (rw (l.first_key, l.second_key, high, l.low, known, len, short) dec_body-Layout))

characteristic_row : ℕ → Bool
characteristic_row c =
    let ch : ℕ = get_or ch14s c 0 in
    is_characteristic (bit_or (byte ch) (bit_and (ch / 256 * 256) 0xff00)) ch14s && ltb ch 65536

characteristic_table : holds_below 16 characteristic_row ≡ true
unfolding holds_below characteristic_row is_characteristic
characteristic_table = refl

-- The two stored bytes of an entry of the table make up that entry again.
pub characteristic_lem :
    (c : ℕ)
    → c < 16
    → (is_characteristic
          (bit_or (byte (get_or ch14s c 0)) (bit_and (get_or ch14s c 0 / 256 * 256) 0xff00))
          ch14s
        ≡ true)
      × (get_or ch14s c 0 < 65536)
unfolding characteristic_row
characteristic_lem c lt =
    let row = &&-true _ _ (holds_below_elim 16 characteristic_row characteristic_table c lt) in
    (row.0, ltb→lt _ _ row.1)
