-- ===== src/Klciph/RoundTrip.antt =====
-- cipher/klciph.c: encryption followed by decryption.
use mathlib.Core.Path.{subst}
use libccll.Base.{
  if◌then◌else◌, ℕ, zero, suc, ◌+◌, ◌≤◌, ◌<◌, ◌≡◌, refl, sym, ap, ◌∙◌, inl, inr, true, Option, none,
  some, [], ◌∷◌, ◌==◌, ltb, ◌||◌, arith, Bytes, length, get_or, drop, Bool-cases,
}
use libccll.Klciph.{
  byte, Clock, Buffer, wrap, ch14s, max_plain_bytes, get_char_idx, get_begin_idx, init_buffer,
}
use libccll.Klciph.Enc.{done, or_close, enc_from, bytes_from, enc_open, cl_klciph_enc, idx_amt}
use libccll.Klciph.Dec.{is_fresh, cl_klciph_dec}
use libccll.Klciph.Walk.{pos, pos-lt}
use libccll.Klciph.Layout.{AllBytes, places, Stored, Chunks, Layout}
use libccll.Klciph.Read.{AllBytes-drop}
use libccll.Klciph.Decode.{
  IsFresh, is_fresh-IsFresh, IsFresh-of_is_fresh, dec_from-Layout, characteristic_lem,
}
use libccll.Klciph.Begin.{get_begin_idx-some}
use libccll.Klciph.Encode.{enc_from-Layout, >>=-eq-done}
use libccll.Klciph.Chunks.{done-injective}

length-bytes_from : (i n : ℕ) (b : Buffer) → length (bytes_from i n b) ≡ n
unfolding bytes_from
length-bytes_from i zero b = refl
length-bytes_from i (suc n) b = ap suc (length-bytes_from (i + 1) n b)

get_or-bytes_from : (i n j : ℕ) (b : Buffer) → j < n → get_or (bytes_from i n b) j 0 ≡ b (i + j)
unfolding bytes_from
get_or-bytes_from i zero j b h = absurd (omega arith)
get_or-bytes_from i (suc n) zero b h = ap b (omega arith)
get_or-bytes_from i (suc n) (suc j) b h =
    get_or-bytes_from (i + 1) n j b (omega arith) ∙ ap b (omega arith)

get_or-lt : (xs : Bytes) (i : ℕ) → AllBytes xs → get_or xs i 0 < 256
get_or-lt [] i all = omega arith
get_or-lt (x ∷ xs) zero all = all.0
get_or-lt (x ∷ xs) (suc i) all = get_or-lt xs i all.1

wrap-lt : (i : ℕ) → i < 256 → wrap (i + 1) < 256
unfolding wrap
wrap-lt i h = ground arith

module _ (buf buf' : Buffer) (agree : (j : ℕ) → j < 256 → buf' j ≡ buf j) where
  Stored-agree :
      (key n i : ℕ) (xs : Bytes) → i < 256 → Stored buf key n i xs → Stored buf' key n i xs
  Stored-agree key zero i xs h s = tt
  Stored-agree key (suc n) i [] h s = tt
  Stored-agree key (suc n) i (x ∷ xs) h s =
      (agree i h ∙ s.0, Stored-agree key n (wrap (i + 1)) xs (wrap-lt i h) s.1)

  Chunks-agree :
      (key1 key2 b k n : ℕ) (xs : Bytes)
      → Chunks buf key1 key2 (places b k n) xs
      → Chunks buf' key1 key2 (places b k n) xs
  Chunks-agree key1 key2 b k zero xs c = tt
  Chunks-agree key1 key2 b k (suc n) xs ((i, lt, at_i, stored), later) = (
    (i, lt, agree _ (pos-lt b (suc k)) ∙ at_i, Stored-agree _ 4 i xs lt stored),
    Chunks-agree key1 key2 b (suc k) n (drop 4 xs) later,
  )

  -- The layout speaks of the 256 bytes alone.
  Layout-agree :
      {b key1 key2 ch : ℕ} {now : Clock} {xs : Bytes}
      → Layout buf b key1 key2 ch now xs
      → Layout buf' b key1 key2 ch now xs
  Layout-agree {b} {key1} {key2} {xs} l = record {
    begins = agree 97 (omega arith) ∙ l.begins;
    low = agree _ (pos-lt b _) ∙ l.low;
    high = agree _ (pos-lt b _) ∙ l.high;
    first_key = agree _ (pos-lt b _) ∙ l.first_key;
    len = agree _ (pos-lt b _) ∙ l.len;
    second_key = agree _ (pos-lt b _) ∙ l.second_key;
    minute = agree _ (pos-lt b _) ∙ l.minute;
    mday = agree _ (pos-lt b _) ∙ l.mday;
    hour = agree _ (pos-lt b _) ∙ l.hour;
    sec = agree _ (pos-lt b _) ∙ l.sec;
    chunks = Chunks-agree key1 key2 b 6 (idx_amt (length xs)) xs l.chunks;
  }

or_close-done : {A : Type 0} (o : Option A) {a : A} → or_close o ≡ done a → o ≡ some a
or_close-done none h = cc
or_close-done (some a) h = cc

-- the draws of step 1
abbrev CharDrawn : Option (ℕ × Bytes) → Type 0
CharDrawn none = Unit
CharDrawn (some (c, rest)) = (c < 16) × AllBytes rest

get_char_idx-CharDrawn : (frd : Bytes) → AllBytes frd → CharDrawn (get_char_idx frd)
unfolding get_char_idx
get_char_idx-CharDrawn [] all = tt
get_char_idx-CharDrawn (x ∷ frd) all = (omega arith, all.1)

abbrev Filled : Option (Buffer × Bytes) → Type 0
Filled none = Unit
Filled (some (buffer, rest)) = ((j : ℕ) → buffer j < 256) × AllBytes rest

init_buffer-Filled : (frd : Bytes) → AllBytes frd → Filled (init_buffer frd)
unfolding init_buffer
init_buffer-Filled frd all = elim (Bool-cases (ltb (length frd) 256)) [
  | inl short ↦ rw short tt
  | inr fine ↦ rw fine ((λ j. get_or-lt frd j all), AllBytes-drop 256 frd all)
]

-- A cipher that the function delivers is the 256 bytes of a buffer that has the layout.
record Message (now : Clock) (plain cipher : Bytes) : Type 0 where
  buffer : Buffer
  b : ℕ
  key1 : ℕ
  key2 : ℕ
  c : ℕ
  c_lt : c < 16
  keys_lt : (key1 < 256) × (key2 < 256)
  layout : Layout buffer b key1 key2 (get_or ch14s c 0) now plain
  bytes : bytes_from 0 256 buffer ≡ cipher

enc_open-Message :
    (frd : Bytes) (now : Clock) (plain : Bytes) {cipher : Bytes}
    → AllBytes frd
    → length plain ≤ 120
    → enc_open frd now plain ≡ done cipher
    → Message now plain cipher
unfolding enc_open
enc_open-Message frd now plain all short e =
    let ((c, frd1), e1, k1) = >>=-eq-done (or_close (get_char_idx frd)) _ e in
    let (c_lt, all1) = subst CharDrawn (or_close-done _ e1) (get_char_idx-CharDrawn frd all) in
    let ((b, frd2), e2, k2) = >>=-eq-done (or_close (get_begin_idx frd1)) _ k1 in
    let (b_lt, b_ne, all2) = get_begin_idx-some frd1 all1 (or_close-done _ e2) in
    let ((buffer, frd3), e3, k3) = >>=-eq-done (or_close (init_buffer frd2)) _ k2 in
    let (small, all3) = subst Filled (or_close-done _ e3) (init_buffer-Filled frd2 all2) in
    let (out, e4, k4) = >>=-eq-done (enc_from c b buffer frd3 now plain) _ k3 in
    record {
      buffer = out;
      b = b;
      key1 = buffer (pos b 2);
      key2 = buffer (pos b 6);
      c = c;
      c_lt = c_lt;
      keys_lt = (small _, small _);
      layout = enc_from-Layout b c buffer frd3 now plain b_lt b_ne short all3 e4;
      bytes = done-injective k4;
    }

-- What `cl_klciph_enc` returns on success, for any random bytes.
enc-Message :
    (frd : Bytes) (sent : Clock) (plain : Bytes) {cipher : Bytes}
    → AllBytes frd
    → cl_klciph_enc (some frd) sent (some plain) true ≡ done cipher
    → (length plain ≤ 120) × Message sent plain cipher
unfolding cl_klciph_enc
enc-Message frd sent plain all e =
    elim (Bool-cases (ltb (length plain) 1 || ltb max_plain_bytes (length plain))) [
      | inl bad ↦ cc (rw bad at e)
      | inr good ↦
          let short : length plain ≤ 120 = ground arith in
          (short, enc_open-Message frd sent plain all short (rw good at e))
    ]

-- A cipher has 256 bytes.
length-enc :
    (frd : Bytes) (sent : Clock) (plain : Bytes) {cipher : Bytes}
    → AllBytes frd
    → cl_klciph_enc (some frd) sent (some plain) true ≡ done cipher
    → length cipher ≡ 256
length-enc frd sent plain all e =
    let m = (enc-Message frd sent plain all e).1 in
    ap length (sym m.bytes) ∙ length-bytes_from 0 256 m.buffer

module _ (frd : Bytes) (sent : Clock) (plain : Bytes) {cipher : Bytes} (all : AllBytes frd)
    (texts : AllBytes plain)
    (encrypted : cl_klciph_enc (some frd) sent (some plain) true ≡ done cipher) (now : Clock)
    (max_plen : ℕ) (room : length plain ≤ max_plen) where
  dec-verdict : cl_klciph_dec (some cipher) true now max_plen ≡ (
      if is_fresh (byte sent.minute) (byte sent.mday) (byte sent.hour) (byte sent.sec) now
      then some plain
      else none)
  unfolding cl_klciph_dec
  dec-verdict =
      let (short, m) = enc-Message frd sent plain all encrypted in
      let full : (length cipher == 256) ≡ true =
        ground (arith, length-enc frd sent plain all encrypted) in
      let agree : (j : ℕ) → j < 256 → get_or cipher j 0 ≡ m.buffer j = λ j h.
        ap (λ (t : Bytes). get_or t j 0) (sym m.bytes)
        ∙ get_or-bytes_from 0 256 j m.buffer h
        ∙ ap m.buffer (omega arith) in
      let l = Layout-agree m.buffer (λ i. get_or cipher i 0) agree m.layout in
      let (known, small) = characteristic_lem m.c m.c_lt in
      rw full (dec_from-Layout l m.keys_lt.0 m.keys_lt.1 texts now max_plen short room known small)

  -- Whatever random bytes `cl_klciph_enc` reads: if it succeeds, then `cl_klciph_dec` returns the
  -- text, at most six seconds later within the same hour of the same day of the month, into a
  -- buffer that is long enough.
  pub dec-enc : IsFresh sent now → cl_klciph_dec (some cipher) true now max_plen ≡ some plain
  dec-enc fresh = rw (is_fresh-IsFresh sent now fresh) at dec-verdict

  -- At any other time `cl_klciph_dec` refuses what `cl_klciph_enc` returned: on another day of the
  -- month, in another hour, at an earlier time or after more than six seconds.
  pub dec-enc_stale : ¬ IsFresh sent now → cl_klciph_dec (some cipher) true now max_plen ≡ none
  dec-enc_stale stale =
      elim (Bool-cases
        (is_fresh (byte sent.minute) (byte sent.mday) (byte sent.hour) (byte sent.sec) now)) [
          | inl fresh ↦ absurd (stale (IsFresh-of_is_fresh sent now fresh))
          | inr old ↦ rw old at dec-verdict
        ]
