-- ===== src/Klciph/Tests.antt =====
-- A message of five bytes, encrypted and decrypted.
use libccll.Base.{
  ℕ, ◌≡◌, refl, ◌≤◌, zero, suc, true, some, none, [], ◌∷◌, ◌++◌, arith, Bytes, codes, length,
  replicate,
}
use libccll.Klciph.{
  Clock, wrap, get_free_pos, get_data_idx, get_begin_idx, get_char_idx, init_buffer, store, mark,
}
use libccll.Klciph.Enc.{
  Outcome, done, fail, put_bytes, put_data, put_characteristic, reserve, put_header, put_places,
  put_time, put_chunks, bytes_from, enc_from, enc_open, cl_klciph_enc, is_odd,
}
use libccll.Klciph.Dec.{cl_klciph_dec}
use libccll.Klciph.Layout.{AllBytes}
use libccll.Klciph.Decode.{IsFresh}
use libccll.Klciph.RoundTrip.{dec-enc, dec-enc_stale}
use libccll.Klciph.Bounds.{dec_bounds}

-- 5 picks the characteristic, 97 is drawn again, 95 begins the message, and 200, 99 and 210 are
-- drawn for the data: 99 is taken.
abbrev random : Bytes
random = 5 ∷ 97 ∷ 95 ∷ (replicate 256 0x5a ++ 200 ∷ 99 ∷ 254 ∷ [])

abbrev text : Bytes
text = codes "hello"

abbrev sent : Clock
sent = record { mday = 15; hour = 5; minute = 40; sec = 58 }

abbrev received : Clock
received = record { mday = 15; hour = 5; minute = 41; sec = 3 }

abbrev next_hour : Clock
next_hour = record { mday = 15; hour = 6; minute = 0; sec = 0 }

abbrev cipher_of : Outcome Bytes → Bytes
cipher_of (done c) = c
cipher_of (fail o) = []

cipher : Bytes
unfolding cl_klciph_enc enc_open enc_from get_char_idx get_begin_idx init_buffer store mark wrap
    put_bytes put_data put_characteristic reserve put_header put_places put_time put_chunks
    get_free_pos get_data_idx is_odd bytes_from
cipher = cipher_of (cl_klciph_enc (some random) sent (some text) true)

encrypted : cl_klciph_enc (some random) sent (some text) true ≡ done cipher
unfolding cipher
encrypted = refl

AllBytes-replicate : (n : ℕ) (rest : Bytes) → AllBytes rest → AllBytes (replicate n 0x5a ++ rest)
AllBytes-replicate zero rest all = all
AllBytes-replicate (suc n) rest all = (omega arith, AllBytes-replicate n rest all)

random-AllBytes : AllBytes random
random-AllBytes = (
  omega arith,
  (omega arith, (omega arith, AllBytes-replicate 256 (200 ∷ 99 ∷ 254 ∷ []) (omega arith))),
)

decrypted : cl_klciph_dec (some cipher) true received 120 ≡ some text
decrypted =
    dec-enc random sent text random-AllBytes (omega arith) encrypted received 120 (omega arith)
      (omega arith)

dec-enc_example : cl_klciph_dec (some cipher) true received 120 ≡ some text
dec-enc_example =
    dec-enc random sent text random-AllBytes (omega arith) encrypted received 120 (omega arith)
      (omega arith)

not-IsFresh : ¬ IsFresh sent next_hour
not-IsFresh fresh = absurd (omega arith)

dec-enc_stale_example : cl_klciph_dec (some cipher) true next_hour 120 ≡ none
dec-enc_stale_example =
    dec-enc_stale random sent text random-AllBytes (omega arith) encrypted next_hour 120
      (omega arith) not-IsFresh

dec_bounds_example : (length text ≤ 120) × (length text ≤ 120)
dec_bounds_example = dec_bounds (some cipher) true received 120 text decrypted
