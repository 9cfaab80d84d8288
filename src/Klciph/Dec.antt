-- ===== src/Klciph/Dec.antt =====
-- cipher/klciph.c: `_get_next_idx` and `cl_klciph_dec`.
use Prim.Native.Nat.{bit_and, bit_or, bit_xor}
use libccll.Base.{
  ℕ, zero, suc, ◌+◌, ◌-◌, ◌*◌, ◌%◌, Bool, true, false, not, ◌||◌, Option, none, some, List, [], ◌∷◌,
  ◌++◌, ltb, ◌==◌, if◌then◌else◌, Bytes, length, take, get_or,
}
use libccll.Klciph.{Clock, Buffer, byte, ch14s, beg_idx, max_plain_bytes}
use libccll.Klciph.Enc.{is_odd, idx_amt}

-- `_get_next_idx`
unfoldable pub get_next_idx : ℕ → ℕ
get_next_idx cur_idx =
    if cur_idx == 255 then 0 else if cur_idx == beg_idx - 1 then beg_idx + 1 else cur_idx + 1

-- `for(i = 0; i < n; i++) NEXT();`
unfoldable pub skip : ℕ → ℕ → ℕ
skip zero idx = idx
skip (suc n) idx = skip n (get_next_idx idx)

unfoldable pub is_characteristic : ℕ → List ℕ → Bool
is_characteristic ch14 [] = false
is_characteristic ch14 (c ∷ cs) = if ch14 == c then true else is_characteristic ch14 cs

-- `if(where == 255) where = 0; else where++;`
unfoldable pub inc_where : ℕ → ℕ
inc_where i = if i == 255 then 0 else i + 1

-- the four bytes that one index leads to
unfoldable pub get_chunk : Buffer → (key i : ℕ) → Bytes
get_chunk buffer key i =
    bit_xor (buffer i) key
    ∷ bit_xor (buffer (inc_where i)) key
    ∷ bit_xor (buffer (inc_where (inc_where i))) key
    ∷ bit_xor (buffer (inc_where (inc_where (inc_where i)))) key
    ∷ []

-- Step 8: what the loop appends to `plain_buf` in the rounds left
unfoldable pub get_chunks : ℕ → ℕ → Buffer → (key1 key2 : ℕ) → Bytes
get_chunks zero idx buffer key1 key2 = []
get_chunks (suc n) idx buffer key1 key2 =
    let idx' = get_next_idx idx in
    let i = bit_xor (buffer idx') (if is_odd idx' then key1 else key2) in
    get_chunk buffer (if is_odd idx' then key2 else key1) i ++ get_chunks n idx' buffer key1 key2

-- Step 7: whether the message is at most six seconds old; a negative `sec_diff` is written as an
-- order
unfoldable pub is_fresh : (minute mday hour sec : ℕ) → Clock → Bool
is_fresh minute mday hour sec now =
    if not (mday == byte now.mday) || not (hour == byte now.hour)
    then false
    else let sec1 = minute * 60 + sec in
      let sec2 = byte now.minute * 60 + byte now.sec in
      if ltb sec2 sec1 || ltb 6 (sec2 - sec1) then false else true

-- Steps 7 and 8, for a length that passed its check and the place of `key2`
unfoldable pub dec_body : Buffer → (key1 key2 idx len : ℕ) → Clock → (max_plen : ℕ) → Option Bytes
dec_body buffer key1 key2 idx len now max_plen =
    let amt = byte (idx_amt len) in
    let bali = len % 4 in
    let i1 = get_next_idx (skip amt idx) in
    let i2 = get_next_idx i1 in
    let i3 = get_next_idx i2 in
    let i4 = get_next_idx i3 in
    let fresh =
      is_fresh (bit_xor (buffer i1) key1) (bit_xor (buffer i2) key1) (bit_xor (buffer i3) key2)
        (bit_xor (buffer i4) key2) now in
    let plain_buf = get_chunks amt idx buffer key1 key2 in
    let k = length plain_buf - (4 - bali) % 4 in
    if not fresh
    then none
    else if not (k == len)
    then none
    else if ltb max_plen k
    then none
    else some (take k plain_buf)

-- `cl_klciph_dec` from the copy of the cipher on; `none` is `FAIL`, and `some` is what it writes to
-- `plain`, with the length for `*plen`
unfoldable pub dec_from : Buffer → Clock → (max_plen : ℕ) → Option Bytes
dec_from buffer now max_plen =
    let i0 = buffer beg_idx in
    let i1 = get_next_idx i0 in
    let i2 = get_next_idx i1 in
    let i4 = get_next_idx (get_next_idx i2) in
    let i6 = get_next_idx (get_next_idx i4) in
    let ch2 = buffer i0 in
    let key1 = buffer i2 in
    let key2 = buffer i6 in
    let ch1 = bit_xor (buffer i1) key2 in
    let ch14 = bit_or ch2 (bit_and (ch1 * 256) 0xff00) in
    let len = bit_xor (buffer i4) key1 in
    if not (is_characteristic ch14 ch14s)
    then none
    else if ltb max_plain_bytes len
    then none
    else dec_body buffer key1 key2 i6 len now max_plen

-- `cl_klciph_dec`: `cipher` is `none` for a null pointer and else holds `clen` bytes, and `outputs`
-- says that neither `plain` nor `plen` is null
unfoldable pub cl_klciph_dec :
    (cipher : Option Bytes) → (outputs : Bool) → Clock → (max_plen : ℕ) → Option Bytes
cl_klciph_dec none outputs now max_plen = none
cl_klciph_dec (some cipher) outputs now max_plen =
    if not (length cipher == 256) || not outputs
    then none
    else dec_from (λ i. get_or cipher i 0) now max_plen
