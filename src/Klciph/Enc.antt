-- ===== src/Klciph/Enc.antt =====
-- cipher/klciph.c: `_put_data` and `cl_klciph_enc`.
use Prim.Native.Nat.{bit_xor}
use libccll.Base.{
  ℕ, zero, suc, ◌+◌, ◌-◌, ◌/◌, ◌%◌, Bool, true, false, ◌||◌, Option, none, some, List, [], ◌∷◌, ltb,
  ◌==◌, if◌then◌else◌, Bytes, length, drop, get_or,
}
use libccll.Klciph.{
  Clock, Buffer, Cells, byte, wrap, store, mark, ch14s, beg_idx, max_plain_bytes, get_char_idx,
  get_begin_idx, init_buffer, get_free_pos, get_data_idx,
}

-- `FAIL`, with whether the stream `frd` is still open when the function returns.
pub data Outcome (A : Type 0) : Type 0 where
  done : A → Outcome A
  fail : (left_open : Bool) → Outcome A

infixl 5 ◌>>=◌
abbrev pub ◌>>=◌ : {A B : Type 0} → Outcome A → (A → Outcome B) → Outcome B
done a >>= f = f a
fail o >>= f = fail o

-- `goto ERR_OCR_RET4633;` closes the stream, a plain `return FAIL;` does not.
abbrev pub or_close : {A : Type 0} → Option A → Outcome A
or_close none = fail false
or_close (some a) = done a

abbrev pub or_leave : {A : Type 0} → Option A → Outcome A
or_leave none = fail true
or_leave (some a) = done a

-- `_put_data`, one of its four equal blocks in each round: `n` blocks are left and the bytes of
-- `data` that are left run out at `len`
unfoldable pub put_bytes : ℕ → Bytes → ℕ → ℕ → Cells → Cells
put_bytes zero bytes key idx2 s = s
put_bytes (suc n) [] key idx2 s = s
put_bytes (suc n) (x ∷ bytes) key idx2 s =
    put_bytes n bytes key (wrap (idx2 + 1)) (mark idx2 (store idx2 (bit_xor x key) s))

unfoldable pub is_odd : ℕ → Bool
is_odd n = n % 2 == 1

unfoldable pub put_data : Bytes → (from idx key1 key2 : ℕ) → Cells → Cells
put_data bytes from idx key1 key2 s = put_bytes 4 bytes (if is_odd from then key2 else key1) idx s

-- Step 3: the characteristic at `begidx`, and the place of its second byte
unfoldable pub put_characteristic : (begidx ch : ℕ) → Cells → ℕ × Cells
put_characteristic begidx ch s =
    if begidx == beg_idx - 1
    then (
      begidx + 2,
      mark (begidx + 2) (store (begidx + 2) (ch / 256) (mark begidx (store begidx (byte ch) s))),
    )
    else if begidx == 255
    then (0, mark 0 (store 0 (ch / 256) (mark begidx (store begidx (byte ch) s))))
    else (
      begidx + 1,
      mark (begidx + 1) (mark begidx (store (begidx + 1) (ch / 256) (store begidx (byte ch) s))),
    )

-- `GFROM();` and `bucket[from] = 1;`
unfoldable pub reserve : ℕ → Cells → Outcome (ℕ × Cells)
reserve from s = do from ← or_leave (get_free_pos s.bucket from); done (from, mark from s)

pub record Header : Type 0 where
  pub key1 : ℕ
  pub key2 : ℕ
  pub last : ℕ
  pub cells : Cells

-- Steps 4 to 7
unfoldable pub put_header : (ch1_idx plen : ℕ) → Cells → Outcome Header
put_header ch1_idx plen s = do
  (p, s) ← reserve ch1_idx s
  let key1 = s.buffer p
  (p, s) ← reserve p s
  (len_idx, s) ← reserve p s
  let s = store len_idx (byte plen) s
  (p, s) ← reserve len_idx s
  (last, s) ← reserve p s
  let key2 = s.buffer last
  let s = store ch1_idx (bit_xor (s.buffer ch1_idx) key2) s
  let s = store len_idx (bit_xor (s.buffer len_idx) key1) s
  done (record { key1 = key1; key2 = key2; last = last; cells = s })

pub record Places : Type 0 where
  pub arr1 : List ℕ
  pub from2 : ℕ
  pub cells : Cells

-- the loop that makes a placeholder for each index
unfoldable pub put_places : ℕ → ℕ → Cells → Outcome Places
put_places zero from2 s = done (record { arr1 = []; from2 = from2; cells = s })
put_places (suc n) from2 s = do
  (from2, s) ← reserve from2 s
  r ← put_places n from2 s
  done (record r { arr1 = from2 ∷ r.arr1 })

-- the loop over `tarr`, each of whose bytes comes with its key
unfoldable pub put_time : List (ℕ × ℕ) → ℕ → Cells → Outcome Cells
put_time [] from2 s = done s
put_time ((t, key) ∷ tarr) from2 s = do
  (from2, s) ← reserve from2 s
  put_time tarr from2 (store from2 (bit_xor t key) s)

-- the loop that puts each index and its four bytes; `bytes` is `plain + (i << 2)`
unfoldable pub put_chunks : List ℕ → Bytes → (key1 key2 : ℕ) → Bytes → Cells → Outcome Cells
put_chunks [] bytes key1 key2 frd s = done s
put_chunks (from ∷ arr1) bytes key1 key2 frd s = do
  (idx, frd) ← or_leave (get_data_idx s.bucket frd)
  let s = store from (bit_xor idx (if is_odd from then key1 else key2)) s
  put_chunks arr1 (drop 4 bytes) key1 key2 frd (put_data bytes from idx key1 key2 s)

-- `memcpy(cipher, buffer, 256)`
unfoldable pub bytes_from : ℕ → ℕ → Buffer → Bytes
bytes_from i zero b = []
bytes_from i (suc n) b = b i ∷ bytes_from (i + 1) n b

abbrev pub tarr : Clock → (key1 key2 : ℕ) → List (ℕ × ℕ)
tarr now key1 key2 =
    (byte now.minute, key1)
    ∷ (byte now.mday, key1)
    ∷ (byte now.hour, key2)
    ∷ (byte now.sec, key2)
    ∷ []

-- `(int) ceil((double) plen / 4.0)`
abbrev pub idx_amt : ℕ → ℕ
idx_amt plen = (plen + 3) / 4

-- `bucket[256] = {0}`
abbrev pub unused : Buffer → Cells
unused buffer = record { bucket = λ _. false; buffer = buffer }

-- From step 2 on, with the draws of step 1 made; the result is what `buffer` holds at the end.
unfoldable pub enc_from :
    (chidx begidx : ℕ) → Buffer → (frd : Bytes) → Clock → (plain : Bytes) → Outcome Buffer
enc_from chidx begidx buffer frd now plain = do
  let s = mark beg_idx (store beg_idx begidx (unused buffer))
  let (ch1_idx, s) = put_characteristic begidx (get_or ch14s chidx 0) s
  h ← put_header ch1_idx (length plain) s
  r ← put_places (idx_amt (length plain)) h.last h.cells
  s ← put_time (tarr now h.key1 h.key2) r.from2 r.cells
  s ← put_chunks r.arr1 plain h.key1 h.key2 frd s
  done s.buffer

-- `cl_klciph_enc` with its stream open
unfoldable pub enc_open : (frd : Bytes) → Clock → (plain : Bytes) → Outcome Bytes
enc_open frd now plain = do
  (chidx, frd) ← or_close (get_char_idx frd)
  (begidx, frd) ← or_close (get_begin_idx frd)
  (buffer, frd) ← or_close (init_buffer frd)
  b ← enc_from chidx begidx buffer frd now plain
  done (bytes_from 0 256 b)

-- `cl_klciph_enc`: `random` is `none` where `fopen` fails, `plain` is `none` for a null pointer, and
-- `outputs` says that neither `cipher` nor `clen` is one
unfoldable pub cl_klciph_enc :
    (random : Option Bytes) → Clock → (plain : Option Bytes) → (outputs : Bool) → Outcome Bytes
cl_klciph_enc random now none outputs = fail false
cl_klciph_enc random now (some plain) false = fail false
cl_klciph_enc none now (some plain) true = fail false
cl_klciph_enc (some frd) now (some plain) true =
    if ltb (length plain) 1 || ltb max_plain_bytes (length plain)
    then fail false
    else enc_open frd now plain
