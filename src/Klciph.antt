-- ===== src/Klciph.antt =====
-- cipher/klciph.c: the tables, the buffer and the bookkeeping that both directions share.
-- `/dev/random` is the list of the bytes that it will deliver; a read past its end is a short read.
-- A buffer of 256 bytes is a function of the index, and `bucket` says which bytes are taken.
pub mod Enc
pub mod Dec
pub mod Walk
pub mod Layout
pub mod Read
pub mod Decode
pub mod Marks
pub mod Header
pub mod Store
pub mod Chunks
pub mod Begin
pub mod Encode
pub mod RoundTrip
pub mod Bounds
mod Tests
use libccll.Base.{
  ℕ, zero, suc, ◌+◌, ◌%◌, ◌/◌, Bool, true, false, Option, none, some, List, [], ◌∷◌, ltb, ◌==◌,
  if◌then◌else◌, Bytes, length, drop, get_or,
}

-- `CH14S_SZ`, `MAX_PLAIN_BYTES` and `BEG_IDX`
abbrev pub ch14s_sz : ℕ
ch14s_sz = 16

abbrev pub max_plain_bytes : ℕ
max_plain_bytes = 120

abbrev pub beg_idx : ℕ
beg_idx = 97

-- the characteristic table
abbrev pub ch14s : List ℕ
ch14s =
    0x0827 ∷ 0x8e87 ∷ 0xc35d ∷ 0xedd3 ∷ 0xcc88 ∷ 0xb10a ∷ 0xcc02 ∷ 0xd631 ∷ 0xbbc9 ∷ 0x0194 ∷ 0x1761
    ∷ 0x89d9 ∷ 0xb11f ∷ 0x36ee ∷ 0x1ad6 ∷ 0x2148 ∷ []

-- The fields of `struct tm` that the cipher reads, each cast to `uint8_t`.
pub record Clock : Type 0 where
  pub mday : ℕ
  pub hour : ℕ
  pub minute : ℕ
  pub sec : ℕ

abbrev pub byte : ℕ → ℕ
byte n = n % 256

abbrev pub Buffer : Type 0
Buffer = ℕ → ℕ

pub record Cells : Type 0 where
  pub bucket : ℕ → Bool
  pub buffer : Buffer

-- `if(i == 256) i = 0;`
unfoldable pub wrap : ℕ → ℕ
wrap i = if i == 256 then 0 else i

-- `*(buffer + i) = v;`
unfoldable pub store : ℕ → ℕ → Cells → Cells
store i v s = record s { buffer = λ j. if j == i then v else s.buffer j }

-- `*(bucket + i) = 1;`
unfoldable pub mark : ℕ → Cells → Cells
mark i s = record s { bucket = λ j. if j == i then true else s.bucket j }

-- `_get_char_idx`
unfoldable pub get_char_idx : Bytes → Option (ℕ × Bytes)
get_char_idx [] = none
get_char_idx (idx ∷ frd) = some (idx % ch14s_sz, frd)

-- `_get_begin_idx`: the counter allows 201 reads
unfoldable pub begin_loop : ℕ → Bytes → Option (ℕ × Bytes)
begin_loop zero frd = none
begin_loop (suc cnt) [] = none
begin_loop (suc cnt) (idx ∷ frd) =
    let again = begin_loop cnt frd in if idx == beg_idx then again else some (idx, frd)

unfoldable pub get_begin_idx : Bytes → Option (ℕ × Bytes)
unfolding begin_loop
get_begin_idx frd = begin_loop 201 frd

-- `_init_buffer`
unfoldable pub init_buffer : Bytes → Option (Buffer × Bytes)
init_buffer frd = if ltb (length frd) 256 then none else some (λ i. get_or frd i 0, drop 256 frd)

-- `_get_free_pos`, with the rounds that the loop has left
unfoldable pub free_loop : (ℕ → Bool) → ℕ → ℕ → Option ℕ
free_loop bucket zero from = none
free_loop bucket (suc i) from =
    let from' = wrap (from + 1) in
    let again = free_loop bucket i from' in if bucket from' then again else some from'

unfoldable pub get_free_pos : (ℕ → Bool) → ℕ → Option ℕ
unfolding free_loop wrap
get_free_pos bucket from = free_loop bucket 256 from

-- whether one of the four bytes from `idx` on is taken
unfoldable pub is_taken : (ℕ → Bool) → ℕ → Bool
is_taken bucket idx =
    let i1 = wrap (idx + 1) in
    let i2 = wrap (i1 + 1) in
    let i3 = wrap (i2 + 1) in
    if bucket idx then true else if bucket i1 then true else if bucket i2 then true else bucket i3

-- `_get_data_idx`: the counter allows 221 reads
unfoldable pub data_loop : (ℕ → Bool) → ℕ → Bytes → Option (ℕ × Bytes)
data_loop bucket zero frd = none
data_loop bucket (suc cnt) [] = none
data_loop bucket (suc cnt) (idx ∷ frd) =
    let again = data_loop bucket cnt frd in if is_taken bucket idx then again else some (idx, frd)

unfoldable pub get_data_idx : (ℕ → Bool) → Bytes → Option (ℕ × Bytes)
unfolding data_loop is_taken wrap
get_data_idx bucket frd = data_loop bucket 221 frd
