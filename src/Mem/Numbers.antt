-- ===== src/Mem/Numbers.antt =====
-- sys/mem.c: the fields of `MemInfo`, and the last number that the lines give for one.
use libccll.Base.{
  ℕ, Option, none, some, Option-cases, List, [], ◌∷◌, ◌≡◌, inl, inr, refl, arith, ◌==◌,
  if◌then◌else◌, Bytes,
}
use libccll.Mem.{
  Key, vm_peak_line, vm_size_line, vm_rss_line, vm_data_line, vm_stk_line, vm_exe_line, vm_lib_line,
  key_of, MemInfo, set_field,
}
use libccll.Mem.Lines.{line, found_in}

-- the field of a line
unfoldable pub field : Key → MemInfo → ℕ
field vm_peak_line mi = mi.vmpeak
field vm_size_line mi = mi.vmsize
field vm_rss_line mi = mi.vmrss
field vm_data_line mi = mi.vmdata
field vm_stk_line mi = mi.vmstk
field vm_exe_line mi = mi.vmexe
field vm_lib_line mi = mi.vmlib

unfoldable pub key_no : Key → ℕ
key_no vm_peak_line = 0
key_no vm_size_line = 1
key_no vm_rss_line = 2
key_no vm_data_line = 3
key_no vm_stk_line = 4
key_no vm_exe_line = 5
key_no vm_lib_line = 6

-- what a line with the key `j` and the number `n` makes of the figure `v` of the key `k`
unfoldable pub updated : (k j : Key) → (n : Option ℕ) → (v : ℕ) → ℕ
updated k j none v = v
updated k j (some n) v = if key_no k == key_no j then n else v

pub field-set_field :
    (k j : Key) (n : Option ℕ) (mi : MemInfo)
    → field k (set_field j n mi) ≡ updated k j n (field k mi)
unfolding field set_field updated key_no
field-set_field k j n mi = ground arith

-- the number that a line gives for the key `k`
unfoldable pub number_of : (scan : Bytes → Option ℕ) → Key → Bytes → Option ℕ
number_of scan k buffer = elim (key_of buffer) [
  | none ↦ none
  | some (j, text) ↦ if key_no k == key_no j then scan text else none
]

-- the last number that the lines give for the key `k`
unfoldable pub last_number : (scan : Bytes → Option ℕ) → Key → List Bytes → Option ℕ
last_number scan k [] = none
last_number scan k (text ∷ texts) = elim (last_number scan k texts) [
  | some n ↦ some n
  | none ↦ number_of scan k (line text)
]

unfoldable pub or_value : Option ℕ → ℕ → ℕ
or_value none v = v
or_value (some n) v = n

pub last_number-nothing :
    (scan : Bytes → Option ℕ) (k : Key) (texts : List Bytes)
    → found_in texts ≡ 0
    → last_number scan k texts ≡ none
unfolding found_in last_number number_of
last_number-nothing scan k [] e = refl
last_number-nothing scan k (text ∷ texts) e = elim (Option-cases (key_of (line text))) [
  | inl other ↦
      let none_behind : found_in texts ≡ 0 = ground (arith, other, e) in
      rw (last_number-nothing scan k texts none_behind) (rw (other, number_of) refl)
  | inr (j, same) ↦ absurd (ground (arith, same, e))
]

-- one line takes a figure from `v` to the number that it gives
pub number_of-updated :
    (scan : Bytes → Option ℕ) (k j : Key) (buffer text : Bytes) (v : ℕ)
    → key_of buffer ≡ some (j, text)
    → updated k j (scan text) v ≡ or_value (number_of scan k buffer) v
unfolding updated number_of or_value
number_of-updated scan k j buffer text v e = ground (arith, e)

pub number_of-other :
    (scan : Bytes → Option ℕ) (k : Key) (buffer : Bytes) (v : ℕ)
    → key_of buffer ≡ none
    → or_value (number_of scan k buffer) v ≡ v
unfolding number_of or_value
number_of-other scan k buffer v e = ground (arith, e)

pub or_value-last_number :
    (scan : Bytes → Option ℕ) (k : Key) (text : Bytes) (texts : List Bytes) (v : ℕ)
    → or_value (last_number scan k (text ∷ texts)) v
      ≡ or_value (last_number scan k texts) (or_value (number_of scan k (line text)) v)
unfolding last_number or_value
or_value-last_number scan k text texts v = ground arith
