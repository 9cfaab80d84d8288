-- ===== src/Mem/Keyed.antt =====
-- sys/mem.c: the keys as a table, and the numbers that the lines of a file give by it.
use libccll.Base.{
  ℕ, suc, Option, none, some, List, [], ◌∷◌, ◌≡◌, refl, ap, ◌∙◌, ◌==◌, if◌then◌else◌, Bytes, codes,
  length, drop, Bool-cases, inl, inr,
}
use libccll.Mem.{
  Key, vm_peak_line, vm_size_line, vm_rss_line, vm_data_line, vm_stk_line, vm_exe_line, vm_lib_line,
  has_prefix, key_of,
}
use libccll.Mem.Lines.{line, found_in}
use libccll.Mem.Numbers.{number_of, last_number, key_no}

abbrev pub table : List (Key × Bytes)
table =
    (vm_peak_line, codes "VmPeak:")
    ∷ ((vm_size_line, codes "VmSize:")
        ∷ ((vm_rss_line, codes "VmRSS:")
            ∷ ((vm_data_line, codes "VmData:")
                ∷ ((vm_stk_line, codes "VmStk:")
                    ∷ ((vm_exe_line, codes "VmExe:") ∷ ((vm_lib_line, codes "VmLib:") ∷ []))))))

-- what is behind a label, if the text begins with it
unfoldable pub behind : (label text : Bytes) → Option Bytes
behind [] text = some text
behind (k ∷ label) [] = none
behind (k ∷ label) (c ∷ text) = let rest = behind label text in if k == c then rest else none

-- the first label of a table with which a text begins
unfoldable pub lookup : List (Key × Bytes) → Bytes → Option (Key × Bytes)
lookup [] text = none
lookup ((k, label) ∷ labels) text = elim (behind label text) [
  | some rest ↦ some (k, rest)
  | none ↦ lookup labels text
]

behind-has_prefix :
    (label text : Bytes)
    → behind label text ≡ (if has_prefix label text then some (drop (length label) text) else none)
unfolding behind has_prefix
behind-has_prefix [] text = refl
behind-has_prefix (k ∷ label) [] = refl
behind-has_prefix (k ∷ label) (c ∷ text) = elim (Bool-cases (k == c)) [
  | inl same ↦ rw same (behind-has_prefix label text)
  | inr other ↦ rw other refl
]

lookup-cons :
    (k : Key) (label : Bytes) (labels : List (Key × Bytes)) (text : Bytes)
    → lookup ((k, label) ∷ labels) text
      ≡ (if has_prefix label text then some (k, drop (length label) text) else lookup labels text)
unfolding lookup
lookup-cons k label labels text =
    let go : Option Bytes → Option (Key × Bytes) = λ r. elim r as (λ _. Option (Key × Bytes)) [
      | some rest ↦ some (k, rest)
      | none ↦ lookup labels text
    ] in
    ap go (behind-has_prefix label text) ∙ elim (Bool-cases (has_prefix label text)) [
      | inl begins ↦ rw begins refl
      | inr differs ↦ rw differs refl
    ]

lookup-nil : (text : Bytes) → lookup [] text ≡ none
unfolding lookup
lookup-nil text = refl

key_of-lookup : (text : Bytes) → key_of text ≡ lookup table text
unfolding key_of
key_of-lookup text =
    rw
      (
        lookup-cons, lookup-cons, lookup-cons, lookup-cons, lookup-cons, lookup-cons, lookup-cons,
        lookup-nil,
      )
      refl

-- the number that a line gives for the key `k`
unfoldable pub number_given : (scan : Bytes → Option ℕ) → Key → Bytes → Option ℕ
number_given scan k text = elim (lookup table text) [
  | none ↦ none
  | some (j, rest) ↦ if key_no k == key_no j then scan rest else none
]

-- the last number that the lines give for the key `k`
unfoldable pub last_given : (scan : Bytes → Option ℕ) → Key → List Bytes → Option ℕ
last_given scan k [] = none
last_given scan k (text ∷ texts) = elim (last_given scan k texts) [
  | some n ↦ some n
  | none ↦ number_given scan k (line text)
]

-- how many lines have a key
unfoldable pub keys_in : List Bytes → ℕ
keys_in [] = 0
keys_in (text ∷ texts) = elim (lookup table (line text)) [
  | none ↦ keys_in texts
  | some _ ↦ suc (keys_in texts)
]

number_of-given :
    (scan : Bytes → Option ℕ) (k : Key) (text : Bytes)
    → number_of scan k text ≡ number_given scan k text
unfolding number_of number_given
number_of-given scan k text =
    ap
      (λ (r : Option (Key × Bytes)). elim r as (λ _. Option ℕ) [
        | none ↦ none
        | some (j, rest) ↦ if key_no k == key_no j then scan rest else none
      ])
      (key_of-lookup text)

pub last_number-given :
    (scan : Bytes → Option ℕ) (k : Key) (texts : List Bytes)
    → last_number scan k texts ≡ last_given scan k texts
unfolding last_number last_given
last_number-given scan k [] = refl
last_number-given scan k (text ∷ texts) =
    ap
      (λ (r : Option ℕ). elim r as (λ _. Option ℕ) [
        | some n ↦ some n
        | none ↦ number_of scan k (line text)
      ])
      (last_number-given scan k texts)
    ∙ ap
        (λ (r : Option ℕ). elim (last_given scan k texts) as (λ _. Option ℕ) [
          | some n ↦ some n
          | none ↦ r
        ])
        (number_of-given scan k (line text))

pub found_in-keys_in : (texts : List Bytes) → found_in texts ≡ keys_in texts
unfolding found_in keys_in
found_in-keys_in [] = refl
found_in-keys_in (text ∷ texts) =
    ap
      (λ (r : Option (Key × Bytes)). elim r as (λ _. ℕ) [
        | none ↦ found_in texts
        | some _ ↦ suc (found_in texts)
      ])
      (key_of-lookup (line text))
    ∙ ap (λ (n : ℕ). elim (lookup table (line text)) as (λ _. ℕ) [ none ↦ n | some _ ↦ suc n ])
        (found_in-keys_in texts)
