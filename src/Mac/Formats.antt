-- ===== src/Mac/Formats.antt =====
-- The addresses that `cl_is_mac_valid` accepts.
use libccll.Base.{
  ℕ, zero, suc, ◌+◌, ◌*◌, ◌%◌, ◌≡◌, ◌↔◌, ◌⊎◌, inl, inr, refl, sym, ◌∙◌, true, false, ◌||◌, ◌&&◌,
  some, [], ◌∷◌, ◌==◌, if◌then◌else◌, arith, Bytes, length, Bool-cases,
}
use libccll.Mac.{is_xdigit, chk_loop1, chk_type1, chk_loop2, chk_type2, cl_is_mac_valid}

abbrev pub AllHex : Bytes → Type 0
AllHex [] = Unit
AllHex (c ∷ s) = (is_xdigit c ≡ true) × AllHex s

-- two digits, and a separator and two digits for each further pair
pub data IsGroups (sep : ℕ) : ℕ → Bytes → Type 0 where
  one : (a b : ℕ) → is_xdigit a ≡ true → is_xdigit b ≡ true → IsGroups sep 0 (a ∷ b ∷ [])
  more :
      {n : ℕ} {s : Bytes} (a b : ℕ)
      → is_xdigit a ≡ true
      → is_xdigit b ≡ true
      → IsGroups sep n s
      → IsGroups sep (suc n) (a ∷ b ∷ sep ∷ s)

-- one group passes the loop
chk_loop1_group :
    (k colons dashes a b c : ℕ) (s : Bytes)
    → chk_loop1 (3 * k) colons dashes (a ∷ b ∷ c ∷ s) ≡ (
        if is_xdigit a && is_xdigit b
        then (if c == b':'
            then chk_loop1 (3 * (k + 1)) (colons + 1) dashes s
            else if c == b'-'
            then chk_loop1 (3 * (k + 1)) colons (dashes + 1) s
            else false)
        else false)
unfolding chk_loop1
chk_loop1_group k colons dashes a b c s =
    let p : 3 * k % 3 ≡ 0 = omega arith in
    let q : (3 * k + 1) % 3 ≡ 1 = omega arith in
    let r : (3 * k + 1 + 1) % 3 ≡ 2 = omega arith in
    let e : 3 * (k + 1) ≡ 3 * k + 1 + 1 + 1 = omega arith in
    elim (Bool-cases (c == b':')) [
      | inl colon ↦
          let no_dash : (c == b'-') ≡ false = ground (arith, colon) in
          rw e (rw p (rw q (rw r (rw colon (rw no_dash (ground arith))))))
      | inr no_colon ↦ elim (Bool-cases (c == b'-')) [
        | inl dash ↦ rw e (rw p (rw q (rw r (rw no_colon (rw dash (ground arith))))))
        | inr no_dash ↦ rw e (rw p (rw q (rw r (rw no_colon (rw no_dash (ground arith))))))
      ]
    ]

chk_loop1_last :
    (k colons dashes a b : ℕ)
    → chk_loop1 (3 * k) colons dashes (a ∷ b ∷ [])
      ≡ (if is_xdigit a && is_xdigit b then colons == 5 || dashes == 5 else false)
unfolding chk_loop1
chk_loop1_last k colons dashes a b =
    let p : 3 * k % 3 ≡ 0 = omega arith in
    let q : (3 * k + 1) % 3 ≡ 1 = omega arith in rw p (rw q (ground arith))

-- with five separators in all, a text that passes the loop has one kind of them
IsGroups-of_chk_loop1 :
    (n k colons dashes : ℕ) (s : Bytes)
    → length s ≡ 3 * n + 2
    → colons + dashes + n ≡ 5
    → chk_loop1 (3 * k) colons dashes s ≡ true
    → (IsGroups b':' n s × (dashes ≡ 0)) ⊎ (IsGroups b'-' n s × (colons ≡ 0))
IsGroups-of_chk_loop1 n k colons dashes [] e five h = absurd (omega (arith, e))
IsGroups-of_chk_loop1 n k colons dashes (a ∷ []) e five h = absurd (omega (arith, e))
IsGroups-of_chk_loop1 zero k colons dashes (a ∷ b ∷ []) e five h =
    let t = sym (chk_loop1_last k colons dashes a b) ∙ h in
    let x : is_xdigit a ≡ true = ground (arith, t) in
    let y : is_xdigit b ≡ true = ground (arith, t) in
    elim (Bool-cases (colons == 5)) [
      | inl all ↦ inl (one a b x y, ground (arith, all, five))
      | inr few ↦ inr (one a b x y, ground (arith, few, five, t))
    ]
IsGroups-of_chk_loop1 zero k colons dashes (a ∷ b ∷ c ∷ s) e five h = absurd (omega (arith, e))
IsGroups-of_chk_loop1 (suc n) k colons dashes (a ∷ b ∷ []) e five h = absurd (omega (arith, e))
IsGroups-of_chk_loop1 (suc n) k colons dashes (a ∷ b ∷ c ∷ s) e five h =
    let t = sym (chk_loop1_group k colons dashes a b c s) ∙ h in
    let x : is_xdigit a ≡ true = ground (arith, t) in
    let y : is_xdigit b ≡ true = ground (arith, t) in
    let shorter : length s ≡ 3 * n + 2 = omega (arith, e) in
    elim (Bool-cases (c == b':')) [
      | inl colon ↦
          let is_colon : b':' ≡ c = ground (arith, colon) in
          let passes : chk_loop1 (3 * (k + 1)) (colons + 1) dashes s ≡ true =
            ground (arith, colon, t) in
          elim (IsGroups-of_chk_loop1 n (k + 1) (colons + 1) dashes s shorter (omega (arith, five))
            passes) [
              | inl (g, none) ↦ inl (rw (sym is_colon) (more a b x y g), none)
              | inr (g, some_colon) ↦ absurd (omega (arith, some_colon))
            ]
      | inr no_colon ↦
          let is_dash : b'-' ≡ c = ground (arith, no_colon, t) in
          let passes : chk_loop1 (3 * (k + 1)) colons (dashes + 1) s ≡ true =
            ground (arith, no_colon, t) in
          elim (IsGroups-of_chk_loop1 n (k + 1) colons (dashes + 1) s shorter (omega (arith, five))
            passes) [
              | inl (g, some_dash) ↦ absurd (omega (arith, some_dash))
              | inr (g, none) ↦ inr (rw (sym is_dash) (more a b x y g), none)
            ]
    ]

chk_loop1-colons :
    (n k colons dashes : ℕ) (s : Bytes)
    → IsGroups b':' n s
    → colons + n ≡ 5
    → chk_loop1 (3 * k) colons dashes s ≡ true
chk_loop1-colons n k colons dashes s (one a b x y) five =
    chk_loop1_last k colons dashes a b ∙ ground (arith, x, y, five)
chk_loop1-colons n k colons dashes s (more {n = m} {s = t} a b x y g) five =
    let rest = chk_loop1-colons m (k + 1) (colons + 1) dashes t g (omega (arith, five)) in
    chk_loop1_group k colons dashes a b b':' t ∙ ground (arith, x, y, rest)

chk_loop1-dashes :
    (n k colons dashes : ℕ) (s : Bytes)
    → IsGroups b'-' n s
    → dashes + n ≡ 5
    → chk_loop1 (3 * k) colons dashes s ≡ true
chk_loop1-dashes n k colons dashes s (one a b x y) five =
    chk_loop1_last k colons dashes a b ∙ ground (arith, x, y, five)
chk_loop1-dashes n k colons dashes s (more {n = m} {s = t} a b x y g) five =
    let rest = chk_loop1-dashes m (k + 1) colons (dashes + 1) t g (omega (arith, five)) in
    chk_loop1_group k colons dashes a b b'-' t ∙ ground (arith, x, y, rest)

length-IsGroups : {sep n : ℕ} {s : Bytes} → IsGroups sep n s → length s ≡ 3 * n + 2
length-IsGroups (one a b x y) = omega arith
length-IsGroups (more a b x y g) = omega (arith, length-IsGroups g)

chk_loop2_iff : (s : Bytes) → (chk_loop2 s ≡ true) ↔ AllHex s
unfolding chk_loop2
chk_loop2_iff [] = ((λ h. tt), (λ h. refl))
chk_loop2_iff (c ∷ s) = (
  (λ h. (ground (arith, h), (chk_loop2_iff s).0 (ground (arith, h)))),
  (λ h. rw h.0 ((chk_loop2_iff s).1 h.1)),
)

chk_type1_iff : (mac : Bytes) → (chk_type1 mac ≡ true) ↔ (IsGroups b':' 5 mac ⊎ IsGroups b'-' 5 mac)
unfolding chk_type1
chk_type1_iff mac = (
  (λ h. elim (IsGroups-of_chk_loop1 5 0 0 0 mac (ground (arith, h)) refl (ground (arith, h))) [
    | inl (g, _) ↦ inl g
    | inr (g, _) ↦ inr g
  ]),
  (λ g. elim g [
    | inl colons ↦
        let n = length-IsGroups colons in
        let passes = chk_loop1-colons 5 0 0 0 mac colons refl in ground (arith, n, passes)
    | inr dashes ↦
        let n = length-IsGroups dashes in
        let passes = chk_loop1-dashes 5 0 0 0 mac dashes refl in ground (arith, n, passes)
  ]),
)

chk_type2_iff : (mac : Bytes) → (chk_type2 mac ≡ true) ↔ (AllHex mac × (length mac ≡ 12))
unfolding chk_type2
chk_type2_iff mac = (
  (λ h. ((chk_loop2_iff mac).0 (ground (arith, h)), ground (arith, h))),
  (λ h. let passes = (chk_loop2_iff mac).1 h.0 in ground (arith, h.1, passes)),
)

second :
    (mac : Bytes) → chk_type1 mac ≡ false → cl_is_mac_valid (some mac) ≡ true → chk_type2 mac ≡ true
unfolding cl_is_mac_valid
second [] other h = absurd cc
second (c ∷ mac) other h = ground (arith, other, h)

by_first : (mac : Bytes) → chk_type1 mac ≡ true → cl_is_mac_valid (some mac) ≡ true
unfolding cl_is_mac_valid chk_type1
by_first [] h = absurd (ground (arith, h))
by_first (c ∷ mac) h = ground (arith, h)

by_second : (mac : Bytes) → chk_type2 mac ≡ true → cl_is_mac_valid (some mac) ≡ true
unfolding cl_is_mac_valid chk_type2
by_second [] h = absurd (ground (arith, h))
by_second (c ∷ mac) h = ground (arith, h)

-- `cl_is_mac_valid` accepts a text exactly if it is six pairs of hexadecimal digits, with a colon
-- between two of them or with a dash between two of them, or if it is twelve such digits.
pub cl_is_mac_valid-IsGroups :
    (mac : Bytes)
    → (cl_is_mac_valid (some mac) ≡ true)
      ↔ ((IsGroups b':' 5 mac ⊎ IsGroups b'-' 5 mac) ⊎ (AllHex mac × (length mac ≡ 12)))
cl_is_mac_valid-IsGroups mac = (
  (λ h. elim (Bool-cases (chk_type1 mac)) [
    | inl first ↦ inl ((chk_type1_iff mac).0 first)
    | inr other ↦ inr ((chk_type2_iff mac).0 (second mac other h))
  ]),
  (λ g. elim g [
    | inl groups ↦ by_first mac ((chk_type1_iff mac).1 groups)
    | inr digits ↦ by_second mac ((chk_type2_iff mac).1 digits)
  ]),
)
