-- ===== src/Ip/Dotted.antt =====
-- comm/ip.c: the grammar of dotted octets, and `cl_chk_ipv4`.
use libccll.Base.{
  ℕ, ◌+◌, ◌-◌, ◌*◌, ◌≤◌, ◌≡◌, ◌↔◌, refl, sym, ap, ◌∙◌, true, false, some, List, [], ◌∷◌, ◌++◌, ◌==◌,
  arith, Bytes, length, Bool-cases, inl, inr,
}
use libccll.Ip.{is_digit, chk_loop, cl_chk_ipv4}

abbrev pub AllDigits : Bytes → Type 0
AllDigits [] = Unit
AllDigits (c ∷ s) = (is_digit c ≡ true) × AllDigits s

-- the number that digits write, behind those of `num`
abbrev pub value : ℕ → Bytes → ℕ
value num [] = num
value num (c ∷ s) = value (num * 10 + (c - b'0')) s

-- one to three digits that write a number up to 255, behind `digit_count` digits of `num`
pub record IsOctet (num digit_count : ℕ) (s : Bytes) : Type 0 where
  pub digits : AllDigits s
  pub some_digit : 1 ≤ digit_count + length s
  pub short : digit_count + length s ≤ 3
  pub small : value num s ≤ 255

-- octets with a dot between two of them
abbrev pub dotted : Bytes → List Bytes → Bytes
dotted s [] = s
dotted s (t ∷ ts) = s ++ b'.' ∷ dotted t ts

abbrev pub AllOctets : List Bytes → Type 0
AllOctets [] = Unit
AllOctets (s ∷ ss) = IsOctet 0 0 s × AllOctets ss

-- a text that continues an octet, and has the octets up to the fourth behind it
record Parsed (ip : Bytes) (dots num digit_count : ℕ) : Type 0 where
  first : Bytes
  later : List Bytes
  text : ip ≡ dotted first later
  octet : IsOctet num digit_count first
  octets : AllOctets later
  count : dots + length later ≡ 3

dotted-cons : (c : ℕ) (s : Bytes) (ts : List Bytes) → c ∷ dotted s ts ≡ dotted (c ∷ s) ts
dotted-cons c s [] = refl
dotted-cons c s (t ∷ ts) = refl

Parsed-dot :
    (c : ℕ) (ip : Bytes) (dots num digit_count : ℕ)
    → c ≡ b'.'
    → 1 ≤ digit_count
    → digit_count ≤ 3
    → num ≤ 255
    → Parsed ip (dots + 1) 0 0
    → Parsed (c ∷ ip) dots num digit_count
Parsed-dot c ip dots num digit_count is_dot pos few le p = record {
  first = [];
  later = p.first ∷ p.later;
  text = ap (λ x. x ∷ ip) is_dot ∙ ap (◌∷◌ b'.') p.text;
  octet = record { digits = tt; some_digit = omega arith; short = omega arith; small = le };
  octets = (p.octet, p.octets);
  count = omega (arith, p.count);
}

Parsed-digit :
    (c : ℕ) (ip : Bytes) (dots num digit_count : ℕ)
    → is_digit c ≡ true
    → Parsed ip dots (num * 10 + (c - b'0')) (digit_count + 1)
    → Parsed (c ∷ ip) dots num digit_count
Parsed-digit c ip dots num digit_count digit p = record {
  first = c ∷ p.first;
  later = p.later;
  text = ap (◌∷◌ c) p.text ∙ dotted-cons c p.first p.later;
  octet = record {
    digits = (digit, p.octet.digits);
    some_digit = omega arith;
    short = omega (arith, p.octet.short);
    small = p.octet.small;
  };
  octets = p.octets;
  count = p.count;
}

Parsed-of_chk_loop :
    (ip : Bytes) (dots num digit_count : ℕ)
    → num ≤ 255
    → digit_count ≤ 3
    → chk_loop ip dots num digit_count ≡ true
    → Parsed ip dots num digit_count
unfolding chk_loop
Parsed-of_chk_loop [] dots num digit_count le few e = record {
  first = [];
  later = [];
  text = refl;
  octet = record { digits = tt; some_digit = ground (arith, e); short = omega arith; small = le };
  octets = tt;
  count = ground (arith, e);
}
Parsed-of_chk_loop (c ∷ ip) dots num digit_count le few e = elim (Bool-cases (c == b'.')) [
  | inl dot ↦
      Parsed-dot c ip dots num digit_count (ground (arith, dot)) (ground (arith, dot, e)) few le
        (Parsed-of_chk_loop ip (dots + 1) 0 0 (omega arith) (omega arith) (ground (arith, dot, e)))
  | inr other ↦ Parsed-digit c ip dots num digit_count (ground (arith, other, e)) (
      Parsed-of_chk_loop ip dots (num * 10 + (c - b'0')) (digit_count + 1)
        (ground (arith, other, e)) (ground (arith, other, e)) (ground (arith, other, e)))
]

digit_no_dot : (c : ℕ) → is_digit c ≡ true → (c == b'.') ≡ false
unfolding is_digit
digit_no_dot c h = ground (arith, h)

dotted_some :
    (s : Bytes) (ts : List Bytes) → AllOctets (s ∷ ts) → ◌≡◌ {A = Bytes} [] (dotted s ts) → ⊥
dotted_some [] ts os e = omega (arith, os.0.some_digit)
dotted_some (c ∷ s) ts os e =
    let k : ◌≡◌ {A = Bytes} [] (c ∷ dotted s ts) = e ∙ sym (dotted-cons c s ts) in cc

le-value : (num : ℕ) (s : Bytes) → num ≤ value num s
le-value num [] = omega arith
le-value num (c ∷ s) = omega (arith, le-value (num * 10 + (c - b'0')) s)

-- a text of octets passes the loop
chk_loop-dotted :
    (s : Bytes) (ts : List Bytes) (dots num digit_count : ℕ)
    → IsOctet num digit_count s
    → AllOctets ts
    → dots + length ts ≡ 3
    → chk_loop (dotted s ts) dots num digit_count ≡ true
unfolding chk_loop
chk_loop-dotted [] [] dots num digit_count o os count = ground (arith, o.some_digit, o.small, count)
chk_loop-dotted [] (t ∷ ts) dots num digit_count o os count =
    let later = chk_loop-dotted t ts (dots + 1) 0 0 os.0 os.1 (omega (arith, count)) in
    ground (arith, later, o.some_digit, o.small)
chk_loop-dotted (c ∷ s) ts dots num digit_count o os count =
    let n : ℕ = num * 10 + (c - b'0') in
    let rest : IsOctet n (digit_count + 1) s = record {
      digits = o.digits.1;
      some_digit = omega arith;
      short = omega (arith, o.short);
      small = o.small;
    } in
    let later = chk_loop-dotted s ts dots n (digit_count + 1) rest os count in
    let small : n ≤ 255 = omega (arith, le-value n s, o.small) in
    let short : digit_count + 1 ≤ 3 = omega (arith, o.short) in
    let no_dot = digit_no_dot c o.digits.0 in
    rw (sym (dotted-cons c s ts)) (rw no_dot (rw o.digits.0 (ground (arith, later, small, short))))

-- `cl_chk_ipv4` accepts a text exactly if it is four octets between three dots, each of one to three
-- digits that write a number up to 255.
pub cl_chk_ipv4-dotted :
    (ip : Bytes)
    → (cl_chk_ipv4 (some ip) ≡ true) ↔ (
        (s : Bytes) × (ts : List Bytes) × (ip ≡ dotted s ts) × AllOctets (s ∷ ts) × (length ts ≡ 3))
unfolding cl_chk_ipv4
cl_chk_ipv4-dotted [] =
    ((λ e. absurd cc), (λ (s, ts, text, octets, count). absurd (dotted_some s ts octets text)))
cl_chk_ipv4-dotted (c ∷ ip) = (
  (λ e.
      let p = Parsed-of_chk_loop (c ∷ ip) 0 0 0 (omega arith) (omega arith) e in
      (p.first, p.later, p.text, (p.octet, p.octets), omega (arith, p.count))),
  (λ (s, ts, text, octets, count).
      rw text (chk_loop-dotted s ts 0 0 0 octets.0 octets.1 (omega (arith, count)))),
)
