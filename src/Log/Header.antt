-- ===== src/Log/Header.antt =====
-- log/log.c: the header of a line and its buffer.
use libccll.Base.{
  ◌*◌, ◌/◌, ◌%◌, ◌<◌, refl, codes, ◌++◌, ℕ, suc, zero, ◌+◌, ◌≤◌, ◌≡◌, ◌↔◌, [], ◌∷◌, Bytes, length,
  length-append, take, arith,
}
use libccll.Log.{LogType, cl_debug, cl_info, cl_warn, cl_error, code_of, three_digits, log_hdr}

-- `LOG_HDR_SZ`
abbrev pub log_hdr_sz : ℕ
log_hdr_sz = 128

length-take : (n : ℕ) (s : Bytes) → n ≤ length s → length (take n s) ≡ n
length-take zero s h = omega arith
length-take (suc n) [] h = absurd (omega (arith, h))
length-take (suc n) (c ∷ s) h = omega (arith, length-take n s (omega (arith, h)))

-- the letter of a type
abbrev pub letter : LogType → ℕ
letter cl_debug = 68
letter cl_info = 73
letter cl_warn = 87
letter cl_error = 69

code_of-letter : (type : LogType) → code_of type ≡ letter type
unfolding code_of
code_of-letter cl_debug = refl
code_of-letter cl_info = refl
code_of-letter cl_warn = refl
code_of-letter cl_error = refl

-- a number of three digits
pub record IsThreeDigits (n a b c : ℕ) : Type 0 where
  pub small : (a < 10) × (b < 10) × (c < 10)
  pub value : a * 100 + b * 10 + c ≡ n

-- For a time of 19 bytes at least and fewer than 1000000 microseconds: the header of a line is the first 19
-- bytes of the time, a point, the microseconds by 1024 in three digits, the letter of the type and the tag,
-- as in `2025-11-01 12:49:38.007 I-main: `. With its terminator it fits into the 128 bytes of its buffer
-- exactly if the tag has no more than 99 bytes.
pub log_hdr_bounds :
    (now tag : Bytes) (usec : ℕ) (type : LogType)
    → 19 ≤ length now
    → usec < 1000000
    → ((a : ℕ) × (b : ℕ) × (c : ℕ) × IsThreeDigits (usec / 1024) a b c
        × (log_hdr now usec type tag
            ≡ take 19 now
              ++ (codes "."
                  ++ ((48 + a)
                      ∷ ((48 + b)
                          ∷ ((48 + c)
                              ∷ (codes " "
                                  ++ (letter type ∷ (codes "-" ++ (tag ++ codes ": "))))))))))
      × ((length (log_hdr now usec type tag) + 1 ≤ log_hdr_sz) ↔ (length tag ≤ 99))
unfolding log_hdr three_digits
log_hdr_bounds now tag usec type h small =
    let dated = length-take 19 now h in
    let n : length (log_hdr now usec type tag) ≡ 28 + length tag =
      omega (arith, dated, length-append (take 19 now) _, length-append tag (b':' ∷ (b' ' ∷ []))) in
    (
      (
        usec / 1024 / 100,
        usec / 1024 / 10 % 10,
        usec / 1024 % 10,
        record {
          small = (omega (arith, small), omega arith, omega arith);
          value = omega (arith, small);
        },
        rw (code_of-letter type) refl,
      ),
      ((λ fits. omega (arith, n, fits)), (λ few. omega (arith, n, few))),
    )
