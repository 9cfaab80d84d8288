-- ===== src/Klciph/Begin.antt =====
-- Steps 1 to 3: the place where a message begins, and its characteristic.
use libccll.Base.{
  ℕ, zero, suc, ◌/◌, ◌<◌, ◌≡◌, ◌≢◌, ◌∙◌, inl, inr, true, false, Option, none, some, [], ◌∷◌, ◌==◌,
  if◌then◌else◌, arith, Bytes, Bool-cases,
}
use mathlib.Core.Path.{subst}
use libccll.Klciph.{Buffer, Cells, byte, store, mark, beg_idx, begin_loop, get_begin_idx}
use libccll.Klciph.Enc.{put_characteristic, unused}
use libccll.Klciph.Walk.{pos, pos-zero, pos-ne-beg_idx, pos-injective}
use libccll.Klciph.Layout.{AllBytes}
use libccll.Klciph.Marks.{Marks}

-- where the second byte of the characteristic goes, and what the step writes
record PutAt (b ch : ℕ) (s : Cells) (r : ℕ × Cells) : Type 0 where
  place : r.0 ≡ pos b 1
  bucket :
      (j : ℕ) → r.1.bucket j ≡ (if j == pos b 1 then true else if j == b then true else s.bucket j)
  buffer :
      (j : ℕ)
      → r.1.buffer j ≡ (if j == pos b 1 then ch / 256 else if j == b then byte ch else s.buffer j)

put_characteristic-PutAt :
    (b ch : ℕ) (s : Cells) → b < 256 → b ≢ 97 → PutAt b ch s (put_characteristic b ch s)
unfolding put_characteristic store mark pos
put_characteristic-PutAt b ch s lt ne = record {
  place = ground arith;
  bucket = λ j. ground arith;
  buffer = λ j. ground arith;
}

-- the cells of step 2
unfoldable pub begun : ℕ → Buffer → Cells
begun b buffer = mark beg_idx (store beg_idx b (unused buffer))

pub record Begun (b ch : ℕ) (buffer : Buffer) (r : ℕ × Cells) : Type 0 where
  pub place : r.0 ≡ pos b 1
  pub marks : Marks b 2 r.1
  pub begins : r.1.buffer 97 ≡ pos b 0
  pub low : r.1.buffer (pos b 0) ≡ byte ch
  pub high : r.1.buffer (pos b 1) ≡ ch / 256
  pub rest : (j : ℕ) → 1 < j → j < 255 → r.1.buffer (pos b j) ≡ buffer (pos b j)

module _ (b ch : ℕ) (buffer : Buffer) (lt : b < 256) (ne : b ≢ 97) where
  free_lem :
      (j : ℕ)
      → 1 < j
      → j < 255
      → ((pos b j == pos b 1) ≡ false) × ((pos b j == b) ≡ false) × ((pos b j == 97) ≡ false)
  free_lem j h k =
      ground (arith, pos-injective b 0 j, pos-injective b 1 j, pos-zero b lt ne, pos-ne-beg_idx b j)

  pub put_characteristic-Begun : Begun b ch buffer (put_characteristic b ch (begun b buffer))
  unfolding begun store mark
  put_characteristic-Begun =
      let at = put_characteristic-PutAt b ch (begun b buffer) lt ne in
      let start = pos-zero b lt ne in
      let skip0 = pos-ne-beg_idx b 0 in
      let skip1 = pos-ne-beg_idx b 1 in
      let apart = pos-injective b 0 1 (omega arith) (omega arith) in
      record {
        place = at.place;
        marks = record {
          skips = at.bucket 97 ∙ ground arith;
          used = elim [
            | zero ↦ λ h. at.bucket (pos b 0) ∙ ground arith
            | suc zero ↦ λ h. at.bucket (pos b 1) ∙ ground arith
            | suc (suc j) ↦ λ h. absurd (omega arith)
          ];
          free = λ j le h. at.bucket (pos b j) ∙ ground (arith, free_lem j le h);
        };
        begins = at.buffer 97 ∙ ground arith;
        low = at.buffer (pos b 0) ∙ ground arith;
        high = at.buffer (pos b 1) ∙ ground arith;
        rest = λ j h k. at.buffer (pos b j) ∙ ground (arith, free_lem j h k);
      }

abbrev Drawn : Option (ℕ × Bytes) → Type 0
Drawn none = Unit
Drawn (some (idx, rest)) = (idx < 256) × (idx ≢ 97) × AllBytes rest

begin_loop-Drawn : (n : ℕ) (frd : Bytes) → AllBytes frd → Drawn (begin_loop n frd)
unfolding begin_loop
begin_loop-Drawn zero frd all = tt
begin_loop-Drawn (suc n) [] all = tt
begin_loop-Drawn (suc n) (x ∷ frd) all = elim (Bool-cases (x == beg_idx)) [
  | inl again ↦ rw again (begin_loop-Drawn n frd all.1)
  | inr fine ↦ rw fine (all.0, ground arith, all.1)
]

-- The index that is drawn is a byte, and never 97.
pub get_begin_idx-some :
    (frd : Bytes) {idx : ℕ} {rest : Bytes}
    → AllBytes frd
    → get_begin_idx frd ≡ some (idx, rest)
    → (idx < 256) × (idx ≢ 97) × AllBytes rest
unfolding get_begin_idx
get_begin_idx-some frd all e = subst Drawn e (begin_loop-Drawn 201 frd all)
