-- ===== src/Klciph/Chunks.antt =====
-- cipher/klciph.c: the last loop of `cl_klciph_enc`, and what its rounds leave in the buffer.
use Prim.Native.Nat.{bit_xor}
use libccll.Base.{
  NotIn, Distinct, ℕ, zero, suc, ◌+◌, ◌<◌, ◌≡◌, sym, ap, ◌∙◌, inl, inr, Bool, true, false, Option,
  none, some, List, [], ◌∷◌, if◌then◌else◌, arith, Bytes, drop, Bool-cases, Option-cases,
}
use mathlib.Core.Path.{subst}
use libccll.Klciph.{Buffer, Cells, wrap, store, is_taken, data_loop, get_data_idx}
use libccll.Klciph.Enc.{done, is_odd, put_bytes, put_data, put_chunks}
use libccll.Klciph.Layout.{AllBytes, Stored, Chunks}
use libccll.Klciph.Store.{
  IsFree, Kept, Apart-four, is_taken-IsFree, Outside-of_taken, put_bytes-Outside, put_bytes-Kept,
}

abbrev pub AllTaken : List ℕ → (ℕ → Bool) → Type 0
AllTaken [] bucket = Unit
AllTaken (p ∷ ps) bucket = (bucket p ≡ true) × AllTaken ps bucket

-- what is known of the byte that the draw returns, and of the stream behind it
abbrev Drawn : (ℕ → Bool) → Option (ℕ × Bytes) → Type 0
Drawn bucket none = Unit
Drawn bucket (some (idx, rest)) = (idx < 256) × (is_taken bucket idx ≡ false) × AllBytes rest

data_loop-some :
    (n : ℕ) (bucket : ℕ → Bool) (frd : Bytes) {idx : ℕ} {rest : Bytes}
    → AllBytes frd
    → data_loop bucket n frd ≡ some (idx, rest)
    → (idx < 256) × (is_taken bucket idx ≡ false) × AllBytes rest
unfolding data_loop
data_loop-some zero bucket frd all h = cc
data_loop-some (suc n) bucket [] all h = cc
data_loop-some (suc n) bucket (x ∷ frd) {idx} {rest} all h = elim (Bool-cases (is_taken bucket x)) [
  | inl taken ↦ data_loop-some n bucket frd all.1 (rw (taken, data_loop) at h)
  | inr free ↦
      let e : some (x, frd) ≡ some (idx, rest) = rw (free, data_loop) at h in
      subst (Drawn bucket) e (all.0, free, all.1)
]

NotIn-of_free :
    (ps : List ℕ) (j : ℕ) (s : Cells) → s.bucket j ≡ false → AllTaken ps s.bucket → NotIn j ps
NotIn-of_free [] j s free taken = tt
NotIn-of_free (p ∷ ps) j s free taken = (ground arith, NotIn-of_free ps j s free taken.1)

AllTaken-put_bytes :
    (ps : List ℕ) (xs : Bytes) (key i : ℕ) (s : Cells)
    → IsFree 4 i s
    → AllTaken ps s.bucket
    → AllTaken ps (put_bytes 4 xs key i s).bucket
AllTaken-put_bytes [] xs key i s free taken = tt
AllTaken-put_bytes (p ∷ ps) xs key i s free taken = (
  (put_bytes-Outside 4 xs key i p s (Outside-of_taken 4 i p s taken.0 free)).1 ∙ taken.0,
  AllTaken-put_bytes ps xs key i s free taken.1,
)

-- What the rest of the loop leaves alone keeps the bytes of a chunk in place.
Stored-of_Kept :
    (n i key : ℕ) (xs : Bytes) (ps : List ℕ) (s s' : Cells) (buf : Buffer)
    → IsFree n i s
    → AllTaken ps s.bucket
    → Kept key n i xs s'
    → ((j : ℕ) → s'.bucket j ≡ true → NotIn j ps → buf j ≡ s'.buffer j)
    → Stored buf key n i xs
Stored-of_Kept zero i key xs ps s s' buf free taken kept frame = tt
Stored-of_Kept (suc n) i key [] ps s s' buf free taken kept frame = tt
Stored-of_Kept (suc n) i key (x ∷ xs) ps s s' buf free taken kept frame = (
  frame i kept.1 (NotIn-of_free ps i s free.0 taken) ∙ kept.0,
  Stored-of_Kept n (wrap (i + 1)) key xs ps s s' buf free.1 taken kept.2 frame,
)

-- what the loop promises of its last cells
pub record Filled (key1 key2 : ℕ) (ps : List ℕ) (xs : Bytes) (s s' : Cells) : Type 0 where
  pub chunks : Chunks s'.buffer key1 key2 ps xs
  pub frame : (j : ℕ) → s.bucket j ≡ true → NotIn j ps → s'.buffer j ≡ s.buffer j

abbrev index_key : (key1 key2 p : ℕ) → ℕ
index_key key1 key2 p = if is_odd p then key1 else key2

abbrev data_key : (key1 key2 p : ℕ) → ℕ
data_key key1 key2 p = if is_odd p then key2 else key1

module _ (key1 key2 p idx : ℕ) (ps : List ℕ) (xs : Bytes) (s s' : Cells) where
  stored : Cells
  stored = store p (bit_xor idx (index_key key1 key2 p)) s

  -- one round of the loop, and what the later rounds promise
  Filled-cons :
      idx < 256
      → IsFree 4 idx s
      → s.bucket p ≡ true
      → AllTaken ps s.bucket
      → NotIn p ps
      → Filled key1 key2 ps (drop 4 xs) (put_bytes 4 xs (data_key key1 key2 p) idx stored) s'
      → Filled key1 key2 (p ∷ ps) xs s s'
  unfolding stored store
  Filled-cons lt free taken others new later =
      let here =
        put_bytes-Outside 4 xs (data_key key1 key2 p) idx p stored
          (Outside-of_taken 4 idx p s taken free) in
      record {
        chunks = (
          (
            idx,
            lt,
            later.frame p (here.1 ∙ taken) new ∙ here.0 ∙ ground arith,
            Stored-of_Kept 4 idx (data_key key1 key2 p) xs ps s _ s'.buffer free others
                (put_bytes-Kept 4 xs (data_key key1 key2 p) idx stored (Apart-four idx lt))
                later.frame,
          ),
          later.chunks,
        );
        frame = λ j h out.
            let outside =
              put_bytes-Outside 4 xs (data_key key1 key2 p) idx j stored
                (Outside-of_taken 4 idx j s h free) in
            later.frame j (outside.1 ∙ h) out.1 ∙ outside.0 ∙ ground (arith, out.0);
      }

pub done-injective : {A : Type 0} {a b : A} → done a ≡ done b → a ≡ b
done-injective h = cc

pub put_chunks-Filled :
    (ps : List ℕ) (xs : Bytes) (key1 key2 : ℕ) (frd : Bytes) (s s' : Cells)
    → AllBytes frd
    → AllTaken ps s.bucket
    → Distinct ps
    → put_chunks ps xs key1 key2 frd s ≡ done s'
    → Filled key1 key2 ps xs s s'
unfolding put_chunks put_data get_data_idx stored store
put_chunks-Filled [] xs key1 key2 frd s s' all taken apart e = record {
  chunks = tt;
  frame = λ j h out. ap (λ (t : Cells). t.buffer j) (sym (done-injective e));
}
put_chunks-Filled (p ∷ ps) xs key1 key2 frd s s' all taken apart e =
    elim (Option-cases (data_loop s.bucket 221 frd)) [
      | inl spent ↦ cc (rw spent at e)
      | inr ((idx, rest), drawn) ↦
          let (lt, is_free, all') = data_loop-some 221 s.bucket frd all drawn in
          let free = is_taken-IsFree idx s is_free in
          Filled-cons key1 key2 p idx ps xs s s' lt free taken.0 taken.1 apart.0 (
            put_chunks-Filled ps (drop 4 xs) key1 key2 rest _ s' all'
              (AllTaken-put_bytes ps xs (data_key key1 key2 p) idx
                (stored key1 key2 p idx ps xs s s') free taken.1)
              apart.1 (rw drawn at e))
    ]
