-- ===== src/Klciph/Marks.antt =====
-- Which bytes are taken while a message is laid out: index 97, and the first `n` places of the walk.
use libccll.Base.{ℕ, zero, suc, ◌+◌, ◌≤◌, ◌<◌, ◌≡◌, refl, true, false, ◌==◌, arith}
use libccll.Klciph.{Cells, store, mark}
use libccll.Klciph.Enc.{done, reserve, put_places}
use libccll.Klciph.Walk.{pos, pos-injective, get_free_pos-pos}
use libccll.Klciph.Layout.{places}

pub record Marks (b n : ℕ) (s : Cells) : Type 0 where
  pub skips : s.bucket 97 ≡ true
  pub used : (j : ℕ) → j < n → s.bucket (pos b j) ≡ true
  pub free : (j : ℕ) → n ≤ j → j < 255 → s.bucket (pos b j) ≡ false

-- two different places of the walk, as tests
pub pos-ne : (b i j : ℕ) → i < j → j < 255 → (pos b i == pos b j) ≡ false
pos-ne b i j lt h = ground (arith, pos-injective b i j lt h)

pub pos-ne_sym : (b i j : ℕ) → i < j → j < 255 → (pos b j == pos b i) ≡ false
pos-ne_sym b i j lt h = ground (arith, pos-injective b i j lt h)

module _ {b n : ℕ} {s : Cells} (m : Marks b n s) (h : n < 255) where
  pub Marks-mark : Marks b (suc n) (mark (pos b n) s)
  unfolding mark
  Marks-mark = record {
    skips = ground (arith, m.skips);
    used = λ j lt. ground (arith, m.used j, pos-ne b j n);
    free = λ j le lt. rw (pos-ne_sym b n j le lt) (m.free j (omega arith) lt);
  }

-- Writing a byte marks nothing.
pub Marks-store : {b n : ℕ} {s : Cells} (i v : ℕ) → Marks b n s → Marks b n (store i v s)
unfolding store
Marks-store i v m = record { skips = m.skips; used = m.used; free = m.free }

-- The next byte that `GFROM` takes is the next place of the walk.
pub reserve-Marks :
    {b k : ℕ} {s : Cells}
    → Marks b (suc k) s
    → suc k < 255
    → reserve (pos b k) s ≡ done (pos b (suc k), mark (pos b (suc k)) s)
unfolding reserve
reserve-Marks {b} {k} {s} m h =
    rw (get_free_pos-pos b k s.bucket m.skips (m.free (suc k) (omega arith) h))

-- the cells after `n` more places are taken
pub mark_places : ℕ → ℕ → ℕ → Cells → Cells
mark_places b k zero s = s
mark_places b k (suc n) s = mark_places b (suc k) n (mark (pos b (suc k)) s)

pub put_places-Marks :
    (n : ℕ) {b k : ℕ} {s : Cells}
    → Marks b (suc k) s
    → k + n < 254
    → (put_places n (pos b k) s
        ≡ done (record { arr1 = places b k n; from2 = pos b (n + k); cells = mark_places b k n s }))
      × Marks b (suc (n + k)) (mark_places b k n s)
      × ((mark_places b k n s).buffer ≡ s.buffer)
unfolding put_places mark_places mark
put_places-Marks zero {b} {k} {s} m h = let e : zero + k ≡ k = omega arith in (rw e, rw e m, refl)
put_places-Marks (suc n) {b} {k} {s} m h =
    let e : suc n + k ≡ n + suc k = omega arith in
    let m' = Marks-mark m (omega arith) in
    let (later, marks, kept) = put_places-Marks n m' (omega arith) in
    (rw (reserve-Marks m (omega arith), later, e), rw e marks, kept)
