-- ===== src/Klciph/Walk.antt =====
-- The order in which both directions walk the buffer: from `begidx` on, round the end, past index 97.
use libccll.Base.{
  ℕ, suc, ◌+◌, ◌-◌, ◌%◌, ◌<◌, ◌≡◌, ◌≢◌, ◌⊎◌, inl, inr, Bool, true, false, some, ltb, if◌then◌else◌,
  arith,
}
use libccll.Klciph.{beg_idx, wrap, free_loop, get_free_pos}
use libccll.Klciph.Dec.{get_next_idx}

-- the number of an index among the 255 that the walk visits, and the index of a number
abbrev pub rank : ℕ → ℕ
rank p = if ltb p beg_idx then p else p - 1

abbrev pub at_rank : ℕ → ℕ
at_rank r = if ltb r beg_idx then r else r + 1

-- the place that the walk from `b` reaches after `k` steps
unfoldable pub pos : ℕ → ℕ → ℕ
pos b k = at_rank ((rank b + k) % 255)

pub pos-zero : (b : ℕ) → b < 256 → b ≢ 97 → pos b 0 ≡ b
unfolding pos
pos-zero b lt ne = ground arith

pub pos-lt : (b k : ℕ) → pos b k < 256
unfolding pos
pos-lt b k = ground arith

pub pos-ne-beg_idx : (b k : ℕ) → pos b k ≢ 97
unfolding pos
pos-ne-beg_idx b k = ground arith

pub get_next_idx-pos : (b k : ℕ) → get_next_idx (pos b k) ≡ pos b (suc k)
unfolding pos get_next_idx
get_next_idx-pos b k = ground arith

pub pos-injective : (b i j : ℕ) → i < j → j < 255 → pos b i ≢ pos b j
unfolding pos
pos-injective b i j lt h = ground arith

-- One step of the search reaches the walk's next place, or index 97 just before it.
wrap-pos :
    (b k : ℕ)
    → (wrap (pos b k + 1) ≡ pos b (suc k))
      ⊎ ((wrap (pos b k + 1) ≡ 97) × (wrap (97 + 1) ≡ pos b (suc k)))
unfolding pos wrap
wrap-pos b k = ground arith

-- The search for a free byte agrees with the walk, if the walk's next byte is free.
free_loop-pos :
    (n b k : ℕ) (bucket : ℕ → Bool)
    → bucket 97 ≡ true
    → bucket (pos b (suc k)) ≡ false
    → free_loop bucket (suc (suc n)) (pos b k) ≡ some (pos b (suc k))
unfolding free_loop
free_loop-pos n b k bucket skips free = elim (wrap-pos b k) [
  | inl here ↦ rw (here, free)
  | inr (skipped, there) ↦ rw (skipped, skips, there, free)
]

pub get_free_pos-pos :
    (b k : ℕ) (bucket : ℕ → Bool)
    → bucket 97 ≡ true
    → bucket (pos b (suc k)) ≡ false
    → get_free_pos bucket (pos b k) ≡ some (pos b (suc k))
unfolding get_free_pos
get_free_pos-pos b k bucket = free_loop-pos 254 b k bucket
