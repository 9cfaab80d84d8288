-- ===== src/ThrdPool/Start.antt =====
-- sys/thrdpool.c: the threads of a new pool begin while `cl_trpo_create` creates the others and waits. A
-- `pthread_create` that fails ends the process.
use libccll.Base.{
  ℕ, zero, suc, ◌+◌, ◌≤◌, ◌<◌, ◌≡◌, ◌↔◌, refl, sym, ap, ◌∙◌, Bool, true, false, List, [], ◌∷◌, ◌++◌,
  ◌==◌, arith, length, length-append, replicate,
}

-- `run_pt`, and which of the threads that were created have counted themselves
pub record Starting : Type 0 where
  pub run_pt : ℕ
  pub begun : List Bool

-- a round of the second loop of `_cre_thrds`, and the first access of `_worker_thread`
pub data Step (amount : ℕ) (s u : Starting) : Type 0 where
  create :
      length s.begun < amount → u ≡ record s { begun = s.begun ++ false ∷ [] } → Step amount s u
  begin :
      (front back : List Bool)
      → s.begun ≡ front ++ false ∷ back
      → u ≡ record { run_pt = s.run_pt + 1; begun = front ++ true ∷ back }
      → Step amount s u

abbrev pub fresh : Starting
fresh = record { run_pt = 0; begun = [] }

pub data Reach (amount : ℕ) : Starting → Type 0 where
  start : Reach amount fresh
  later : {s u : Starting} → Reach amount s → Step amount s u → Reach amount u

-- the test of the loop that waits
unfoldable pub is_ready : (amount : ℕ) → Starting → Bool
is_ready amount s = s.run_pt == amount

unfoldable pub count : List Bool → ℕ
count [] = 0
count (true ∷ bs) = suc (count bs)
count (false ∷ bs) = count bs

count-snoc : (bs : List Bool) → count (bs ++ false ∷ []) ≡ count bs
unfolding count
count-snoc [] = refl
count-snoc (true ∷ bs) = omega (arith, count-snoc bs)
count-snoc (false ∷ bs) = count-snoc bs

count-begin :
    (front back : List Bool)
    → (count (front ++ true ∷ back) ≡ count (front ++ false ∷ back) + 1)
      × (length (front ++ true ∷ back) ≡ length (front ++ false ∷ back))
unfolding count
count-begin [] back = (omega arith, refl)
count-begin (true ∷ front) back =
    let (c, n) = count-begin front back in (omega (arith, c), omega (arith, n))
count-begin (false ∷ front) back = let (c, n) = count-begin front back in (c, omega (arith, n))

Reach-count :
    {amount : ℕ} {s : Starting}
    → Reach amount s
    → (s.run_pt ≡ count s.begun) × (length s.begun ≤ amount)
unfolding count
Reach-count start = (refl, omega arith)
Reach-count (later {s} r (create room e)) =
    let (c, n) = Reach-count r in
    rw e (c ∙ sym (count-snoc s.begun), omega (arith, room, length-append s.begun (false ∷ [])))
Reach-count (later {s} r (begin front back at e)) =
    let (c, n) = Reach-count r in
    let (more, same) = count-begin front back in
    rw e (omega (arith, c, ap count at, more), omega (arith, n, ap length at, same))

count-le : (bs : List Bool) → count bs ≤ length bs
unfolding count
count-le [] = omega arith
count-le (true ∷ bs) = omega (arith, count-le bs)
count-le (false ∷ bs) = omega (arith, count-le bs)

all_begun : (n : ℕ) (bs : List Bool) → count bs ≡ n → length bs ≤ n → bs ≡ replicate n true
unfolding count
all_begun zero [] c h = refl
all_begun zero (b ∷ bs) c h = absurd (omega (arith, h))
all_begun (suc n) [] c h = absurd (omega (arith, c))
all_begun (suc n) (true ∷ bs) c h =
    ap (◌∷◌ true) (all_begun n bs (omega (arith, c)) (omega (arith, h)))
all_begun (suc n) (false ∷ bs) c h = absurd (omega (arith, c, h, count-le bs))

count-replicate : (n : ℕ) → count (replicate n true) ≡ n
unfolding count
count-replicate zero = refl
count-replicate (suc n) = omega (arith, count-replicate n)

-- In whatever order the threads are created and begin, the wait of `cl_trpo_create` ends exactly when all of
-- them have been created and have begun.
is_ready-all_begun :
    (amount : ℕ) (s : Starting)
    → Reach amount s
    → (is_ready amount s ≡ true) ↔ (s.begun ≡ replicate amount true)
unfolding is_ready
is_ready-all_begun amount s r =
    let (c, n) = Reach-count r in
    (
      (λ ready. all_begun amount s.begun (ground (arith, ready, c)) n),
      λ all. ground (arith, c, ap count all, count-replicate amount),
    )
