-- ===== src/Event/System/Progress.antt =====
-- evt/event.c: the service goes on until all that was published is handled.
use libccll.Base.{
  ℕ, zero, suc, ◌+◌, ◌*◌, ◌≤◌, ◌<◌, Bool, true, List, [], ◌∷◌, ◌++◌, ◌≡◌, ◌⊎◌, refl, sym, ap, ◌∙◌,
  arith, length, append-nil, inl, inr,
}
use libccll.Event.{ClEvt}
use libccll.Event.System.{
  Thread, unborn, sleeping, woken, handling, ended, System, Move, post, wait, pop_none, pop, finish,
  Reach,
}
use libccll.Event.System.Order.{Inv, Reach-Inv, Move-Inv, in_hand}

-- what a thread has still to do for what it has begun
abbrev pub left : Thread → ℕ
left (handling e) = 1
left woken = 2
left unborn = 0
left sleeping = 0
left ended = 0

-- the moves that are left, at most
unfoldable pub work : System → ℕ
work s = s.posting * 4 + s.evt.sm_evt * 3 + left s.thread + length s.evt.li_evt

Move-work :
    {answer : (cb no data_ptr : ℕ) → Bool} {s u : System} → Move answer s u → work u < work s
unfolding work
Move-work (post n due e) = rw e (omega (arith, due))
Move-work (wait n at count e) = rw e (ground (arith, at, count))
Move-work (pop_none at none_left e) = rw e (ground (arith, at, none_left))
Move-work (pop d evts at front e) = rw e (ground (arith, at, front))
Move-work (finish d at e) = rw e (ground (arith, at))

-- `_evt_thread` has begun and has not returned
abbrev pub IsServing : Thread → Type 0
IsServing sleeping = Unit
IsServing woken = Unit
IsServing (handling e) = Unit
IsServing unborn = ⊥
IsServing ended = ⊥

-- what a move keeps of a service that has not been told to end
record Kept (s u : System) : Type 0 where
  published : u.published ≡ s.published
  l_run : u.l_run ≡ true
  serving : IsServing u.thread

Move-Kept :
    {answer : (cb no data_ptr : ℕ) → Bool} {s u : System}
    → Move answer s u
    → s.l_run ≡ true
    → IsServing s.thread
    → Kept s u
Move-Kept (post n due e) on serving =
    rw e (record { published = refl; l_run = on; serving = serving })
Move-Kept (wait n at count e) on serving =
    rw e (record { published = refl; l_run = on; serving = tt })
Move-Kept (pop_none at none_left e) on serving =
    rw e (record { published = refl; l_run = on; serving = rw on tt })
Move-Kept (pop d evts at front e) on serving =
    rw e (record { published = refl; l_run = on; serving = tt })
Move-Kept (finish d at e) on serving =
    rw e (record { published = refl; l_run = on; serving = rw on tt })

-- a run of `n` moves
pub data Moves (answer : (cb no data_ptr : ℕ) → Bool) (s : System) : ℕ → System → Type 0 where
  stay : Moves answer s 0 s
  go : {n : ℕ} {u v : System} → Moves answer s n u → Move answer u v → Moves answer s (suc n) v

Moves-Kept :
    {answer : (cb no data_ptr : ℕ) → Bool} {s u : System} {n : ℕ}
    → Moves answer s n u
    → s.l_run ≡ true
    → IsServing s.thread
    → Kept s u
Moves-Kept stay on serving = record { published = refl; l_run = on; serving = serving }
Moves-Kept (go ms m) on serving =
    let before = Moves-Kept ms on serving in
    let k = Move-Kept m before.l_run before.serving in
    record { published = k.published ∙ before.published; l_run = k.l_run; serving = k.serving }

Moves-Inv :
    {answer : (cb no data_ptr : ℕ) → Bool} {s u : System} {n : ℕ}
    → Moves answer s n u
    → Inv s
    → Inv u
Moves-Inv stay inv = inv
Moves-Inv (go ms m) inv = Move-Inv m (Moves-Inv ms inv)

Moves-work :
    {answer : (cb no data_ptr : ℕ) → Bool} {s u : System} {n : ℕ}
    → Moves answer s n u
    → n + work u ≤ work s
Moves-work stay = omega arith
Moves-work (go ms m) = omega (arith, Moves-work ms, Move-work m)

ℕ-cases : (n : ℕ) → (n ≡ 0) ⊎ ((m : ℕ) × (n ≡ suc m))
ℕ-cases zero = inl refl
ℕ-cases (suc m) = inr (m, refl)

List-cases :
    (evts : List ClEvt) → (evts ≡ []) ⊎ ((e : ClEvt) × (rest : List ClEvt) × (evts ≡ e ∷ rest))
List-cases [] = inl refl
List-cases (e ∷ rest) = inr (e, rest, refl)

-- a service that cannot move sleeps, and its queue is empty
stuck :
    (answer : (cb no data_ptr : ℕ) → Bool) (u : System) (t : Thread)
    → u.thread ≡ t
    → IsServing t
    → Inv u
    → ((v : System) → ¬ Move answer u v)
    → u.handled ≡ u.published
stuck answer u unborn at serving inv still = absurd serving
stuck answer u ended at serving inv still = absurd serving
stuck answer u woken at serving inv still = elim (List-cases u.evt.li_evt) [
  | inl none_left ↦ absurd (still _ (pop_none at none_left refl))
  | inr (e, rest, front) ↦ absurd (still _ (pop e rest at front refl))
]
stuck answer u (handling e) at serving inv still = absurd (still _ (finish e at refl))
stuck answer u sleeping at serving inv still = elim (ℕ-cases u.posting) [
  | inr (n, due) ↦ absurd (still _ (post n due refl))
  | inl none_due ↦ elim (ℕ-cases u.evt.sm_evt) [
    | inr (n, count) ↦ absurd (still _ (wait n at count refl))
    | inl none_posted ↦ elim (List-cases u.evt.li_evt) [
      | inl none_left ↦ sym (
          inv.order
          ∙ ap (λ t. u.handled ++ (in_hand t ++ u.evt.li_evt)) at
          ∙ ap (λ evts. u.handled ++ evts) none_left
          ∙ append-nil u.handled)
      | inr (e, rest, front) ↦
          absurd (ground (arith, at, front, none_due, none_posted, inv.woken_for_each))
    ]
  ]
]

-- Before a `cl_evt_deinit`, once the thread has begun: every run of moves of the service is at most as long
-- as the work that was left, and if it cannot go on, then every event that was published is handled.
pub Moves-settled :
    (answer : (cb no data_ptr : ℕ) → Bool) (s u : System) (n : ℕ)
    → Reach answer s
    → s.l_run ≡ true
    → IsServing s.thread
    → Moves answer s n u
    → ((v : System) → ¬ Move answer u v)
    → (u.handled ≡ s.published) × (n ≤ work s)
Moves-settled answer s u n r on serving ms still =
    let k = Moves-Kept ms on serving in
    (
      stuck answer u u.thread refl k.serving (Moves-Inv ms (Reach-Inv r)) still ∙ k.published,
      omega (arith, Moves-work ms),
    )
