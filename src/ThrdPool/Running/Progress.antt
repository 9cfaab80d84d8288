-- ===== src/ThrdPool/Running/Progress.antt =====
-- sys/thrdpool.c: the threads of a pool go on until all that was posted has run.
use mathlib.Core.List.{Perm}
use mathlib.Core.Path.{subst}
use libccll.Base.{
  length, ℕ, zero, suc, ◌+◌, ◌*◌, ◌≤◌, ◌<◌, Bool, true, false, List, [], ◌∷◌, ◌++◌, ◌≡◌, ◌⊎◌, refl,
  sym, ap, ◌∙◌, arith, append-nil, append_assoc, inl, inr,
}
use libccll.ThrdPool.{WorkFun}
use libccll.ThrdPool.Running.{
  Stand, sleeping, woken, cleared, running, ended, broken, Worker, WorkerMove, wait, leave,
  free_twice, look, pick_none, pick, finish, Running, PoolMove, move, Runs,
}
use libccll.ThrdPool.Running.Orderly.{
  IsOrderly, IsFront, IsTold, IsFreed, told, count_at, WorkerMove-IsOrderly,
}
use libccll.ThrdPool.Running.Order.{
  AllOrderly, all_got, Inv, PoolMove-Inv, Runs-Inv, AllOrderly-found,
}

-- which threads were told to exit
abbrev pub exits : List Worker → List Bool
exits [] = []
exits (w ∷ ws) = w.pt.exit ∷ exits ws

-- What a thread has done in the end: if it was told to exit, it has ended, having freed one node at most, or
-- it has freed a node a second time; else it has run all that it got.
abbrev pub HasDone : Bool → Worker → Type 0
HasDone true w =
    ((w.stand ≡ ended) × (length w.freed ≤ 1))
    ⊎ ((w.stand ≡ broken) × (addr : ℕ) × (others : List ℕ) × (w.freed ≡ addr ∷ addr ∷ others))
HasDone false w = w.got ≡ w.ran

abbrev pub AllDone : List Bool → List Worker → Type 0
AllDone [] ws = Unit
AllDone (exit ∷ bs) [] = ⊥
AllDone (exit ∷ bs) (w ∷ ws) = HasDone exit w × AllDone bs ws

-- the steps that a thread has still to do for what it has begun
abbrev pub left : Stand → ℕ
left sleeping = 0
left woken = 3
left cleared = 2
left ended = 0
left broken = 0
left (running wf) = 1

-- the steps that are left, at most
abbrev pub all_left : List Worker → ℕ
all_left [] = 0
all_left (w ∷ ws) = w.pt.smp * 4 + left w.stand + all_left ws

WorkerMove-left :
    {w v : Worker} → WorkerMove w v → v.pt.smp * 4 + left v.stand < w.pt.smp * 4 + left w.stand
WorkerMove-left (wait n at count e) = rw e (ground (arith, at, count))
WorkerMove-left (leave at on few e) = rw e (ground (arith, at))
WorkerMove-left (free_twice first second others at on queue e) = rw e (ground (arith, at))
WorkerMove-left (look at off e) = rw e (ground (arith, at))
WorkerMove-left (pick_none at empty e) = rw e (ground (arith, at))
WorkerMove-left (pick wf wfs at queue e) = rw e (ground (arith, at))
WorkerMove-left (finish wf wfs at queue e) = rw e (ground (arith, at))

all_left-at :
    (front back : List Worker) (w v : Worker)
    → v.pt.smp * 4 + left v.stand < w.pt.smp * 4 + left w.stand
    → all_left (front ++ v ∷ back) < all_left (front ++ w ∷ back)
all_left-at [] back w v h = omega (arith, h)
all_left-at (x ∷ front) back w v h = omega (arith, all_left-at front back w v h)

PoolMove-left : {s u : Running} → PoolMove s u → all_left u.workers < all_left s.workers
PoolMove-left (move front back w v at m e) =
    rw (e, at) (all_left-at front back w v (WorkerMove-left m))

exits-at :
    (front back : List Worker) (w v : Worker)
    → v.pt.exit ≡ w.pt.exit
    → exits (front ++ v ∷ back) ≡ exits (front ++ w ∷ back)
exits-at [] back w v e = ap (λ b. b ∷ exits back) e
exits-at (x ∷ front) back w v e = ap (◌∷◌ x.pt.exit) (exits-at front back w v e)

PoolMove-exits : {s u : Running} → PoolMove s u → Inv s → exits u.workers ≡ exits s.workers
PoolMove-exits (move front back w v at m e) inv =
    let all : AllOrderly (front ++ w ∷ back) = rw (sym at) inv.orderly in
    let same : v.pt.exit ≡ w.pt.exit =
      (WorkerMove-IsOrderly m (AllOrderly-found front back w all)).2 in
    rw (e, at) (exits-at front back w v same)

-- a run of `n` steps of the threads
pub data PoolMoves (s : Running) : ℕ → Running → Type 0 where
  stay : PoolMoves s 0 s
  go : {n : ℕ} {u v : Running} → PoolMoves s n u → PoolMove u v → PoolMoves s (suc n) v

PoolMoves-Inv :
    {s u : Running} {n : ℕ}
    → PoolMoves s n u
    → Inv s
    → Inv u
      × (u.posted ≡ s.posted)
      × (n + all_left u.workers ≤ all_left s.workers)
      × (exits u.workers ≡ exits s.workers)
PoolMoves-Inv stay inv = (inv, refl, omega arith, refl)
PoolMoves-Inv (go ms m) inv =
    let (before, same, most, told_before) = PoolMoves-Inv ms inv in
    let (behind, kept) = PoolMove-Inv m before in
    (
      behind,
      kept ∙ same,
      omega (arith, most, PoolMove-left m),
      PoolMove-exits m before ∙ told_before,
    )

ℕ-cases : (n : ℕ) → (n ≡ 0) ⊎ ((m : ℕ) × (n ≡ suc m))
ℕ-cases zero = inl refl
ℕ-cases (suc m) = inr (m, refl)

queue_cases :
    (queue : List WorkFun)
    → (queue ≡ []) ⊎ ((wf : WorkFun) × (wfs : List WorkFun) × (queue ≡ wf ∷ wfs))
queue_cases [] = inl refl
queue_cases (wf ∷ wfs) = inr (wf, wfs, refl)

two_cases :
    (queue : List WorkFun)
    → (length queue ≤ 1)
      ⊎ ((first : WorkFun) × (second : WorkFun) × (others : List WorkFun) × (queue
            ≡ first ∷ second ∷ others))
two_cases [] = inl (omega arith)
two_cases (first ∷ []) = inl (omega arith)
two_cases (first ∷ second ∷ others) = inr (first, second, others, refl)

-- a thread that cannot go on sleeps with an empty queue, has ended or is broken
stuck :
    (w : Worker) (t : Stand) (exit : Bool)
    → w.stand ≡ t
    → w.pt.exit ≡ exit
    → IsOrderly w
    → ((v : Worker) → ¬ WorkerMove w v)
    → HasDone exit w
stuck w woken true at told_so h still = elim (two_cases w.pt.wkfn_list) [
  | inl few ↦ absurd (still _ (leave at told_so few refl))
  | inr (first, second, others, queue) ↦
      absurd (still _ (free_twice first second others at told_so queue refl))
]
stuck w woken false at told_so h still = absurd (still _ (look at told_so refl))
stuck w cleared exit at told_so h still = elim (queue_cases w.pt.wkfn_list) [
  | inl empty ↦ absurd (still _ (pick_none at empty refl))
  | inr (wf, wfs, queue) ↦ absurd (still _ (pick wf wfs at queue refl))
]
stuck w (running wf) exit at told_so h still =
    let (wfs, queue) = subst (λ t. IsFront t w.pt.wkfn_list) at h.front in
    absurd (still _ (finish wf wfs at queue refl))
stuck w ended true at told_so h still = inl (at, subst (λ t. IsFreed t w.freed) at h.frees)
stuck w broken true at told_so h still =
    let (addr, others, twice) = subst (λ t. IsFreed t w.freed) at h.frees in
    inr (at, addr, others, twice)
stuck w broken false at told_so h still =
    absurd (subst (λ b. IsTold b broken) told_so (subst (IsTold w.pt.exit) at h.tells))
stuck w ended false at told_so h still =
    absurd (subst (λ b. IsTold b ended) told_so (subst (IsTold w.pt.exit) at h.tells))
stuck w sleeping true at told_so h still = elim (ℕ-cases w.pt.smp) [
  | inr (n, count) ↦ absurd (still _ (wait n at count refl))
  | inl none_posted ↦
      let one : told w.pt.exit sleeping ≡ 1 = ap (λ b. told b sleeping) told_so in
      absurd (omega (arith, none_posted, count_at w sleeping at h, one))
]
stuck w sleeping false at told_so h still = elim (ℕ-cases w.pt.smp) [
  | inr (n, count) ↦ absurd (still _ (wait n at count refl))
  | inl none_posted ↦ elim (queue_cases w.pt.wkfn_list) [
    | inl empty ↦ h.order ∙ ap (λ q. w.ran ++ q) empty ∙ append-nil w.ran
    | inr (wf, wfs, queue) ↦
        let quiet : told w.pt.exit sleeping ≡ 0 = ap (λ b. told b sleeping) told_so in
        absurd (omega (arith, none_posted, count_at w sleeping at h, quiet, ap length queue))
  ]
]

settled :
    (u : Running) (before behind : List Worker)
    → u.workers ≡ before ++ behind
    → AllOrderly behind
    → ((v : Running) → ¬ PoolMove u v)
    → AllDone (exits behind) behind
settled u before [] e h still = tt
settled u before (w ∷ behind) e h still = (
  stuck w w.stand w.pt.exit refl refl h.0 (λ v m. still _ (move before behind w v e m refl)),
  settled u (before ++ w ∷ []) behind (e ∙ sym (append_assoc before (w ∷ []) behind)) h.1 still,
)

-- Every run of steps of the threads is at most as long as the work that was left, and if no thread can go
-- on, then the threads that were told to exit have ended, having freed one node at most, or have freed a node
-- a second time, the others have run all that they got, and what the threads got is what was posted, each
-- once.
pub PoolMoves-settled :
    (amt : ℕ) (s u : Running) (n : ℕ)
    → Runs amt s
    → PoolMoves s n u
    → ((v : Running) → ¬ PoolMove u v)
    → (n ≤ all_left s.workers)
      × AllDone (exits s.workers) u.workers
      × Perm s.posted (all_got u.workers)
PoolMoves-settled amt s u n r ms still =
    let (inv, same, most, kept) = PoolMoves-Inv ms (Runs-Inv r) in
    (
      omega (arith, most),
      rw (sym kept) (settled u [] u.workers refl inv.orderly still),
      rw (sym same) inv.once,
    )
