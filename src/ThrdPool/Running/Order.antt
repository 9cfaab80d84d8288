-- ===== src/ThrdPool/Running/Order.antt =====
-- sys/thrdpool.c: what the threads of a pool have run, in every interleaving.
use mathlib.Core.List.{Perm, perm_append_comm}
use mathlib.Core.List.Perm
use libccll.Base.{ℕ, zero, suc, List, [], ◌∷◌, ◌++◌, ◌≡◌, refl, sym, ap, ◌∙◌, append_assoc}
use libccll.ThrdPool.{WorkFun, cre_thrds}
use libccll.ThrdPool.Running.{
  Worker, hand, tell, Running, PoolMove, move, PoolStep, work, post, halt, begin_each, Runs, start,
  later,
}
use libccll.ThrdPool.Running.Orderly.{
  IsOrderly, IsOrderly-hand, IsOrderly-tell, WorkerMove-IsOrderly,
}

abbrev pub AllOrderly : List Worker → Type 0
AllOrderly [] = Unit
AllOrderly (w ∷ ws) = IsOrderly w × AllOrderly ws

abbrev pub all_got : List Worker → List WorkFun
all_got [] = []
all_got (w ∷ ws) = w.got ++ all_got ws

-- one thread among the others
AllOrderly-at :
    (front back : List Worker) (w v : Worker)
    → (IsOrderly w → IsOrderly v)
    → AllOrderly (front ++ w ∷ back)
    → AllOrderly (front ++ v ∷ back)
AllOrderly-at [] back w v keep h = (keep h.0, h.1)
AllOrderly-at (x ∷ front) back w v keep h = (h.0, AllOrderly-at front back w v keep h.1)

pub AllOrderly-found :
    (front back : List Worker) (w : Worker) → AllOrderly (front ++ w ∷ back) → IsOrderly w
AllOrderly-found [] back w h = h.0
AllOrderly-found (x ∷ front) back w h = AllOrderly-found front back w h.1

all_got-same :
    (front back : List Worker) (w v : Worker)
    → v.got ≡ w.got
    → all_got (front ++ v ∷ back) ≡ all_got (front ++ w ∷ back)
all_got-same [] back w v e = ap (λ q. q ++ all_got back) e
all_got-same (x ∷ front) back w v e = ap (λ q. x.got ++ q) (all_got-same front back w v e)

all_got-hand :
    (front back : List Worker) (w : Worker) (wf : WorkFun)
    → Perm (all_got (front ++ w ∷ back) ++ wf ∷ []) (all_got (front ++ hand wf w ∷ back))
all_got-hand [] back w wf =
    rw (append_assoc w.got (all_got back) (wf ∷ []), append_assoc w.got (wf ∷ []) (all_got back))
      (Perm.append_left w.got (perm_append_comm (all_got back) (wf ∷ [])))
all_got-hand (x ∷ front) back w wf =
    rw (append_assoc x.got (all_got (front ++ w ∷ back)) (wf ∷ []))
      (Perm.append_left x.got (all_got-hand front back w wf))

-- the pool as a whole
pub record Inv (s : Running) : Type 0 where
  pub once : Perm s.posted (all_got s.workers)
  pub orderly : AllOrderly s.workers

pub PoolMove-Inv : {s u : Running} → PoolMove s u → Inv s → Inv u × (u.posted ≡ s.posted)
PoolMove-Inv {s = s} (move front back w v at m e) inv =
    let all : AllOrderly (front ++ w ∷ back) = rw (sym at) inv.orderly in
    let got : v.got ≡ w.got = (WorkerMove-IsOrderly m (AllOrderly-found front back w all)).1 in
    let same : all_got s.workers ≡ all_got (front ++ v ∷ back) =
      ap all_got at ∙ sym (all_got-same front back w v got) in
    rw e (
      record {
        once = rw (sym same) inv.once;
        orderly = AllOrderly-at front back w v (λ h. (WorkerMove-IsOrderly m h).0) all;
      },
      refl,
    )

PoolStep-Inv : {s u : Running} → PoolStep s u → Inv s → Inv u
PoolStep-Inv (work m) inv = (PoolMove-Inv m inv).0
PoolStep-Inv {s = s} (post front back w wf at e) inv =
    let all : AllOrderly (front ++ w ∷ back) = rw (sym at) inv.orderly in
    let before : Perm s.posted (all_got (front ++ w ∷ back)) = rw (sym at) inv.once in
    rw e (record {
      once = Perm.trans (Perm.append_right (wf ∷ []) before) (all_got-hand front back w wf);
      orderly = AllOrderly-at front back w (hand wf w) (IsOrderly-hand w wf) all;
    })
PoolStep-Inv {s = s} (halt front back w at on e) inv =
    let all : AllOrderly (front ++ w ∷ back) = rw (sym at) inv.orderly in
    let before : Perm s.posted (all_got (front ++ w ∷ back)) = rw (sym at) inv.once in
    rw e (record {
      once = rw (all_got-same front back w (tell w) refl) before;
      orderly = AllOrderly-at front back w (tell w) (IsOrderly-tell w on) all;
    })

begun :
    (amt : ℕ)
    → AllOrderly (begin_each (cre_thrds amt)) × (all_got (begin_each (cre_thrds amt)) ≡ [])
unfolding cre_thrds
begun zero = (tt, refl)
begun (suc amt) = (
  (record { order = refl; count = refl; front = tt; tells = tt; frees = tt }, (begun amt).0),
  (begun amt).1,
)

pub Runs-Inv : {amt : ℕ} {s : Running} → Runs amt s → Inv s
Runs-Inv {amt = amt} start = record {
  once = rw (begun amt).1 (Perm.refl []);
  orderly = (begun amt).0;
}
Runs-Inv (later r st) = PoolStep-Inv st (Runs-Inv r)

-- In every interleaving of the threads of a pool, of those that post to it and of the one that destroys it:
-- what the threads got is what was posted, each once; each thread has run what it got, in order, but for
-- what is in its queue; its semaphore counts the queue, and one more from when the thread is told to exit
-- until it ends, less one while it holds a count; it looks at its queue only when there is work, and the
-- work that it runs is at the front; and it ends only if it is told to, having freed one node at most or
-- else the same node twice.
pub Runs-once :
    (amt : ℕ) (s : Running) → Runs amt s → Perm s.posted (all_got s.workers) × AllOrderly s.workers
Runs-once amt s r = let inv = Runs-Inv r in (inv.once, inv.orderly)
