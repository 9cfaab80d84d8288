-- ===== src/ThrdPool/Running/Orderly.antt =====
-- sys/thrdpool.c: what one thread of a pool keeps of its queue, its semaphore and `exit`.
use mathlib.Core.Path.{subst}
use libccll.Base.{
  zero, suc, ℕ, ◌≤◌, Bool, true, false, ◌+◌, List, [], ◌∷◌, ◌++◌, ◌≡◌, refl, sym, ap, ◌∙◌,
  append_assoc, arith, length, length-append,
}
use libccll.ThrdPool.{WorkFun, PolThrd, exit_loop, exit_worker}
use libccll.ThrdPool.Running.{
  Stand, sleeping, woken, cleared, running, ended, broken, Worker, WorkerMove, wait, leave,
  free_twice, look, pick_none, pick, finish, hand, tell,
}

-- 1 for the count that the thread has taken
abbrev pub taken : Stand → ℕ
taken sleeping = 0
taken woken = 1
taken cleared = 1
taken ended = 0
taken broken = 0
taken (running wf) = 1

-- 1 for the count of `_destroy_pol_thrd`, until the thread has taken it for its end
abbrev pub told : Bool → Stand → ℕ
told false t = 0
told true ended = 0
told true broken = 0
told true sleeping = 1
told true woken = 1
told true cleared = 1
told true (running wf) = 1

-- a thread ends when it is told to
abbrev pub IsTold : Bool → Stand → Type 0
IsTold true t = Unit
IsTold false ended = ⊥
IsTold false broken = ⊥
IsTold false sleeping = Unit
IsTold false woken = Unit
IsTold false cleared = Unit
IsTold false (running wf) = Unit

-- the thread looks at a queue with work, and a work function that runs stands at the front of the queue
abbrev pub IsFront : Stand → List WorkFun → Type 0
IsFront sleeping queue = Unit
IsFront woken queue = Unit
IsFront ended queue = Unit
IsFront broken queue = Unit
IsFront cleared queue = 1 ≤ length queue
IsFront (running wf) queue = (wfs : List WorkFun) × (queue ≡ wf ∷ wfs)

-- a thread that has ended has freed one node at most, and a broken one the same node twice
abbrev pub IsFreed : Stand → List ℕ → Type 0
IsFreed sleeping freed = Unit
IsFreed woken freed = Unit
IsFreed cleared freed = Unit
IsFreed (running wf) freed = Unit
IsFreed ended freed = length freed ≤ 1
IsFreed broken freed = (addr : ℕ) × (others : List ℕ) × (freed ≡ addr ∷ addr ∷ others)

-- What the thread got is what it has run and what is in its queue, in order, and its semaphore counts the
-- queue and the call of `_destroy_pol_thrd` but for the count that it has taken.
pub record IsOrderly (w : Worker) : Type 0 where
  pub order : w.got ≡ w.ran ++ w.pt.wkfn_list
  pub count : w.pt.smp + taken w.stand ≡ length w.pt.wkfn_list + told w.pt.exit w.stand
  pub front : IsFront w.stand w.pt.wkfn_list
  pub tells : IsTold w.pt.exit w.stand
  pub frees : IsFreed w.stand w.freed

IsFront-append :
    (t : Stand) (queue more : List WorkFun) → IsFront t queue → IsFront t (queue ++ more)
IsFront-append sleeping queue more h = tt
IsFront-append woken queue more h = tt
IsFront-append ended queue more h = tt
IsFront-append broken queue more h = tt
IsFront-append cleared queue more h = omega (arith, h, length-append queue more)
IsFront-append (running wf) queue more h = (h.0 ++ more, ap (λ q. q ++ more) h.1)

pub IsOrderly-hand : (w : Worker) (wf : WorkFun) → IsOrderly w → IsOrderly (hand wf w)
IsOrderly-hand w wf h = record {
  order = ap (λ q. q ++ wf ∷ []) h.order ∙ append_assoc w.ran w.pt.wkfn_list (wf ∷ []);
  count = omega (arith, h.count, length-append w.pt.wkfn_list (wf ∷ []));
  front = IsFront-append w.stand w.pt.wkfn_list (wf ∷ []) h.front;
  tells = h.tells;
  frees = h.frees;
}

-- a thread that has not ended
told-awake :
    (exit : Bool) (wf : WorkFun)
    → (told exit woken ≡ told exit sleeping)
      × (told exit cleared ≡ told exit sleeping)
      × (told exit (running wf) ≡ told exit sleeping)
told-awake true wf = (refl, refl, refl)
told-awake false wf = (refl, refl, refl)

IsTold-awake :
    (exit : Bool) (wf : WorkFun)
    → IsTold exit sleeping × IsTold exit woken × IsTold exit cleared × IsTold exit (running wf)
IsTold-awake true wf = (tt, tt, tt, tt)
IsTold-awake false wf = (tt, tt, tt, tt)

no_work : WorkFun
no_work = record { addr = 0; wkfn = 0; args = 0 }

told_late : (t : Stand) → IsTold false t → told true t ≡ 1
told_late sleeping h = refl
told_late woken h = refl
told_late cleared h = refl
told_late (running wf) h = refl
told_late ended h = absurd h
told_late broken h = absurd h

pub IsOrderly-tell : (w : Worker) → w.pt.exit ≡ false → IsOrderly w → IsOrderly (tell w)
IsOrderly-tell w on h =
    let serving : IsTold false w.stand = subst (λ b. IsTold b w.stand) on h.tells in
    let quiet : told w.pt.exit w.stand ≡ 0 = ap (λ b. told b w.stand) on in
    record {
      order = h.order;
      count = omega (arith, h.count, quiet, told_late w.stand serving);
      front = h.front;
      tells = tt;
      frees = h.frees;
    }

-- the count at a place of the thread that is known
pub count_at :
    (w : Worker) (t : Stand)
    → w.stand ≡ t
    → IsOrderly w
    → w.pt.smp + taken t ≡ length w.pt.wkfn_list + told w.pt.exit t
count_at w t at h =
    subst (λ t. w.pt.smp + taken t ≡ length w.pt.wkfn_list + told w.pt.exit t) at h.count

length-exit_loop : (n : ℕ) (wfs : List WorkFun) → length (exit_loop n wfs) ≤ n
unfolding exit_loop
length-exit_loop zero wfs = omega arith
length-exit_loop (suc n) [] = omega arith
length-exit_loop (suc n) (wf ∷ wfs) = omega (arith, length-exit_loop n (wf ∷ wfs))

length-exit_worker : (pt : PolThrd) → length (exit_worker pt) ≤ length pt.wkfn_list
unfolding exit_worker
length-exit_worker pt = length-exit_loop (length pt.wkfn_list) pt.wkfn_list

-- with two nodes the loop frees the first one twice
exit_worker-again :
    (pt : PolThrd) (first second : WorkFun) (others : List WorkFun)
    → pt.wkfn_list ≡ first ∷ second ∷ others
    → exit_worker pt ≡ first.addr ∷ first.addr ∷ exit_loop (length others) (first ∷ second ∷ others)
unfolding exit_worker exit_loop
exit_worker-again pt first second others queue = rw queue refl

pub WorkerMove-IsOrderly :
    {w v : Worker}
    → WorkerMove w v
    → IsOrderly w
    → IsOrderly v × (v.got ≡ w.got) × (v.pt.exit ≡ w.pt.exit)
WorkerMove-IsOrderly {w = w} (wait n at count e) h = rw e (
  record {
    order = h.order;
    count = omega (arith, count, count_at w sleeping at h, (told-awake w.pt.exit no_work).0);
    front = tt;
    tells = (IsTold-awake w.pt.exit no_work).1;
    frees = tt;
  },
  refl,
  refl,
)
WorkerMove-IsOrderly {w = w} (leave at on few e) h =
    let one : told w.pt.exit woken ≡ 1 = ap (λ b. told b woken) on in
    let none : told w.pt.exit ended ≡ 0 = ap (λ b. told b ended) on in
    rw e (
      record {
        order = h.order;
        count = omega (arith, count_at w woken at h, one, none);
        front = tt;
        tells = subst (λ b. IsTold b ended) (sym on) tt;
        frees = omega (arith, few, length-exit_worker w.pt);
      },
      refl,
      refl,
    )
WorkerMove-IsOrderly {w = w} (free_twice first second others at on queue e) h =
    let one : told w.pt.exit woken ≡ 1 = ap (λ b. told b woken) on in
    let none : told w.pt.exit broken ≡ 0 = ap (λ b. told b broken) on in
    rw e (
      record {
        order = h.order;
        count = omega (arith, count_at w woken at h, one, none);
        front = tt;
        tells = subst (λ b. IsTold b broken) (sym on) tt;
        frees = (first.addr, _, exit_worker-again w.pt first second others queue);
      },
      refl,
      refl,
    )
WorkerMove-IsOrderly {w = w} (look at off e) h =
    let quiet : told w.pt.exit woken ≡ 0 = ap (λ b. told b woken) off in
    let same = told-awake w.pt.exit no_work in
    rw e (
      record {
        order = h.order;
        count = omega (arith, count_at w woken at h, same.0, same.1);
        front = omega (arith, count_at w woken at h, quiet);
        tells = (IsTold-awake w.pt.exit no_work).2;
        frees = tt;
      },
      refl,
      refl,
    )
WorkerMove-IsOrderly {w = w} (pick_none at empty e) h =
    let some_work : 1 ≤ length w.pt.wkfn_list = subst (λ t. IsFront t w.pt.wkfn_list) at h.front in
    absurd (omega (arith, some_work, ap length empty))
WorkerMove-IsOrderly {w = w} (pick wf wfs at queue e) h =
    let same = told-awake w.pt.exit wf in
    rw e (
      record {
        order = h.order;
        count = omega (arith, count_at w cleared at h, same.1, same.2);
        front = (wfs, queue);
        tells = (IsTold-awake w.pt.exit wf).3;
        frees = tt;
      },
      refl,
      refl,
    )
WorkerMove-IsOrderly {w = w} (finish wf wfs at queue e) h =
    let same = told-awake w.pt.exit wf in
    rw e (
      record {
        order = h.order ∙ ap (λ q. w.ran ++ q) queue ∙ sym (append_assoc w.ran (wf ∷ []) wfs);
        count = omega (arith, count_at w (running wf) at h, ap length queue, same.2);
        front = tt;
        tells = (IsTold-awake w.pt.exit wf).0;
        frees = tt;
      },
      refl,
      refl,
    )
