-- ===== src/ThrdPool/Running.antt =====
-- sys/thrdpool.c: the threads of one pool, those that post to it and the one that destroys it, interleaved.
-- What `_worker_thread` does between two locks, semaphore calls or looks at `exit` is one step; the work
-- function runs between two steps, and its node stays in the queue meanwhile.
pub mod Orderly
pub mod Order
mod Tests
pub mod Rounds
pub mod Progress
use libccll.Base.{◌≤◌, length, zero, suc, true, false, ◌+◌, List, [], ◌∷◌, ◌++◌, ◌≡◌, ℕ}
use libccll.ThrdPool.{WorkFun, PolThrd, push, cre_thrds, exit_worker}

-- where `_worker_thread` stands: in `sem_wait`, behind it, behind the look at `exit`, in a work function,
-- returned, and stopped for good by the second `FREE` of one node
pub data Stand : Type 0 where
  sleeping woken cleared : Stand
  running : WorkFun → Stand
  ended broken : Stand

-- A thread with its queue and semaphore, and the nodes that it has freed on exit; `got` and `ran` are the
-- history.
pub record Worker : Type 0 where
  pub pt : PolThrd
  pub stand : Stand
  pub freed : List ℕ
  pub got : List WorkFun
  pub ran : List WorkFun

-- The steps of `_worker_thread`: `sem_wait`, the look at `exit`, the one at the queue, and the end of a work
-- function, where `list_del` takes its node out. On exit the loop frees the first node as often as there are
-- nodes: with one at most the thread returns, with more the second `FREE` of it ends the model of the thread.
-- `pick_none` stands for an empty queue, on which `wf` is left at the head of the list and not at NULL: no
-- run has that step.
pub data WorkerMove (w v : Worker) : Type 0 where
  wait :
      (n : ℕ)
      → w.stand ≡ sleeping
      → w.pt.smp ≡ suc n
      → v ≡ record w { stand = woken; pt = record w.pt { smp = n } }
      → WorkerMove w v
  leave :
      w.stand ≡ woken
      → w.pt.exit ≡ true
      → length w.pt.wkfn_list ≤ 1
      → v ≡ record w { stand = ended; freed = exit_worker w.pt }
      → WorkerMove w v
  free_twice :
      (first second : WorkFun) (others : List WorkFun)
      → w.stand ≡ woken
      → w.pt.exit ≡ true
      → w.pt.wkfn_list ≡ first ∷ second ∷ others
      → v ≡ record w { stand = broken; freed = exit_worker w.pt }
      → WorkerMove w v
  look : w.stand ≡ woken → w.pt.exit ≡ false → v ≡ record w { stand = cleared } → WorkerMove w v
  pick_none :
      w.stand ≡ cleared → w.pt.wkfn_list ≡ [] → v ≡ record w { stand = sleeping } → WorkerMove w v
  pick :
      (wf : WorkFun) (wfs : List WorkFun)
      → w.stand ≡ cleared
      → w.pt.wkfn_list ≡ wf ∷ wfs
      → v ≡ record w { stand = running wf }
      → WorkerMove w v
  finish :
      (wf : WorkFun) (wfs : List WorkFun)
      → w.stand ≡ running wf
      → w.pt.wkfn_list ≡ wf ∷ wfs
      → v ≡ record w {
        stand = sleeping;
        pt = record w.pt { wkfn_list = wfs };
        ran = w.ran ++ wf ∷ [];
      }
      → WorkerMove w v

-- the last lines of `cl_trpo_post`, on the thread that was selected
abbrev pub hand : WorkFun → Worker → Worker
hand wf w = record w { pt = push wf w.pt; got = w.got ++ wf ∷ [] }

-- `pt->exit = true; sem_post(&pt->smp);`
abbrev pub tell : Worker → Worker
tell w = record w { pt = record w.pt { exit = true; smp = w.pt.smp + 1 } }

-- The threads of the pool, and all that was posted to it.
pub record Running : Type 0 where
  pub workers : List Worker
  pub posted : List WorkFun

-- a step of one of the threads
pub data PoolMove (s u : Running) : Type 0 where
  move :
      (front back : List Worker) (w v : Worker)
      → s.workers ≡ front ++ w ∷ back
      → WorkerMove w v
      → u ≡ record s { workers = front ++ v ∷ back }
      → PoolMove s u

-- Besides, work is posted, to whatever thread: the lengths that `cl_trpo_post` has compared may have changed
-- when it locks the thread. And a thread is told to exit, once, by `_destroy_pol_thrd`.
pub data PoolStep (s u : Running) : Type 0 where
  work : PoolMove s u → PoolStep s u
  post :
      (front back : List Worker) (w : Worker) (wf : WorkFun)
      → s.workers ≡ front ++ w ∷ back
      → u ≡ record s { workers = front ++ hand wf w ∷ back; posted = s.posted ++ wf ∷ [] }
      → PoolStep s u
  halt :
      (front back : List Worker) (w : Worker)
      → s.workers ≡ front ++ w ∷ back
      → w.pt.exit ≡ false
      → u ≡ record s { workers = front ++ tell w ∷ back }
      → PoolStep s u

abbrev pub begin : PolThrd → Worker
begin pt = record { pt = pt; stand = sleeping; freed = []; got = []; ran = [] }

abbrev pub begin_each : List PolThrd → List Worker
begin_each [] = []
begin_each (pt ∷ pts) = begin pt ∷ begin_each pts

-- From the `amt` threads of `cl_trpo_create` on.
pub data Runs (amt : ℕ) : Running → Type 0 where
  start : Runs amt (record { workers = begin_each (cre_thrds amt); posted = [] })
  later : {s u : Running} → Runs amt s → PoolStep s u → Runs amt u
