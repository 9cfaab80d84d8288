-- ===== src/ThrdPool/Reach.antt =====
-- sys/thrdpool.c: the pools in any order of calls and of rounds of the workers.
use libccll.Base.{ℕ, ◌≤◌, ◌≡◌, true, List, [], ◌∷◌, ◌++◌, length}
use libccll.ThrdPool.{
  WorkFun, PolThrd, Pool, posted, get_cur_thrd_cnt, cl_trpo_create, cl_trpo_post, worker_round,
  cl_trpo_destroy,
}
use libccll.ThrdPool.Create.{ids}

-- the semaphores of the threads count their queues
abbrev pub AreCounted : List PolThrd → Type 0
AreCounted [] = Unit
AreCounted (pt ∷ pts) = (pt.smp ≡ length pt.wkfn_list) × AreCounted pts

-- and every pool has as many threads as it says, at least one and at most 256
abbrev pub AreWhole : List Pool → Type 0
AreWhole [] = Unit
AreWhole (pool ∷ pools) =
    (pool.amt ≡ length pool.pts)
    × (1 ≤ pool.amt)
    × (pool.amt ≤ 256)
    × AreCounted pool.pts
    × AreWhole pools

-- What the calls reach between `cl_trpo_init` and `cl_trpo_deinit`, a worker's round being one step that
-- takes a count of its semaphore.
pub data Reach (nprocs : ℕ) : List Pool → Type 0 where
  start : Reach nprocs []
  create :
      {pools : List Pool} (amount : ℕ)
      → Reach nprocs pools
      → Reach nprocs ((cl_trpo_create true nprocs amount pools).1)
  post :
      {pools left : List Pool} (id : ℕ) (wf : WorkFun)
      → Reach nprocs pools
      → cl_trpo_post true id wf pools ≡ posted left
      → Reach nprocs left
  run :
      (before behind : List Pool) (pool : Pool) (front back : List PolThrd) (pt : PolThrd)
      → Reach nprocs (before ++ pool ∷ behind)
      → pool.pts ≡ front ++ pt ∷ back
      → 1 ≤ pt.smp
      → Reach nprocs
          (before ++ record pool { pts = front ++ (worker_round [] pt).1 ∷ back } ∷ behind)
  destroy :
      {pools : List Pool} (id : ℕ)
      → Reach nprocs pools
      → Reach nprocs ((cl_trpo_destroy id pools).0)

-- what a post keeps of the pools
record Kept (pools left : List Pool) : Type 0 where
  ids_kept : ids left ≡ ids pools
  cnt_kept : get_cur_thrd_cnt left ≡ get_cur_thrd_cnt pools
  whole : AreWhole left
