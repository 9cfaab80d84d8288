-- ===== src/ThrdPool.antt =====
-- sys/thrdpool.c: pools of threads, each of which has a queue of its own. The lists are sequences, a
-- function and its arguments are numbers, 0 being null, and the threads of a pool are a list.
pub mod Create
pub mod Post
pub mod Worker
pub mod Destroy
pub mod Reach
pub mod Start
pub mod Running
mod Tests
use libccll.Base.{
  ℕ, zero, suc, ◌+◌, ◌-◌, ◌*◌, Bool, true, false, not, ◌||◌, Option, none, some, List, [], ◌∷◌,
  ◌++◌, map, ltb, leb, ◌==◌, if◌then◌else◌, length,
}

-- `WorkFun`, with the address of the node
pub record WorkFun : Type 0 where
  pub addr : ℕ
  pub wkfn : ℕ
  pub args : ℕ

-- `PolThrd`: the count of its semaphore, `exit` and its queue
pub record PolThrd : Type 0 where
  pub smp : ℕ
  pub exit : Bool
  pub wkfn_list : List WorkFun

-- `Pool`; `amt` is written down beside the threads, as in the source
pub record Pool : Type 0 where
  pub id : ℕ
  pub amt : ℕ
  pub pts : List PolThrd

-- `MAX_THRD_CNT_CRE`
abbrev pub max_thrd_cnt_cre : ℕ
max_thrd_cnt_cre = 256

-- `_get_cur_thrd_cnt`
unfoldable pub get_cur_thrd_cnt : List Pool → ℕ
get_cur_thrd_cnt [] = 0
get_cur_thrd_cnt (pool ∷ pools) = pool.amt + get_cur_thrd_cnt pools

unfoldable pub is_using : ℕ → List Pool → Bool
is_using i [] = false
is_using i (pool ∷ pools) = if pool.id == i then true else is_using i pools

-- the loop of `_cre_pol_id`, on the rounds left
unfoldable pub id_loop : ℕ → ℕ → List Pool → Option ℕ
id_loop zero i pools = none
id_loop (suc n) i pools =
    let rest = id_loop n (i + 1) pools in if is_using i pools then rest else some i

-- `_cre_pol_id`; `none` is -1
unfoldable pub cre_pol_id : List Pool → Option ℕ
cre_pol_id pools = id_loop 10000 0 pools

-- `_cre_thrds`
unfoldable pub cre_thrds : ℕ → List PolThrd
cre_thrds zero = []
cre_thrds (suc amt) = record { smp = 0; exit = false; wkfn_list = [] } ∷ cre_thrds amt

-- `cl_trpo_create` for an amount that is not negative; `nprocs` is what `get_nprocs_conf` returns, and
-- `none` is -1
unfoldable pub cl_trpo_create :
    (init : Bool) → (nprocs amount : ℕ) → List Pool → Option ℕ × List Pool
cl_trpo_create init nprocs amount pools =
    let cur_nrs = get_cur_thrd_cnt pools in
    let max_thrd_lmt = nprocs * 4 in
    if not init
    then (none, pools)
    else if ltb amount 1 || ltb max_thrd_cnt_cre amount
    then (none, pools)
    else if leb max_thrd_lmt cur_nrs
    then (none, pools)
    else if ltb max_thrd_lmt (cur_nrs + amount)
    then (none, pools)
    else elim (cre_pol_id pools) [
      | none ↦ (none, pools)
      | some id ↦ (some id, pools ++ record { id = id; amt = amount; pts = cre_thrds amount } ∷ [])
    ]

-- the loop of `cl_trpo_post` over the lengths of the queues: the thread that it selects
unfoldable pub select : (i min : ℕ) → (pt : Option ℕ) → List ℕ → Option ℕ
select i min pt [] = pt
select i min pt (sz ∷ szs) =
    let fewer = ltb sz min in
    let rest = select (i + 1) (if fewer then sz else min) (if fewer then some i else pt) szs in
    if sz == 0 then some i else rest

abbrev pub queue_size : PolThrd → ℕ
queue_size pt = length pt.wkfn_list

-- `list_add(&wf->list, &pt->wkfn_list); sem_post(&pt->smp);`
abbrev pub push : WorkFun → PolThrd → PolThrd
push wf pt = record pt { smp = pt.smp + 1; wkfn_list = pt.wkfn_list ++ wf ∷ [] }

unfoldable pub push_at : ℕ → WorkFun → List PolThrd → List PolThrd
push_at k wf [] = []
push_at zero wf (pt ∷ pts) = push wf pt ∷ pts
push_at (suc k) wf (pt ∷ pts) = pt ∷ push_at k wf pts

-- what `cl_trpo_post` does with the pool that it has found; `none` is where it locks the null `pt`
unfoldable pub post_to : WorkFun → List PolThrd → Option (List PolThrd)
post_to wf pts = elim (select 0 10000 none (map queue_size pts)) [
  | none ↦ none
  | some k ↦ some (push_at k wf pts)
]

-- one round of `_worker_thread` that does not exit, `sem_wait` included: what it runs, and the thread
-- behind it, `posted` being what was posted while it ran; with an empty queue, which no run of the
-- threads meets behind `sem_wait`, the code would take the head of the list for a work
unfoldable pub worker_round : (posted : List WorkFun) → PolThrd → Option WorkFun × PolThrd
worker_round posted pt = elim pt.wkfn_list [
  | [] ↦ (none, record pt { smp = pt.smp - 1 + length posted; wkfn_list = posted })
  | (wf ∷ wfs) ↦
      (some wf, record pt { smp = pt.smp - 1 + length posted; wkfn_list = wfs ++ posted })
]

-- one round for each list of what is posted meanwhile: all that is run, in order
unfoldable pub worker_thread : List (List WorkFun) → PolThrd → List WorkFun × PolThrd
worker_thread [] pt = ([], pt)
worker_thread (posted ∷ later) pt =
    let (ran, pt1) = worker_round posted pt in
    let (runs, pt2) = worker_thread later pt1 in
    (elim ran [ none ↦ runs | some wf ↦ wf ∷ runs ], pt2)

-- what `cl_trpo_post` answers: `FAIL`, the pools behind it, or no return, as it locks the null `pt`
pub data Posted : Type 0 where
  refused : Posted
  posted : List Pool → Posted
  stuck : Posted

abbrev pub keep_pool : Pool → Posted → Posted
keep_pool pool refused = refused
keep_pool pool (posted pools) = posted (pool ∷ pools)
keep_pool pool stuck = stuck

-- the search of the pool, and what is done with it
unfoldable pub post_in : (id : ℕ) → WorkFun → List Pool → Posted
post_in id wf [] = refused
post_in id wf (pool ∷ pools) =
    let rest = post_in id wf pools in
    if pool.id == id
    then elim (post_to wf pool.pts) [
      | none ↦ stuck
      | some pts ↦ posted (record pool { pts = pts } ∷ pools)
    ]
    else keep_pool pool rest

-- `cl_trpo_post`; the node `wf` is what `MALLOC` gave
unfoldable pub cl_trpo_post : (init : Bool) → (id : ℕ) → WorkFun → List Pool → Posted
cl_trpo_post init id wf pools = if init then post_in id wf pools else refused

-- the loop of `_worker_thread` on exit: in each round the first node is freed, and stays in the list
unfoldable pub exit_loop : ℕ → List WorkFun → List ℕ
exit_loop zero wfs = []
exit_loop (suc n) [] = []
exit_loop (suc n) (wf ∷ wfs) = wf.addr ∷ exit_loop n (wf ∷ wfs)

unfoldable pub exit_worker : PolThrd → List ℕ
exit_worker pt = exit_loop (length pt.wkfn_list) pt.wkfn_list

-- `_destroy_pol_thrd`: the addresses that the workers free, one worker after the other
unfoldable pub destroy_pol_thrd : List PolThrd → List ℕ
destroy_pol_thrd [] = []
destroy_pol_thrd (pt ∷ pts) = exit_worker pt ++ destroy_pol_thrd pts

-- the loop of `_pop_a_pool`: the list without the first pool with the identifier, and that pool
unfoldable pub pop_a_pool : ℕ → List Pool → Option Pool × List Pool
pop_a_pool id [] = (none, [])
pop_a_pool id (pool ∷ pools) =
    let (found, rest) = pop_a_pool id pools in
    if pool.id == id then (some pool, pools) else (found, pool ∷ rest)

-- `cl_trpo_destroy`: the pools that are left, and the addresses of work that are freed
unfoldable pub cl_trpo_destroy : (id : ℕ) → List Pool → List Pool × List ℕ
cl_trpo_destroy id pools =
    let (found, rest) = pop_a_pool id pools in
    elim found [ none ↦ (pools, []) | some pool ↦ (rest, destroy_pol_thrd pool.pts) ]

-- the loop of `cl_trpo_deinit`, which takes every pool
unfoldable pub cl_trpo_deinit : List Pool → List ℕ
cl_trpo_deinit [] = []
cl_trpo_deinit (pool ∷ pools) = destroy_pol_thrd pool.pts ++ cl_trpo_deinit pools
