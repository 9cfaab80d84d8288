-- ===== src/ThrdPool/Destroy.antt =====
-- The end of a pool.
use libccll.Base.{
  ℕ, zero, suc, ◌≤◌, ◌≡◌, refl, sym, ap, none, List, [], ◌∷◌, ◌==◌, arith, length, replicate, NotIn,
  Distinct, Bool-cases, Option-cases, inl, inr,
}
use libccll.ThrdPool.{
  WorkFun, PolThrd, Pool, get_cur_thrd_cnt, pop_a_pool, exit_loop, exit_worker, cl_trpo_destroy,
}
use libccll.ThrdPool.Create.{ids, IsPools}

NotIn-pop :
    (j id : ℕ) (pools : List Pool) → NotIn j (ids pools) → NotIn j (ids ((pop_a_pool id pools).1))
unfolding pop_a_pool
NotIn-pop j id [] out = tt
NotIn-pop j id (pool ∷ pools) out = elim (Bool-cases (pool.id == id)) [
  | inl same ↦ rw same out.1
  | inr other ↦ rw other (out.0, NotIn-pop j id pools out.1)
]

Distinct-pop :
    (id : ℕ) (pools : List Pool) → Distinct (ids pools) → Distinct (ids ((pop_a_pool id pools).1))
unfolding pop_a_pool
Distinct-pop id [] h = tt
Distinct-pop id (pool ∷ pools) h = elim (Bool-cases (pool.id == id)) [
  | inl same ↦ rw same h.1
  | inr other ↦ rw other (NotIn-pop pool.id id pools h.0, Distinct-pop id pools h.1)
]

gone :
    (id : ℕ) (pools : List Pool) → Distinct (ids pools) → NotIn id (ids ((pop_a_pool id pools).1))
unfolding pop_a_pool
gone id [] h = tt
gone id (pool ∷ pools) h = elim (Bool-cases (pool.id == id)) [
  | inl same ↦
      let e : pool.id ≡ id = ground (arith, same) in
      let k : NotIn id (ids pools) = rw (sym e) h.0 in rw same k
  | inr other ↦ rw other ((λ e. ground (arith, other, e)), gone id pools h.1)
]

cnt-pop :
    (id : ℕ) (pools : List Pool)
    → get_cur_thrd_cnt ((pop_a_pool id pools).1) ≤ get_cur_thrd_cnt pools
unfolding pop_a_pool get_cur_thrd_cnt
cnt-pop id [] = omega arith
cnt-pop id (pool ∷ pools) = elim (Bool-cases (pool.id == id)) [
  | inl same ↦ rw same (omega arith)
  | inr other ↦ rw other (omega (arith, cnt-pop id pools))
]

-- a search that finds nothing has seen every pool
pop-none : (id : ℕ) (pools : List Pool) → (pop_a_pool id pools).0 ≡ none → NotIn id (ids pools)
unfolding pop_a_pool
pop-none id [] e = tt
pop-none id (pool ∷ pools) e = elim (Bool-cases (pool.id == id)) [
  | inl same ↦ absurd (ground (arith, same, e))
  | inr other ↦ ((λ f. ground (arith, other, f)), pop-none id pools (ground (arith, other, e)))
]

-- `cl_trpo_destroy` keeps the identifiers distinct and the threads within their limit, and no pool has
-- the identifier behind it, so that `cl_trpo_create` may use it again.
pub cl_trpo_destroy-IsPools :
    (nprocs id : ℕ) (pools : List Pool)
    → IsPools nprocs pools
    → IsPools nprocs ((cl_trpo_destroy id pools).0) × NotIn id (ids ((cl_trpo_destroy id pools).0))
unfolding cl_trpo_destroy
cl_trpo_destroy-IsPools nprocs id pools h = elim (Option-cases ((pop_a_pool id pools).0)) [
  | inl e ↦ rw (e, cl_trpo_destroy) (h, pop-none id pools e)
  | inr (pool, e) ↦
      let left : IsPools nprocs ((pop_a_pool id pools).1) = record {
        distinct = Distinct-pop id pools h.distinct;
        bounded = omega (arith, cnt-pop id pools, h.bounded);
      } in
      rw (e, cl_trpo_destroy) (left, gone id pools h.distinct)
]

exit_loop-replicate :
    (n : ℕ) (wf : WorkFun) (wfs : List WorkFun) → exit_loop n (wf ∷ wfs) ≡ replicate n wf.addr
unfolding exit_loop
exit_loop-replicate zero wf wfs = refl
exit_loop-replicate (suc n) wf wfs = ap (◌∷◌ wf.addr) (exit_loop-replicate n wf wfs)

-- A worker that exits while work waits frees the first node once for each node that waits, and none of
-- the others.
exit_worker-replicate :
    (pt : PolThrd) (wf : WorkFun) (wfs : List WorkFun)
    → pt.wkfn_list ≡ wf ∷ wfs
    → exit_worker pt ≡ replicate (suc (length wfs)) wf.addr
unfolding exit_worker
exit_worker-replicate pt wf wfs e = rw e (exit_loop-replicate (suc (length wfs)) wf wfs)
