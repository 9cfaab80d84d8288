-- ===== src/ThrdPool/Tests.antt =====
-- The theorems on pools with two pools and three queues.
use libccll.Base.{◌++◌, ◌+◌, ℕ, ◌≡◌, refl, true, false, some, List, [], ◌∷◌, arith, length}
use libccll.ThrdPool.{
  WorkFun, PolThrd, Pool, get_cur_thrd_cnt, is_using, id_loop, cre_pol_id, cl_trpo_create,
  cl_trpo_post, posted,
}
use libccll.ThrdPool.Reach.{Reach}
use libccll.ThrdPool.Create.{IsPools}
use libccll.ThrdPool.Post.{NoneShorter, with_work, cl_trpo_post-shortest}

abbrev work : ℕ → WorkFun
work fun = record { addr = 4096 + fun; wkfn = fun; args = 0 }

abbrev thrd : List WorkFun → PolThrd
thrd queue = record { smp = length queue; exit = false; wkfn_list = queue }

abbrev thrds : List PolThrd
thrds = thrd (work 1 ∷ (work 2 ∷ [])) ∷ (thrd (work 3 ∷ []) ∷ (thrd (work 4 ∷ []) ∷ []))

abbrev pools : List Pool
pools =
    record { id = 0; amt = 3; pts = thrds } ∷ (record { id = 2; amt = 1; pts = thrd [] ∷ [] } ∷ [])

pools-IsPools : IsPools 4 pools
unfolding get_cur_thrd_cnt
pools-IsPools = record { distinct = ((ground arith, tt), (tt, tt)); bounded = omega arith }

no_pool : is_using 0 [] ≡ false
unfolding is_using
no_pool = refl

created : (cl_trpo_create true 4 8 pools).0 ≡ some 1
unfolding cl_trpo_create get_cur_thrd_cnt cre_pol_id id_loop is_using
created = refl

abbrev first_pool : Pool
first_pool = record { id = 0; amt = 3; pts = thrds }

abbrev others : List Pool
others = record { id = 2; amt = 1; pts = thrd [] ∷ [] } ∷ []

cl_trpo_post-shortest_example :
    (front : List PolThrd) × (pt : PolThrd) × (back : List PolThrd) × (thrds ≡ front ++ pt ∷ back)
    × NoneShorter (length pt.wkfn_list) thrds
    × (cl_trpo_post true 0 (work 5) pools
        ≡ posted (record first_pool { pts = front ++ with_work (work 5) pt ∷ back } ∷ others))
cl_trpo_post-shortest_example =
    cl_trpo_post-shortest 0 (work 5) [] first_pool others 0 (thrd (work 1 ∷ (work 2 ∷ []))) tt refl
      refl (omega arith)

abbrev posts : List (List WorkFun)
posts = (work 6 ∷ []) ∷ ([] ∷ ((work 7 ∷ []) ∷ []))

-- a pool of two threads that is created, gets work twice and runs one of them
abbrev started : List Pool
started = record { id = 0; amt = 2; pts = thrd [] ∷ (thrd (work 5 ∷ []) ∷ []) } ∷ []
