-- ===== src/ThrdPool/Worker.antt =====
-- sys/thrdpool.c: the rounds of a worker while work is posted.
use libccll.Base.{
  append_assoc, append-nil, ◌≡◌, refl, sym, ap, ◌∙◌, List, [], ◌∷◌, ◌++◌, arith, length,
  length-append, ◌≤◌, ◌+◌, ◌-◌,
}
use libccll.ThrdPool.{WorkFun, PolThrd, worker_round, worker_thread}

-- all that is posted, in order
abbrev pub all_posted : List (List WorkFun) → List WorkFun
all_posted [] = []
all_posted (posted ∷ later) = posted ++ all_posted later

worker_thread_order :
    (posts : List (List WorkFun)) (pt : PolThrd) (queue : List WorkFun)
    → pt.wkfn_list ≡ queue
    → (worker_thread posts pt).0 ++ (worker_thread posts pt).1.wkfn_list ≡ queue ++ all_posted posts
unfolding worker_thread worker_round
worker_thread_order [] pt queue e = e ∙ sym (append-nil queue)
worker_thread_order (posted ∷ later) pt [] e = rw e (worker_thread_order later _ posted refl)
worker_thread_order (posted ∷ later) pt (wf ∷ wfs) e = rw e (
    ap (◌∷◌ wf) (
      worker_thread_order later _ (wfs ++ posted) refl
      ∙ append_assoc wfs posted (all_posted later)))

worker_thread_smp :
    (posts : List (List WorkFun)) (pt : PolThrd) (queue : List WorkFun)
    → pt.wkfn_list ≡ queue
    → pt.smp ≡ length queue
    → (worker_thread posts pt).1.smp ≡ length ((worker_thread posts pt).1.wkfn_list)
unfolding worker_thread worker_round
worker_thread_smp [] pt queue e s = s ∙ ap length (sym e)
worker_thread_smp (posted ∷ later) pt [] e s =
    rw e (worker_thread_smp later _ posted refl (omega (arith, s)))
worker_thread_smp (posted ∷ later) pt (wf ∷ wfs) e s =
    rw e
      (worker_thread_smp later _ (wfs ++ posted) refl (omega (arith, s, length-append wfs posted)))

-- Whatever is posted while a worker runs: what it has run, followed by what waits, is what waited at
-- first followed by what was posted, in order; and if the semaphore counted the queue at first, it
-- counts it at the end.
worker_thread-all_posted :
    (posts : List (List WorkFun)) (pt : PolThrd)
    → pt.smp ≡ length pt.wkfn_list
    → ((worker_thread posts pt).0 ++ (worker_thread posts pt).1.wkfn_list
        ≡ pt.wkfn_list ++ all_posted posts)
      × ((worker_thread posts pt).1.smp ≡ length ((worker_thread posts pt).1.wkfn_list))
worker_thread-all_posted posts pt s =
    (worker_thread_order posts pt _ refl, worker_thread_smp posts pt _ refl s)

ran_first :
    (posts : List (List WorkFun)) (pt : PolThrd) (waiting behind : List WorkFun)
    → pt.wkfn_list ≡ waiting ++ behind
    → length waiting ≤ length posts
    → (later : List WorkFun) × ((worker_thread posts pt).0 ≡ waiting ++ later)
unfolding worker_thread worker_round
ran_first posts pt [] behind e enough = ((worker_thread posts pt).0, refl)
ran_first [] pt (wf ∷ wfs) behind e enough = absurd (omega (arith, enough))
ran_first (posted ∷ later) pt (wf ∷ wfs) behind e enough =
    let (more, ran) =
      ran_first later
        (record pt { wkfn_list = (wfs ++ behind) ++ posted; smp = pt.smp - 1 + length posted }) wfs
        (behind ++ posted) (append_assoc wfs behind posted) (omega (arith, enough)) in
    (more, rw e (ap (◌∷◌ wf) ran))

-- After at least as many rounds as work functions wait, a worker has run all of them, in order and
-- before any other, whatever is posted meanwhile.
worker_thread-all_waiting :
    (posts : List (List WorkFun)) (pt : PolThrd)
    → length pt.wkfn_list ≤ length posts
    → (later : List WorkFun) × ((worker_thread posts pt).0 ≡ pt.wkfn_list ++ later)
worker_thread-all_waiting posts pt enough =
    ran_first posts pt pt.wkfn_list [] (sym (append-nil pt.wkfn_list)) enough
