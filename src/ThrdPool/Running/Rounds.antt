-- ===== src/ThrdPool/Running/Rounds.antt =====
-- sys/thrdpool.c: `cl_trpo_post` and a round of `_worker_thread` as steps of the running pool.
use libccll.Base.{
  false, ℕ, zero, suc, ◌≡◌, refl, sym, ap, ◌∙◌, Option, some, List, [], ◌∷◌, ◌++◌, map, arith,
  length, append-nil, append_assoc, ◌<◌, ◌+◌, ◌⊎◌, inl, inr, none, ltb, ◌==◌, Bool-cases,
  Option-cases,
}
use libccll.ThrdPool.{WorkFun, PolThrd, select, push_at, post_to, worker_round, queue_size}
use libccll.ThrdPool.Running.{
  sleeping, woken, cleared, running, Worker, wait, look, pick, finish, hand, Running, PoolMove,
  move, PoolStep, post,
}
use libccll.ThrdPool.Running.Progress.{PoolMoves, stay, go}

-- the threads without the history
abbrev pub thrds : List Worker → List PolThrd
thrds [] = []
thrds (w ∷ ws) = w.pt ∷ thrds ws

thrds-append : (a b : List Worker) → thrds (a ++ b) ≡ thrds a ++ thrds b
thrds-append [] b = refl
thrds-append (w ∷ a) b = ap (◌∷◌ w.pt) (thrds-append a b)

-- Undisturbed, a round of a thread with work is four steps of it, with the effect of `worker_round`.
worker_round-PoolMoves :
    (s : Running) (front back : List Worker) (w : Worker) (wf : WorkFun) (wfs : List WorkFun)
    (n : ℕ)
    → s.workers ≡ front ++ w ∷ back
    → w.stand ≡ sleeping
    → w.pt.exit ≡ false
    → w.pt.wkfn_list ≡ wf ∷ wfs
    → w.pt.smp ≡ suc n
    → PoolMoves s 4 (record s {
      workers = front ++ record w { pt = (worker_round [] w.pt).1; ran = w.ran ++ wf ∷ [] } ∷ back;
    })
unfolding worker_round
worker_round-PoolMoves s front back w wf wfs n e at off queue count =
    let w1 : Worker = record w { stand = woken; pt = record w.pt { smp = n } } in
    let w0 : Worker = record w1 { stand = cleared } in
    let w2 : Worker = record w1 { stand = running wf } in
    let w3 : Worker = record w { pt = (worker_round [] w.pt).1; ran = w.ran ++ wf ∷ [] } in
    let same : w3 ≡ record w2 {
      stand = sleeping;
      pt = record w2.pt { wkfn_list = wfs };
      ran = w.ran ++ wf ∷ [];
    } =
      ground (arith, at, queue, count, append-nil wfs) in
    let s1 : Running = record s { workers = front ++ w1 ∷ back } in
    let s2 : Running = record s { workers = front ++ w2 ∷ back } in
    let waiting : PoolMove s s1 = move front back w w1 e (wait n at count refl) refl in
    let looking : PoolMove s1 (record s { workers = front ++ w0 ∷ back }) =
      move front back w1 w0 refl (look refl off refl) refl in
    let picking : PoolMove (record s { workers = front ++ w0 ∷ back }) s2 =
      move front back w0 w2 refl (pick wf wfs refl queue refl) refl in
    go (go (go (go stay waiting) looking) picking)
      (move front back w2 w3 refl (finish wf wfs refl queue same) refl)

-- the thread to which `push_at` adds, if there is one
push_at-PoolStep :
    (s : Running) (k : ℕ) (wf : WorkFun) (front back : List Worker)
    → s.workers ≡ front ++ back
    → k < length back
    → (u : Running) × PoolStep s u × (thrds u.workers ≡ thrds front ++ push_at k wf (thrds back))
unfolding push_at
push_at-PoolStep s k wf front [] e h = absurd (omega arith)
push_at-PoolStep s zero wf front (w ∷ back) e h =
    (_, post front back w wf e refl, thrds-append front (hand wf w ∷ back))
push_at-PoolStep s (suc k) wf front (w ∷ back) e h =
    let (u, st, same) =
      push_at-PoolStep s k wf (front ++ w ∷ []) back (e ∙ sym (append_assoc front (w ∷ []) back))
        (omega arith) in
    (
      u,
      st,
      same
          ∙ ap (λ q. q ++ push_at k wf (thrds back)) (thrds-append front (w ∷ []))
          ∙ append_assoc (thrds front) (w.pt ∷ []) (push_at k wf (thrds back)),
    )

select-bound :
    (i min k : ℕ) (pt : Option ℕ) (szs : List ℕ)
    → select i min pt szs ≡ some k
    → (pt ≡ some k) ⊎ (k < i + length szs)
unfolding select
select-bound i min k pt [] e = inl e
select-bound i min k pt (sz ∷ szs) e = elim (Bool-cases (sz == 0)) [
  | inl idle ↦
      let here : select i min pt (sz ∷ szs) ≡ some i = rw idle refl in
      let same : some i ≡ some k = sym here ∙ e in let at : i ≡ k = cc in inr (omega (arith, at))
  | inr busy ↦ elim (Bool-cases (ltb sz min)) [
    | inl fewer ↦
        let next : select i min pt (sz ∷ szs) ≡ select (i + 1) sz (some i) szs =
          rw (busy, fewer) refl in
        elim (select-bound (i + 1) sz k (some i) szs (sym next ∙ e)) [
          | inl same ↦ let at : i ≡ k = cc in inr (omega (arith, at))
          | inr h ↦ inr (omega (arith, h))
        ]
    | inr more ↦
        let next : select i min pt (sz ∷ szs) ≡ select (i + 1) min pt szs = rw (busy, more) refl in
        elim (select-bound (i + 1) min k pt szs (sym next ∙ e)) [
          | inl same ↦ inl same
          | inr h ↦ inr (omega (arith, h))
        ]
  ]
]

length-sizes : (ws : List Worker) → length (map queue_size (thrds ws)) ≡ length ws
length-sizes [] = refl
length-sizes (w ∷ ws) = ap suc (length-sizes ws)

-- What `cl_trpo_post` does with a running pool is a step of it.
post_to-PoolStep :
    (s : Running) (wf : WorkFun) (pts : List PolThrd)
    → post_to wf (thrds s.workers) ≡ some pts
    → (u : Running) × PoolStep s u × (thrds u.workers ≡ pts)
unfolding post_to
post_to-PoolStep s wf pts e =
    elim (Option-cases (select 0 10000 none (map queue_size (thrds s.workers)))) [
      | inl nowhere ↦
          let stuck : post_to wf (thrds s.workers) ≡ none = rw (nowhere, post_to) refl in
          let clash : ◌≡◌ {A = Option (List PolThrd)} none (some pts) = sym stuck ∙ e in absurd cc
      | inr (k, at) ↦
          let there : post_to wf (thrds s.workers) ≡ some (push_at k wf (thrds s.workers)) =
            rw (at, post_to) refl in
          let same : some (push_at k wf (thrds s.workers)) ≡ some pts = sym there ∙ e in
          let bound : k < length s.workers =
            elim (select-bound 0 10000 k none (map queue_size (thrds s.workers)) at) [
              | inl first ↦ absurd cc
              | inr h ↦ omega (arith, h, length-sizes s.workers)
            ] in
          let (u, st, found) = push_at-PoolStep s k wf [] s.workers refl bound in
          (u, st, found ∙ (let e1 : push_at k wf (thrds s.workers) ≡ pts = cc in e1))
    ]
