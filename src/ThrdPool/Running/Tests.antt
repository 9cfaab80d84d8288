-- ===== src/ThrdPool/Running/Tests.antt =====
-- Two threads with three pieces of work; and one that works beside two that are told to exit, the one with
-- an empty queue and the other with two pieces of work.
use mathlib.Core.List.{Perm}
use libccll.Base.{
  true, ap, length, length-append, arith, sym, ◌∙◌, ℕ, ◌*◌, false, ◌≡◌, ◌≤◌, refl, List, [], ◌∷◌,
  ◌++◌,
}
use libccll.ThrdPool.{WorkFun, cre_thrds, exit_worker, exit_loop}
use libccll.ThrdPool.Running.{
  Stand, tell, halt, ended, broken, sleeping, woken, cleared, running, Worker, WorkerMove, wait,
  leave, free_twice, look, pick_none, pick, finish, hand, Running, PoolMove, move, post, begin,
  Runs, start, later,
}
use libccll.ThrdPool.Running.Order.{AllOrderly, all_got, Runs-once}
use libccll.ThrdPool.Running.Progress.{
  PoolMoves, exits, AllDone, all_left, stay, go, PoolMoves-settled,
}

abbrev job : ℕ → WorkFun
job fun = record { addr = 64 * fun; wkfn = fun; args = 0 }

abbrev idle : Worker
idle = begin (record { smp = 0; exit = false; wkfn_list = [] })

-- the first thread has two pieces of work, the second one has one
abbrev posted_three : Running
posted_three = record {
  workers = hand (job 3) (hand (job 1) idle) ∷ (hand (job 2) idle ∷ []);
  posted = job 1 ∷ (job 2 ∷ (job 3 ∷ []));
}

posted_three-Runs : Runs 2 posted_three
unfolding cre_thrds
posted_three-Runs =
    later
      (later (later start (post [] (idle ∷ []) idle (job 1) refl refl))
        (post (hand (job 1) idle ∷ []) [] idle (job 2) refl refl))
      (post [] (hand (job 2) idle ∷ []) (hand (job 1) idle) (job 3) refl refl)

Runs-once_example :
    Perm posted_three.posted (all_got posted_three.workers) × AllOrderly posted_three.workers
Runs-once_example = Runs-once 2 posted_three posted_three-Runs

-- a thread with one piece of work, one that is told to exit, and one that is told to with two pieces of work
abbrev three : Worker → Worker → Worker → Running
three first second third = record {
  workers = first ∷ (second ∷ (third ∷ []));
  posted = job 1 ∷ (job 2 ∷ (job 3 ∷ []));
}

abbrev loaded : Worker
loaded = hand (job 3) (hand (job 2) idle)

abbrev posted_each : Running
posted_each = three (hand (job 1) idle) (tell idle) (tell loaded)

posted_each-Runs : Runs 3 posted_each
unfolding cre_thrds
posted_each-Runs =
    let work : Worker = hand (job 1) idle in
    later
      (later
        (later
          (later (later start (post [] (idle ∷ (idle ∷ [])) idle (job 1) refl refl))
            (post (work ∷ (idle ∷ [])) [] idle (job 2) refl refl))
          (post (work ∷ (idle ∷ [])) [] (hand (job 2) idle) (job 3) refl refl))
        (halt (work ∷ []) (loaded ∷ []) idle refl refl refl))
      (halt (work ∷ (tell idle ∷ [])) [] loaded refl refl refl)

-- the first thread at each place, its count being taken
abbrev at_work : Stand → Worker
at_work t = record (hand (job 1) idle) {
  stand = t;
  pt = record { smp = 0; exit = false; wkfn_list = job 1 ∷ [] };
}

abbrev worked : Worker
worked = record idle { got = job 1 ∷ []; ran = job 1 ∷ [] }

-- the second one, its count being taken
abbrev leaving : Stand → Worker
leaving t = record idle { stand = t; pt = record { smp = 0; exit = true; wkfn_list = [] } }

-- the third one
abbrev doomed : Stand → List ℕ → Worker
doomed t freed = record loaded {
  stand = t;
  freed = freed;
  pt = record { smp = 2; exit = true; wkfn_list = job 2 ∷ (job 3 ∷ []) };
}

abbrev done_each : Running
done_each = three worked (leaving ended) (doomed broken (128 ∷ (128 ∷ [])))

posted_each-PoolMoves : PoolMoves posted_each 8 done_each
unfolding exit_worker exit_loop
posted_each-PoolMoves =
    let first : (w v u x : Worker) → WorkerMove w v → PoolMove (three w u x) (three v u x) =
      λ w v u x m. move [] (u ∷ (x ∷ [])) w v refl m refl in
    let second : (w v u x : Worker) → WorkerMove w v → PoolMove (three u w x) (three u v x) =
      λ w v u x m. move (u ∷ []) (x ∷ []) w v refl m refl in
    let third : (w v u x : Worker) → WorkerMove w v → PoolMove (three u x w) (three u x v) =
      λ w v u x m. move (u ∷ (x ∷ [])) [] w v refl m refl in
    go
      (go
        (go
          (go
            (go
              (go
                (go
                  (go stay (
                    first (hand (job 1) idle) (at_work woken) (tell idle) (tell loaded)
                      (wait 0 refl refl refl)))
                  (first (at_work woken) (at_work cleared) (tell idle) (tell loaded)
                    (look refl refl refl)))
                (second (tell idle) (leaving woken) (at_work cleared) (tell loaded)
                  (wait 0 refl refl refl)))
              (first (at_work cleared) (at_work (running (job 1))) (leaving woken) (tell loaded)
                (pick (job 1) [] refl refl refl)))
            (second (leaving woken) (leaving ended) (at_work (running (job 1))) (tell loaded)
              (leave refl refl (omega arith) refl)))
          (first (at_work (running (job 1))) worked (leaving ended) (tell loaded)
            (finish (job 1) [] refl refl refl)))
        (third (tell loaded) (doomed woken []) worked (leaving ended) (wait 2 refl refl refl)))
      (third (doomed woken []) (doomed broken (128 ∷ (128 ∷ []))) worked (leaving ended)
        (free_twice (job 2) (job 3) [] refl refl refl refl))

-- a thread that sleeps with a count of 0 does not move
asleep : (w v : Worker) → w.stand ≡ sleeping → w.pt.smp ≡ 0 → WorkerMove w v → ⊥
asleep w v at none_posted (wait n at1 count e) = omega (arith, none_posted, count)
asleep w v at none_posted (leave at1 on few e) = let clash : sleeping ≡ woken = sym at ∙ at1 in cc
asleep w v at none_posted (free_twice a b c at1 on queue e) =
    let clash : sleeping ≡ woken = sym at ∙ at1 in cc
asleep w v at none_posted (look at1 off e) = let clash : sleeping ≡ woken = sym at ∙ at1 in cc
asleep w v at none_posted (pick_none at1 empty e) =
    let clash : sleeping ≡ cleared = sym at ∙ at1 in cc
asleep w v at none_posted (pick wf wfs at1 queue e) =
    let clash : sleeping ≡ cleared = sym at ∙ at1 in cc
asleep w v at none_posted (finish wf wfs at1 queue e) =
    let clash : sleeping ≡ running wf = sym at ∙ at1 in cc

-- nor does one that has ended, or that is broken
gone : (w v : Worker) → w.stand ≡ ended → WorkerMove w v → ⊥
gone w v at (wait n at1 count e) = let clash : ended ≡ sleeping = sym at ∙ at1 in cc
gone w v at (leave at1 on few e) = let clash : ended ≡ woken = sym at ∙ at1 in cc
gone w v at (free_twice a b c at1 on queue e) = let clash : ended ≡ woken = sym at ∙ at1 in cc
gone w v at (look at1 off e) = let clash : ended ≡ woken = sym at ∙ at1 in cc
gone w v at (pick_none at1 empty e) = let clash : ended ≡ cleared = sym at ∙ at1 in cc
gone w v at (pick wf wfs at1 queue e) = let clash : ended ≡ cleared = sym at ∙ at1 in cc
gone w v at (finish wf wfs at1 queue e) = let clash : ended ≡ running wf = sym at ∙ at1 in cc

lost : (w v : Worker) → w.stand ≡ broken → WorkerMove w v → ⊥
lost w v at (wait n at1 count e) = let clash : broken ≡ sleeping = sym at ∙ at1 in cc
lost w v at (leave at1 on few e) = let clash : broken ≡ woken = sym at ∙ at1 in cc
lost w v at (free_twice a b c at1 on queue e) = let clash : broken ≡ woken = sym at ∙ at1 in cc
lost w v at (look at1 off e) = let clash : broken ≡ woken = sym at ∙ at1 in cc
lost w v at (pick_none at1 empty e) = let clash : broken ≡ cleared = sym at ∙ at1 in cc
lost w v at (pick wf wfs at1 queue e) = let clash : broken ≡ cleared = sym at ∙ at1 in cc
lost w v at (finish wf wfs at1 queue e) = let clash : broken ≡ running wf = sym at ∙ at1 in cc

not_empty : (front back : List Worker) (w : Worker) → [] ≡ front ++ w ∷ back → ⊥
not_empty front back w e = omega (arith, ap length e, length-append front (w ∷ back))

done_each-at :
    (front back : List Worker) (w v : Worker)
    → done_each.workers ≡ front ++ w ∷ back
    → WorkerMove w v
    → ⊥
done_each-at [] back w v at m =
    let same : worked ≡ w = cc in
    asleep w v (ap (λ x. x.stand) (sym same)) (ap (λ x. x.pt.smp) (sym same)) m
done_each-at (x ∷ []) back w v at m =
    let same : leaving ended ≡ w = cc in gone w v (ap (λ x. x.stand) (sym same)) m
done_each-at (x ∷ y ∷ []) back w v at m =
    let same : doomed broken (128 ∷ (128 ∷ [])) ≡ w = cc in
    lost w v (ap (λ x. x.stand) (sym same)) m
done_each-at (x ∷ y ∷ z ∷ front) back w v at m = not_empty front back w cc

done_each-still : (v : Running) → ¬ PoolMove done_each v
done_each-still u (move front back w v at m e) = done_each-at front back w v at m

PoolMoves-settled_example :
    (8 ≤ all_left posted_each.workers)
    × AllDone (exits posted_each.workers) done_each.workers
    × Perm posted_each.posted (all_got done_each.workers)
PoolMoves-settled_example =
    PoolMoves-settled 3 posted_each done_each 8 posted_each-Runs posted_each-PoolMoves
      done_each-still
