-- ===== src/Event/System/Tests.antt =====
-- An event that is published and handled by the thread; and a thread that begins behind `cl_evt_deinit`.
use libccll.Base.{ℕ, Bool, true, [], ◌∷◌, ◌++◌, ◌≡◌, ◌≤◌, ◌+◌, refl, length}
use libccll.Event.{ClEvt, notify, release}
use libccll.Event.System.{
  System, sleeping, Move, post, wait, pop_none, pop, finish, move, begin, enqueue, halt, init,
  Reach, start, later,
}
use libccll.Event.System.Order.{in_hand, is_woken, releases, release_each, Reach-ordered}
use libccll.Event.System.Progress.{Moves, stay, go, work, Moves-settled}

abbrev answer : (cb no data_ptr : ℕ) → Bool
answer cb num ptr = true

abbrev event : ClEvt
event = record { no = 7; data_ptr = 64; free_fun = 9 }

abbrev published_one : System
published_one = record init {
  thread = sleeping;
  l_run = true;
  posting = 1;
  evt = record { li_evt = event ∷ []; li_lsnrs = []; sm_evt = 0; calls = [] };
  published = event ∷ [];
}

published_one-Reach : Reach answer published_one
published_one-Reach = later (later start (begin refl refl)) (enqueue event refl)

Reach-ordered_example :
    (published_one.published
      ≡ published_one.handled ++ (in_hand published_one.thread ++ published_one.evt.li_evt))
    × (releases published_one.evt.calls ≡ release_each published_one.handled)
    × (length published_one.evt.li_evt
        ≤ published_one.posting + published_one.evt.sm_evt + is_woken published_one.thread)
    × (published_one.posting + published_one.evt.sm_evt + is_woken published_one.thread
        ≤ length published_one.evt.li_evt + published_one.halts)
Reach-ordered_example = Reach-ordered answer published_one published_one-Reach

abbrev settled : System
settled = record published_one {
  posting = 0;
  evt = record {
    li_evt = [];
    li_lsnrs = [];
    sm_evt = 0;
    calls = notify answer event [] ++ release event;
  };
  handled = event ∷ [];
}

settled-Moves : Moves answer published_one 4 settled
settled-Moves =
    go (go (go (go stay (post 0 refl refl)) (wait 0 refl refl refl)) (pop event [] refl refl refl))
      (finish event refl refl)

settled-still : (v : System) → ¬ Move answer settled v
settled-still v (post n due e) = cc
settled-still v (wait n at count e) = cc
settled-still v (pop_none at none_left e) = cc
settled-still v (pop d evts at front e) = cc
settled-still v (finish d at e) = cc

Moves-settled_example : (settled.handled ≡ published_one.published) × (4 ≤ work published_one)
Moves-settled_example =
    Moves-settled answer published_one settled 4 published_one-Reach refl tt settled-Moves
      settled-still

-- `cl_evt_deinit` before the thread has begun: the thread sets `l_run` again, and waits for good
abbrev missed : System
missed = record init { thread = sleeping; l_run = true; halts = 1 }

missed-Reach : Reach answer missed
missed-Reach =
    later
      (later (later (later (later start (halt refl)) (move (post 0 refl refl))) (begin refl refl))
        (move (wait 0 refl refl refl)))
      (move (pop_none refl refl refl))

missed-still : (v : System) → ¬ Move answer missed v
missed-still v (post n due e) = cc
missed-still v (wait n at count e) = cc
missed-still v (pop_none at none_left e) = cc
missed-still v (pop d evts at front e) = cc
missed-still v (finish d at e) = cc
