-- ===== src/Event/System/Rounds.antt =====
-- evt/event.c: `cl_evt_pub` and the rounds of `_evt_thread` as runs of the steps.
use libccll.Base.{ℕ, suc, Bool, true, List, [], ◌∷◌, ◌++◌, ◌≡◌, refl, arith}
use libccll.Event.{ClEvt, cl_evt_pub, evt_round}
use libccll.Event.System.{
  Thread, sleeping, woken, handling, System, Move, post, wait, pop, finish, Step, enqueue,
}
use libccll.Event.System.Progress.{Moves, stay, go}

abbrev taken : System → (thread : Thread) → List ClEvt → ℕ → System
taken s thread evts n = record s {
  thread = thread;
  evt = record s.evt { li_evt = evts; sm_evt = n };
}

-- Undisturbed, a round of the thread with an event is three steps of it, with the effect that `evt_round`
-- has on the service.
evt_round-Moves :
    (answer : (cb no data_ptr : ℕ) → Bool) (s : System) (e : ClEvt) (evts : List ClEvt) (n : ℕ)
    → s.thread ≡ sleeping
    → s.l_run ≡ true
    → s.evt.li_evt ≡ e ∷ evts
    → s.evt.sm_evt ≡ suc n
    → Moves answer s 3 (record s {
      thread = sleeping;
      evt = evt_round answer s.evt;
      handled = s.handled ++ e ∷ [];
    })
unfolding evt_round
evt_round-Moves answer s e evts n at on front count =
    let taking : Move answer s (taken s woken s.evt.li_evt n) = wait n at count refl in
    let popping : Move answer (taken s woken s.evt.li_evt n) (taken s (handling e) evts n) =
      pop e evts refl front refl in
    go (go (go stay taking) popping) (finish e refl (ground (arith, on, front, count)))

-- Undisturbed, a `cl_evt_pub` with memory is two steps.
cl_evt_pub-steps :
    (answer : (cb no data_ptr : ℕ) → Bool) (s : System) (evt_no data_ptr free_fun : ℕ)
    → (u : System) × Step answer s u
      × Move answer u (record s {
        evt = (cl_evt_pub true evt_no data_ptr free_fun s.evt).1;
        published =
            s.published ++ record { no = evt_no; data_ptr = data_ptr; free_fun = free_fun } ∷ [];
      })
unfolding cl_evt_pub
cl_evt_pub-steps answer s evt_no data_ptr free_fun = (
  _,
  enqueue (record { no = evt_no; data_ptr = data_ptr; free_fun = free_fun }) refl,
  post s.posting (omega arith) refl,
)
