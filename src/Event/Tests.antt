-- ===== src/Event/Tests.antt =====
-- The event theorems at concrete listeners.
use libccll.Base.{
  false, ◌⊎◌, inl, inr, ◌++◌, ℕ, ◌≡◌, ◌≢◌, ◌≤◌, refl, true, List, [], ◌∷◌, ◌==◌, arith,
}
use libccll.Event.{
  ClEvt, ClEvtLsnr, notified, freed, Evt, cl_evt_sub, cl_evt_unsub, evt_thread, release,
}
use libccll.Event.Thread.{subscribers, spread, calls_for, evt_thread-calls_for}
use libccll.Event.Sub.{Subscribed, NoneTwice, cl_evt_sub-NoneTwice, cl_evt_unsub-NoneTwice}

abbrev lsnr : ℕ → ℕ → ClEvtLsnr
lsnr evt_no cb = record { no = evt_no; cb = cb }

abbrev lsnrs : List ClEvtLsnr
lsnrs = lsnr 1 11 ∷ (lsnr 2 22 ∷ (lsnr 1 33 ∷ []))

abbrev evts : List ClEvt
evts =
    record { no = 1; data_ptr = 5; free_fun = 7 }
    ∷ (record { no = 2; data_ptr = 6; free_fun = 0 } ∷ [])

abbrev state : Evt
state = record { li_evt = evts; li_lsnrs = lsnrs; sm_evt = 2; calls = [] }

-- the first listener consumes the first event
calls_test :
    calls_for (λ cb evt_no data_ptr. cb == 11) lsnrs evts
    ≡ notified 11 1 5 ∷ (freed 7 5 ∷ (notified 22 2 6 ∷ []))
unfolding calls_for spread subscribers release
calls_test = refl

evt_thread-calls_for_example : evt_thread 2 (λ cb evt_no data_ptr. cb == 11) state ≡ record {
  li_evt = [];
  li_lsnrs = lsnrs;
  sm_evt = 0;
  calls = calls_for (λ cb evt_no data_ptr. cb == 11) lsnrs evts;
}
evt_thread-calls_for_example = evt_thread-calls_for (λ cb evt_no data_ptr. cb == 11) evts lsnrs 0 []

none_twice : NoneTwice lsnrs
none_twice = (
  (λ s. elim s [
    | inl (a, b) ↦ omega (arith, a)
    | inr t ↦ elim t [ inl (a, b) ↦ omega (arith, b) | inr u ↦ u ]
  ]),
  ((λ s. elim s [ inl (a, b) ↦ omega (arith, a) | inr t ↦ t ]), ((λ s. s), tt)),
)

set : (cb : ℕ) → 1 ≤ cb → cb ≢ 0
set cb le = λ e. ground (arith, le, e)

cl_evt_sub-NoneTwice_example :
    NoneTwice ((cl_evt_sub true 2 11 state).1.li_lsnrs)
    × ((Subscribed 2 11 lsnrs × (cl_evt_sub true 2 11 state ≡ (true, state)))
        ⊎ ((¬ Subscribed 2 11 lsnrs)
            × (cl_evt_sub true 2 11 state
                ≡ (true, record state { li_lsnrs = lsnrs ++ lsnr 2 11 ∷ [] }))))
cl_evt_sub-NoneTwice_example = cl_evt_sub-NoneTwice 2 11 state none_twice (set 11 (omega arith))

cl_evt_unsub-NoneTwice_example :
    ((front : List ClEvtLsnr) × (back : List ClEvtLsnr) × (lsnrs ≡ front ++ lsnr 2 22 ∷ back)
      × (cl_evt_unsub 2 22 state ≡ (true, record state { li_lsnrs = front ++ back }))
      × (¬ Subscribed 2 22 (front ++ back)))
    ⊎ ((¬ Subscribed 2 22 lsnrs) × (cl_evt_unsub 2 22 state ≡ (false, state)))
cl_evt_unsub-NoneTwice_example = cl_evt_unsub-NoneTwice 2 22 state none_twice (set 22 (omega arith))
