-- ===== src/Event/Thread.antt =====
-- evt/event.c: the rounds of the thread over the published events.
use libccll.Base.{
  append_assoc, append-nil, ℕ, zero, suc, ◌+◌, ◌-◌, ◌≡◌, refl, ap, ◌∙◌, Bool, List, [], ◌∷◌, ◌++◌,
  ◌==◌, if◌then◌else◌, arith, length, Bool-cases, inl, inr,
}
use libccll.Event.{ClEvt, ClEvtLsnr, Call, notified, freed, notify, release, evt_round, evt_thread}

-- the callbacks that are subscribed to an event, in the order of their subscription
unfoldable pub subscribers : ℕ → List ClEvtLsnr → List ℕ
subscribers evt_no [] = []
subscribers evt_no (l ∷ ls) =
    if l.no == evt_no then l.cb ∷ subscribers evt_no ls else subscribers evt_no ls

-- the calls up to the first that consumes the event
unfoldable pub spread : (answer : (cb no data_ptr : ℕ) → Bool) → ClEvt → List ℕ → List Call
spread answer evt [] = []
spread answer evt (cb ∷ cbs) =
    notified cb evt.no evt.data_ptr
    ∷ (if answer cb evt.no evt.data_ptr then [] else spread answer evt cbs)

notify-spread :
    (answer : (cb no data_ptr : ℕ) → Bool) (evt : ClEvt) (ls : List ClEvtLsnr)
    → notify answer evt ls ≡ spread answer evt (subscribers evt.no ls)
unfolding notify subscribers spread
notify-spread answer evt [] = refl
notify-spread answer evt (l ∷ ls) = elim (Bool-cases (l.no == evt.no)) [
  | inl same ↦ rw same (rw (notify-spread answer evt ls) refl)
  | inr other ↦ rw other (notify-spread answer evt ls)
]

-- the call that gives an event's payload back, unless there is no function to call
abbrev pub owed_at : (free_fun data_ptr : ℕ) → List Call
owed_at zero data_ptr = []
owed_at (suc f) data_ptr = freed (suc f) data_ptr ∷ []

abbrev pub owed : ClEvt → List Call
owed evt = owed_at evt.free_fun evt.data_ptr

release_at : (f d : ℕ) → (if f == 0 then [] else freed f d ∷ []) ≡ owed_at f d
release_at zero d = refl
release_at (suc f) d = ground arith

pub release-owed : (evt : ClEvt) → release evt ≡ owed evt
unfolding release
release-owed evt = release_at evt.free_fun evt.data_ptr

-- what a run of the thread calls for a list of events
unfoldable pub calls_for :
    (answer : (cb no data_ptr : ℕ) → Bool) → List ClEvtLsnr → List ClEvt → List Call
calls_for answer ls [] = []
calls_for answer ls (evt ∷ evts) =
    spread answer evt (subscribers evt.no ls) ++ (owed evt ++ calls_for answer ls evts)

regroup : (a b c d : List Call) → (a ++ (b ++ c)) ++ d ≡ a ++ (b ++ (c ++ d))
regroup a b c d = append_assoc a (b ++ c) d ∙ ap (◌++◌ a) (append_assoc b c d)

-- Once the thread had as many rounds as events wait, it has notified the subscribers of each event in
-- the order of their subscription, up to the first that consumes it, and has given each payload back to
-- its release function if there is one, all in the order of publication; no event is left, and the
-- semaphore is down by as many.
pub evt_thread-calls_for :
    (answer : (cb no data_ptr : ℕ) → Bool) (evts : List ClEvt) (ls : List ClEvtLsnr) (n : ℕ)
    (calls : List Call)
    → evt_thread
        (length evts)
        answer
        (record { li_evt = evts; li_lsnrs = ls; sm_evt = length evts + n; calls = calls })
      ≡ record { li_evt = []; li_lsnrs = ls; sm_evt = n; calls = calls ++ calls_for answer ls evts }
unfolding evt_thread evt_round calls_for
evt_thread-calls_for answer [] ls n calls =
    let none_left : 0 + n ≡ n = omega arith in rw none_left (rw (append-nil calls) refl)
evt_thread-calls_for answer (evt ∷ evts) ls n calls =
    let step : suc (length evts) + n - 1 ≡ length evts + n = omega arith in
    rw (step, evt_thread)
      (rw (notify-spread answer evt ls, release-owed evt)
        (evt_thread-calls_for answer evts ls n _ ∙ rw (regroup calls _ (owed evt) _) refl))
