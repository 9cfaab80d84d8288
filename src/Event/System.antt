-- ===== src/Event/System.antt =====
-- evt/event.c: the threads that publish and the one that handles, interleaved. What stands between two
-- locks, semaphore calls or reads of `l_run` is one step. The walk over the listeners is one too: the code
-- takes no lock for it, so that the model covers the runs in which no subscription changes meanwhile.
pub mod Order
pub mod Progress
pub mod Rounds
mod Tests
use libccll.Base.{ℕ, zero, suc, ◌+◌, Bool, true, false, List, [], ◌∷◌, ◌++◌, ◌≡◌, if◌then◌else◌}
use libccll.Event.{ClEvt, ClEvtLsnr, Call, Evt, notify, release, cl_evt_sub, cl_evt_unsub}

-- where `_evt_thread` stands: not yet run, in `sem_wait`, behind it, with an event, and returned
pub data Thread : Type 0 where
  unborn sleeping woken : Thread
  handling : ClEvt → Thread
  ended : Thread

-- The state of the service and `l_run`; `posting` are the calls of `sem_post` that the publishers and
-- `cl_evt_deinit` are about to make, and `halts` the calls of `cl_evt_deinit`. `published` and `handled`
-- are the history.
pub record System : Type 0 where
  pub evt : Evt
  pub l_run : Bool
  pub thread : Thread
  pub posting : ℕ
  pub halts : ℕ
  pub published : List ClEvt
  pub handled : List ClEvt

-- the head of the loop: `while(l_run)`
abbrev pub again : Bool → Thread
again l_run = if l_run then sleeping else ended

-- The steps of the service itself: a `sem_post` that is due, and the steps of `_evt_thread` behind its
-- start.
pub data Move (answer : (cb no data_ptr : ℕ) → Bool) (s u : System) : Type 0 where
  post :
      (n : ℕ)
      → s.posting ≡ suc n
      → u ≡ record s { posting = n; evt = record s.evt { sm_evt = s.evt.sm_evt + 1 } }
      → Move answer s u
  wait :
      (n : ℕ)
      → s.thread ≡ sleeping
      → s.evt.sm_evt ≡ suc n
      → u ≡ record s { thread = woken; evt = record s.evt { sm_evt = n } }
      → Move answer s u
  pop_none :
      s.thread ≡ woken
      → s.evt.li_evt ≡ []
      → u ≡ record s { thread = again s.l_run }
      → Move answer s u
  pop :
      (e : ClEvt) (evts : List ClEvt)
      → s.thread ≡ woken
      → s.evt.li_evt ≡ e ∷ evts
      → u ≡ record s { thread = handling e; evt = record s.evt { li_evt = evts } }
      → Move answer s u
  finish :
      (e : ClEvt)
      → s.thread ≡ handling e
      → u ≡ record s {
        thread = again s.l_run;
        evt = record s.evt { calls = s.evt.calls ++ (notify answer e s.evt.li_lsnrs ++ release e) };
        handled = s.handled ++ e ∷ [];
      }
      → Move answer s u

-- the steps of the program round it, and the start of the thread
pub data Step (answer : (cb no data_ptr : ℕ) → Bool) (s u : System) : Type 0 where
  move : Move answer s u → Step answer s u
  begin : s.thread ≡ unborn → u ≡ record s { thread = sleeping; l_run = true } → Step answer s u
  enqueue :
      (e : ClEvt)
      → u ≡ record s {
        evt = record s.evt { li_evt = s.evt.li_evt ++ e ∷ [] };
        posting = s.posting + 1;
        published = s.published ++ e ∷ [];
      }
      → Step answer s u
  subscribe :
      (alloc : Bool) (evt_no callback : ℕ)
      → u ≡ record s { evt = (cl_evt_sub alloc evt_no callback s.evt).1 }
      → Step answer s u
  unsubscribe :
      (evt_no callback : ℕ)
      → u ≡ record s { evt = (cl_evt_unsub evt_no callback s.evt).1 }
      → Step answer s u
  halt :
      u ≡ record s { l_run = false; posting = s.posting + 1; halts = s.halts + 1 } → Step answer s u

-- behind `cl_evt_init`
abbrev pub init : System
init = record {
  evt = record { li_evt = []; li_lsnrs = []; sm_evt = 0; calls = [] };
  l_run = false;
  thread = unborn;
  posting = 0;
  halts = 0;
  published = [];
  handled = [];
}

pub data Reach (answer : (cb no data_ptr : ℕ) → Bool) : System → Type 0 where
  start : Reach answer init
  later : {s u : System} → Reach answer s → Step answer s u → Reach answer u
