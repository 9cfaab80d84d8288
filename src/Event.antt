-- ===== src/Event.antt =====
-- evt/event.c: published events wait in a queue for the thread, which calls the listeners of each.
-- The lists are sequences, and a callback, a payload and a release function are numbers, 0 being null.
pub mod Thread
pub mod Sub
pub mod Setup
pub mod System
mod Tests
use libccll.Base.{
  ℕ, zero, suc, ◌+◌, ◌-◌, Bool, true, false, ◌&&◌, List, [], ◌∷◌, ◌++◌, ◌==◌, if◌then◌else◌,
}

-- `CL_EVT`
pub record ClEvt : Type 0 where
  pub no : ℕ
  pub data_ptr : ℕ
  pub free_fun : ℕ

-- `CL_EVT_LSNR`
pub record ClEvtLsnr : Type 0 where
  pub no : ℕ
  pub cb : ℕ

-- a call of a listener, or of a release function
pub data Call : Type 0 where
  notified : (cb no data_ptr : ℕ) → Call
  freed : (free_fun data_ptr : ℕ) → Call

-- `l_li_evt`, `l_li_lsnrs`, the count of `l_sm_evt`, and the calls of the thread so far
pub record Evt : Type 0 where
  pub li_evt : List ClEvt
  pub li_lsnrs : List ClEvtLsnr
  pub sm_evt : ℕ
  pub calls : List Call

-- `cl_evt_pub`, with what `MALLOC` answers; `true` is `SUCC`
unfoldable pub cl_evt_pub : (alloc : Bool) → (evt_no data_ptr free_fun : ℕ) → Evt → Bool × Evt
cl_evt_pub alloc evt_no data_ptr free_fun s =
    if alloc
    then (
      true,
      record s {
        li_evt = s.li_evt ++ record { no = evt_no; data_ptr = data_ptr; free_fun = free_fun } ∷ [];
        sm_evt = s.sm_evt + 1;
      },
    )
    else (false, s)

unfoldable pub is_lsnr : (evt_no callback : ℕ) → ClEvtLsnr → Bool
is_lsnr evt_no callback l = l.no == evt_no && l.cb == callback

unfoldable pub has_lsnr : (evt_no callback : ℕ) → List ClEvtLsnr → Bool
has_lsnr evt_no callback [] = false
has_lsnr evt_no callback (l ∷ ls) =
    if is_lsnr evt_no callback l then true else has_lsnr evt_no callback ls

-- `cl_evt_sub`: a subscription that is there already, and a failed `MALLOC`, return `SUCC` too
unfoldable pub cl_evt_sub : (alloc : Bool) → (evt_no callback : ℕ) → Evt → Bool × Evt
cl_evt_sub alloc evt_no callback s =
    if callback == 0
    then (false, s)
    else if has_lsnr evt_no callback s.li_lsnrs
    then (true, s)
    else if alloc
    then (true, record s { li_lsnrs = s.li_lsnrs ++ record { no = evt_no; cb = callback } ∷ [] })
    else (true, s)

unfoldable pub del_lsnr : (evt_no callback : ℕ) → List ClEvtLsnr → List ClEvtLsnr
del_lsnr evt_no callback [] = []
del_lsnr evt_no callback (l ∷ ls) =
    let rest = del_lsnr evt_no callback ls in if is_lsnr evt_no callback l then ls else l ∷ rest

-- `cl_evt_unsub`
unfoldable pub cl_evt_unsub : (evt_no callback : ℕ) → Evt → Bool × Evt
cl_evt_unsub evt_no callback s =
    if callback == 0
    then (false, s)
    else if has_lsnr evt_no callback s.li_lsnrs
    then (true, record s { li_lsnrs = del_lsnr evt_no callback s.li_lsnrs })
    else (false, s)

-- the loop over the listeners, `answer` being what a callback returns
unfoldable pub notify : (answer : (cb no data_ptr : ℕ) → Bool) → ClEvt → List ClEvtLsnr → List Call
notify answer evt [] = []
notify answer evt (l ∷ ls) =
    let rest = notify answer evt ls in
    if l.no == evt.no
    then notified l.cb evt.no evt.data_ptr ∷ (if answer l.cb evt.no evt.data_ptr then [] else rest)
    else rest

-- `if(evt->free_fun) evt->free_fun(evt->data);`
unfoldable pub release : ClEvt → List Call
release evt = if evt.free_fun == 0 then [] else freed evt.free_fun evt.data_ptr ∷ []

-- one round of the loop of `_evt_thread`, behind `sem_wait`
unfoldable pub evt_round : (answer : (cb no data_ptr : ℕ) → Bool) → Evt → Evt
evt_round answer s = elim s.li_evt [
  | [] ↦ record s { sm_evt = s.sm_evt - 1 }
  | (evt ∷ evts) ↦ record s {
    li_evt = evts;
    sm_evt = s.sm_evt - 1;
    calls = s.calls ++ (notify answer evt s.li_lsnrs ++ release evt);
  }
]

-- `_evt_thread` until it waits: as many rounds as the semaphore lets through
unfoldable pub evt_thread : ℕ → (answer : (cb no data_ptr : ℕ) → Bool) → Evt → Evt
evt_thread zero answer s = s
evt_thread (suc n) answer s = evt_thread n answer (evt_round answer s)
