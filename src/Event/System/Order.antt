-- ===== src/Event/System/Order.antt =====
-- evt/event.c: the history of the events in every interleaving.
use libccll.Base.{
  ℕ, ◌+◌, ◌≤◌, Bool, true, false, List, [], ◌∷◌, ◌++◌, ◌≡◌, refl, sym, ap, ◌∙◌, append_assoc,
  append-nil, arith, length, length-append,
}
use libccll.Event.{
  ClEvt, ClEvtLsnr, Call, notified, freed, Evt, notify, release, cl_evt_sub, cl_evt_unsub,
}
use libccll.Event.Thread.{owed, release-owed}
use libccll.Event.System.{
  Thread, unborn, sleeping, woken, handling, ended, System, again, Move, post, wait, pop_none, pop,
  finish, Step, move, begin, enqueue, subscribe, unsubscribe, halt, Reach, start, later,
}

abbrev pub in_hand : Thread → List ClEvt
in_hand (handling e) = e ∷ []
in_hand unborn = []
in_hand sleeping = []
in_hand woken = []
in_hand ended = []

-- the releases among the calls
unfoldable pub releases : List Call → List Call
releases [] = []
releases (notified cb num ptr ∷ calls) = releases calls
releases (freed free_fun data_ptr ∷ calls) = freed free_fun data_ptr ∷ releases calls

-- the releases that are owed for the events
unfoldable pub release_each : List ClEvt → List Call
release_each [] = []
release_each (e ∷ evts) = owed e ++ release_each evts

-- 1 between the end of `sem_wait` and the look at the queue
abbrev pub is_woken : Thread → ℕ
is_woken woken = 1
is_woken unborn = 0
is_woken sleeping = 0
is_woken (handling e) = 0
is_woken ended = 0

pub record Inv (s : System) : Type 0 where
  pub order : s.published ≡ s.handled ++ (in_hand s.thread ++ s.evt.li_evt)
  pub released : releases s.evt.calls ≡ release_each s.handled
  pub woken_for_each : length s.evt.li_evt ≤ s.posting + s.evt.sm_evt + is_woken s.thread
  pub woken_for_none_else :
      s.posting + s.evt.sm_evt + is_woken s.thread ≤ length s.evt.li_evt + s.halts

releases-append : (a b : List Call) → releases (a ++ b) ≡ releases a ++ releases b
unfolding releases
releases-append [] b = refl
releases-append (notified cb num ptr ∷ a) b = releases-append a b
releases-append (freed free_fun data_ptr ∷ a) b =
    ap (◌∷◌ (freed free_fun data_ptr)) (releases-append a b)

release_each-snoc :
    (evts : List ClEvt) (e : ClEvt) → release_each (evts ++ e ∷ []) ≡ release_each evts ++ owed e
unfolding release_each
release_each-snoc [] e = append-nil (owed e)
release_each-snoc (d ∷ evts) e =
    rw (release_each-snoc evts e) (sym (append_assoc (owed d) (release_each evts) (owed e)))

releases-notify :
    (answer : (cb no data_ptr : ℕ) → Bool) (e : ClEvt) (ls : List ClEvtLsnr)
    → releases (notify answer e ls) ≡ []
unfolding releases notify
releases-notify answer e [] = refl
releases-notify answer e (l ∷ ls) = ground (arith, releases-notify answer e ls)

releases-release : (e : ClEvt) → releases (release e) ≡ release e
unfolding releases release
releases-release e = ground arith

releases-snoc :
    (answer : (cb no data_ptr : ℕ) → Bool) (e : ClEvt) (ls : List ClEvtLsnr) (calls : List Call)
    (done : List ClEvt)
    → releases calls ≡ release_each done
    → releases (calls ++ (notify answer e ls ++ release e)) ≡ release_each (done ++ e ∷ [])
releases-snoc answer e ls calls done h =
    rw
      (
        releases-append calls (notify answer e ls ++ release e),
        releases-append (notify answer e ls) (release e),
        releases-notify answer e ls,
        releases-release e,
        release-owed e,
        h,
      )
      (sym (release_each-snoc done e))

in_hand-again : (l_run : Bool) → (in_hand (again l_run) ≡ []) × (is_woken (again l_run) ≡ 0)
in_hand-again true = (refl, refl)
in_hand-again false = (refl, refl)

pub Move-Inv :
    {answer : (cb no data_ptr : ℕ) → Bool} {s u : System} → Move answer s u → Inv s → Inv u
Move-Inv (post n due e) inv = rw e (record {
  order = inv.order;
  released = inv.released;
  woken_for_each = omega (arith, inv.woken_for_each, due);
  woken_for_none_else = omega (arith, inv.woken_for_none_else, due);
})
Move-Inv (wait n at count e) inv = rw e (record {
  order = ground (arith, at, inv.order);
  released = inv.released;
  woken_for_each = ground (arith, at, count, inv.woken_for_each);
  woken_for_none_else = ground (arith, at, count, inv.woken_for_none_else);
})
Move-Inv {s = s} (pop_none at none_left e) inv = rw e (record {
  order = ground (arith, at, inv.order);
  released = inv.released;
  woken_for_each = ground (arith, at, none_left, inv.woken_for_each);
  woken_for_none_else = ground (arith, at, none_left, inv.woken_for_none_else);
})
Move-Inv (pop d evts at front e) inv = rw e (record {
  order = ground (arith, at, front, inv.order);
  released = inv.released;
  woken_for_each = ground (arith, at, front, inv.woken_for_each);
  woken_for_none_else = ground (arith, at, front, inv.woken_for_none_else);
})
Move-Inv {answer = answer} {s = s} (finish d at e) inv =
    let (empty_handed, idle) = in_hand-again s.l_run in
    let shown : s.published ≡ s.handled ++ (in_hand (handling d) ++ s.evt.li_evt) =
      inv.order ∙ ap (λ t. s.handled ++ (in_hand t ++ s.evt.li_evt)) at in
    rw e (record {
      order = rw empty_handed (shown ∙ sym (append_assoc s.handled (d ∷ []) s.evt.li_evt));
      released = releases-snoc answer d s.evt.li_lsnrs s.evt.calls s.handled inv.released;
      woken_for_each = ground (arith, at, inv.woken_for_each);
      woken_for_none_else = ground (arith, at, inv.woken_for_none_else);
    })

cl_evt_sub-kept :
    (alloc : Bool) (evt_no callback : ℕ) (s : Evt)
    → let t = (cl_evt_sub alloc evt_no callback s).1 in
      (t.li_evt ≡ s.li_evt) × (t.sm_evt ≡ s.sm_evt) × (t.calls ≡ s.calls)
unfolding cl_evt_sub
cl_evt_sub-kept alloc evt_no callback s = ground arith

cl_evt_unsub-kept :
    (evt_no callback : ℕ) (s : Evt)
    → let t = (cl_evt_unsub evt_no callback s).1 in
      (t.li_evt ≡ s.li_evt) × (t.sm_evt ≡ s.sm_evt) × (t.calls ≡ s.calls)
unfolding cl_evt_unsub
cl_evt_unsub-kept evt_no callback s = ground arith

-- a change of the listeners
Inv-kept :
    (s : System) (t : Evt)
    → (t.li_evt ≡ s.evt.li_evt) × (t.sm_evt ≡ s.evt.sm_evt) × (t.calls ≡ s.evt.calls)
    → Inv s
    → Inv (record s { evt = t })
Inv-kept s t (events, count, calls) inv = record {
  order = rw events inv.order;
  released = rw calls inv.released;
  woken_for_each = rw (events, count) inv.woken_for_each;
  woken_for_none_else = rw (events, count) inv.woken_for_none_else;
}

Step-Inv : {answer : (cb no data_ptr : ℕ) → Bool} {s u : System} → Step answer s u → Inv s → Inv u
Step-Inv (move m) inv = Move-Inv m inv
Step-Inv (begin at e) inv = rw e (record {
  order = ground (arith, at, inv.order);
  released = inv.released;
  woken_for_each = ground (arith, at, inv.woken_for_each);
  woken_for_none_else = ground (arith, at, inv.woken_for_none_else);
})
Step-Inv {s = s} (enqueue d e) inv = rw e (record {
  order =
      ap (λ evts. evts ++ d ∷ []) inv.order
      ∙ append_assoc s.handled (in_hand s.thread ++ s.evt.li_evt) (d ∷ [])
      ∙ ap (λ evts. s.handled ++ evts) (append_assoc (in_hand s.thread) s.evt.li_evt (d ∷ []));
  released = inv.released;
  woken_for_each = omega (arith, length-append s.evt.li_evt (d ∷ []), inv.woken_for_each);
  woken_for_none_else = omega (arith, length-append s.evt.li_evt (d ∷ []), inv.woken_for_none_else);
})
Step-Inv {s = s} (subscribe alloc evt_no callback e) inv =
    rw e (Inv-kept s _ (cl_evt_sub-kept alloc evt_no callback s.evt) inv)
Step-Inv {s = s} (unsubscribe evt_no callback e) inv =
    rw e (Inv-kept s _ (cl_evt_unsub-kept evt_no callback s.evt) inv)
Step-Inv (halt e) inv = rw e (record {
  order = inv.order;
  released = inv.released;
  woken_for_each = omega (arith, inv.woken_for_each);
  woken_for_none_else = omega (arith, inv.woken_for_none_else);
})

pub Reach-Inv : {answer : (cb no data_ptr : ℕ) → Bool} {s : System} → Reach answer s → Inv s
unfolding releases release_each
Reach-Inv start = record {
  order = refl;
  released = refl;
  woken_for_each = omega arith;
  woken_for_none_else = omega arith;
}
Reach-Inv (later r st) = Step-Inv st (Reach-Inv r)

-- In every interleaving of publishers, subscribers, `cl_evt_deinit` and the thread in which no subscription
-- changes while the thread walks over the listeners: what was handled, the event in hand and what waits are
-- what was published, in order; the payload of each event that was handled went to its release function
-- once, if it has one, in the same order; and the counts that are posted or due, with the one that the
-- thread has just taken, are at least as many as the events that wait, and more by the calls of
-- `cl_evt_deinit` at most.
pub Reach-ordered :
    (answer : (cb no data_ptr : ℕ) → Bool) (s : System)
    → Reach answer s
    → (s.published ≡ s.handled ++ (in_hand s.thread ++ s.evt.li_evt))
      × (releases s.evt.calls ≡ release_each s.handled)
      × (length s.evt.li_evt ≤ s.posting + s.evt.sm_evt + is_woken s.thread)
      × (s.posting + s.evt.sm_evt + is_woken s.thread ≤ length s.evt.li_evt + s.halts)
Reach-ordered answer s r =
    let inv = Reach-Inv r in (inv.order, inv.released, inv.woken_for_each, inv.woken_for_none_else)
