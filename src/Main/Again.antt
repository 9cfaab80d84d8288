-- ===== src/Main/Again.antt =====
-- What a second `cl_init` finds.
use libccll.Base.{ℕ, ◌+◌, true, false, ◌≡◌, some, List, [], ◌∷◌, ◌==◌, if◌then◌else◌, arith}
use libccll.Log.{cl_log_init, cl_log_deinit}
use libccll.Event.Setup.{cl_evt_init, cl_evt_deinit, init_mutex, thr_evt}
use libccll.Timer.Setup.{
  cl_timer_init, cl_timer_deinit, cre_srv_sock, conn_srv, srvfd, epofd, clifd,
}
use libccll.Main.{InitAnswers, init_all, log_after, cl_init, deinit_all, cl_deinit, loaded}

-- After a `cl_init` that succeeds, `cl_deinit` has taken down the log, the events, the timers but for
-- their descriptors, and both static mutexes.
pub cl_deinit-init :
    (a : InitAnswers)
    → (cl_init a loaded).0 ≡ true
    → cl_deinit ((cl_init a loaded).1) ≡ record {
      s_init = false;
      log = false;
      trpo = false;
      held = record { objs = clifd ∷ epofd ∷ srvfd ∷ []; stray = [] };
    }
unfolding cl_init cl_deinit init_all deinit_all cl_log_init cl_log_deinit cl_evt_init cl_evt_deinit
    init_mutex cl_timer_init cl_timer_deinit cre_srv_sock conn_srv
cl_deinit-init a ok = ground (arith, ok)

abbrev pub count : ℕ → List ℕ → ℕ
count x [] = 0
count x (y ∷ ys) = let rest = count x ys in if y == x then rest + 1 else rest

-- If `cl_init` fails at the timers and a later call succeeds, two threads handle events: the first call
-- does not take down what it has set up.
pub cl_init_twice :
    (a b : InitAnswers)
    → (cl_evt_init a.evt loaded.held).0 ≡ some tt
    → (cl_init a loaded).0 ≡ false
    → a.log_mutex ≡ true
    → a.log_buf ≡ true
    → (cl_init b (cl_init a loaded).1).0 ≡ true
    → count thr_evt ((cl_init b (cl_init a loaded).1).1.held.objs) ≡ 2
unfolding cl_init init_all log_after cl_log_init cl_evt_init cl_evt_deinit init_mutex cl_timer_init
    cre_srv_sock conn_srv
cl_init_twice a b evt failed mutex buf ok = ground (arith, evt, failed, mutex, buf, ok)
