-- ===== src/Main/Tests.antt =====
-- The theorems on set-up at concrete answers: all calls succeed, or one fails.
use libccll.Base.{Bool, true, false, ◌≡◌, refl, none, some, [], ◌∷◌}
use libccll.Log.{cl_log_init}
use libccll.Event.Setup as EvtSetup
use libccll.Event.Setup.{cl_evt_init, cl_evt_deinit, init_mutex, thr_evt, is_empty}
use libccll.Timer.Setup as TimerSetup
use libccll.Timer.Setup.{
  cl_timer_init, cl_timer_deinit, cre_srv_sock, conn_srv, srvfd, epofd, clifd, has_fd, nothing,
  cl_timer_init_fail,
}
use libccll.Main.{InitAnswers, init_all, cl_init, cl_deinit, loaded, log_after}
use libccll.Main.Again.{cl_deinit-init, count, cl_init_twice}

abbrev evt_answers : (mutex_sub : Bool) → EvtSetup.SetupAnswers
evt_answers mutex_sub = record {
  sem = true;
  thread = true;
  mutex_evt = true;
  mutex_sub = mutex_sub;
}

abbrev timer_answers : (connect : Bool) → TimerSetup.SetupAnswers
timer_answers connect = record {
  mutex = true;
  fopen = true;
  fread = true;
  socket = true;
  bind = true;
  listen = true;
  epoll_create = true;
  pthread_create = true;
  cli_socket = true;
  connect = connect;
}

abbrev answers : (connect : Bool) → InitAnswers
answers connect = record {
  log_mutex = true;
  log_buf = true;
  evt = evt_answers true;
  timer = timer_answers connect;
}

evt_fails : (cl_evt_init (evt_answers false) EvtSetup.nothing).0 ≡ none
unfolding cl_evt_init init_mutex cl_evt_deinit
evt_fails = refl

timer_fails : (cl_timer_init (timer_answers false) nothing).0 ≡ none
unfolding cl_timer_init cre_srv_sock conn_srv
timer_fails = refl

cl_timer_init_fail_example :
    (has_fd (cl_timer_init (timer_answers false) nothing).1.objs ≡ false)
    × ((cl_timer_init (timer_answers false) nothing).1.stray ≡ [])
cl_timer_init_fail_example = cl_timer_init_fail (timer_answers false) timer_fails

starts : (cl_init (answers true) loaded).0 ≡ true
unfolding cl_init init_all cl_log_init cl_evt_init init_mutex cl_timer_init cre_srv_sock conn_srv
starts = refl

cl_deinit-init_example : cl_deinit ((cl_init (answers true) loaded).1) ≡ record {
  s_init = false;
  log = false;
  trpo = false;
  held = record { objs = clifd ∷ (epofd ∷ (srvfd ∷ [])); stray = [] };
}
cl_deinit-init_example = cl_deinit-init (answers true) starts

evt_starts : (cl_evt_init (evt_answers true) loaded.held).0 ≡ some tt
unfolding cl_evt_init init_mutex
evt_starts = refl

fails : (cl_init (answers false) loaded).0 ≡ false
unfolding cl_init init_all cl_log_init cl_evt_init init_mutex cl_timer_init cre_srv_sock conn_srv
fails = refl

starts_then : (cl_init (answers true) (cl_init (answers false) loaded).1).0 ≡ true
unfolding cl_init init_all cl_log_init log_after cl_evt_init init_mutex cl_timer_init cre_srv_sock
    conn_srv
starts_then = refl

cl_init_twice_example :
    count thr_evt ((cl_init (answers true) (cl_init (answers false) loaded).1).1.held.objs) ≡ 2
cl_init_twice_example =
    cl_init_twice (answers false) (answers true) evt_starts fails refl refl starts_then
