-- ===== src/Main.antt =====
-- main.c: `cl_init` and `cl_deinit`, and with them the inits and deinits of the services. A static mutex
-- counts as an object that is there from the start.
pub mod Again
mod Tests
use libccll.Base.{ℕ, Bool, true, false, Option, none, some, List, [], ◌∷◌, if◌then◌else◌}
use libccll.Base.Held.{Held, Act, ◌>>=◌, ◌>>◌, give, free}
use libccll.Log.{cl_log_init, cl_log_deinit}
use libccll.Event.Setup.{cl_evt_init, cl_evt_deinit}
use libccll.Event.Setup as EvtSetup
use libccll.Timer.Setup.{cl_timer_init, cl_timer_deinit}
use libccll.Timer.Setup as TimerSetup

-- `g_mtx_objs` of comm/alloc.c and `g_mtx_pols` of sys/thrdpool.c
abbrev pub mtx_objs : ℕ
mtx_objs = 41

abbrev pub mtx_pols : ℕ
mtx_pols = 42

-- `s_init`, `g_init` of log/log.c, and what is held; `g_init` of sys/thrdpool.c is `trpo`
pub record Lib : Type 0 where
  pub s_init : Bool
  pub log : Bool
  pub trpo : Bool
  pub held : Held

-- what the calls of the inits answer
pub record InitAnswers : Type 0 where
  pub log_mutex : Bool
  pub log_buf : Bool
  pub evt : EvtSetup.SetupAnswers
  pub timer : TimerSetup.SetupAnswers

-- `INIT(log); INIT(evt); INIT(timer); INIT(trpo);`
unfoldable pub init_all : (log : Bool) → InitAnswers → Act {0} Unit
init_all log a = do cl_log_init log a.log_mutex a.log_buf; cl_evt_init a.evt; cl_timer_init a.timer

-- whether `cl_log_init` has set `g_init`
unfoldable pub log_after : (log : Bool) → InitAnswers → Bool
log_after log a = if log then true else if a.log_mutex then a.log_buf else false

-- `cl_init`; `true` is `SUCC`
unfoldable pub cl_init : InitAnswers → Lib → Bool × Lib
cl_init a lib =
    let (r, held) = init_all lib.log a lib.held in
    if lib.s_init then (true, lib) else elim r [
      | none ↦ (false, record lib { log = log_after lib.log a; held = held })
      | some _ ↦ (true, record { s_init = true; log = true; trpo = true; held = held })
    ]

-- `DEINIT(trpo); DEINIT(timer); DEINIT(evt); DEINIT(log); DEINIT(alloc);`
unfoldable pub deinit_all : Act {0} Unit
deinit_all = do free mtx_pols; cl_timer_deinit; cl_evt_deinit; cl_log_deinit; free mtx_objs

-- `cl_deinit`
unfoldable pub cl_deinit : Lib → Lib
cl_deinit lib = record { s_init = false; log = false; trpo = false; held = (deinit_all lib.held).1 }

-- before the first call
abbrev pub loaded : Lib
loaded = record {
  s_init = false;
  log = false;
  trpo = false;
  held = record { objs = mtx_objs ∷ mtx_pols ∷ []; stray = [] };
}
