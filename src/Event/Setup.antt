-- ===== src/Event/Setup.antt =====
-- evt/event.c: what `cl_evt_init` sets up and `cl_evt_deinit` takes down. The answers of the system calls
-- are an argument.
use libccll.Base.{ℕ, Bool, true, false, not, ◌&&◌, ◌≡◌, none, some, List, [], ◌∷◌, arith}
use libccll.Base.Held.{Held, Act, ◌>>◌, new, free, give_up}

abbrev pub sm_evt : ℕ
sm_evt = 21

abbrev pub thr_evt : ℕ
thr_evt = 22

abbrev pub mtx_evt : ℕ
mtx_evt = 23

abbrev pub mtx_sub : ℕ
mtx_sub = 24

pub record SetupAnswers : Type 0 where
  pub sem : Bool
  pub thread : Bool
  pub mutex_evt : Bool
  pub mutex_sub : Bool

-- `cl_evt_deinit`, which wakes the thread, and it ends
unfoldable pub cl_evt_deinit : Act {0} Unit
cl_evt_deinit = do free thr_evt; free sm_evt; free mtx_evt; free mtx_sub

-- `if(pthread_mutex_init(…)) { …; cl_evt_deinit(); return FAIL; }`
unfoldable pub init_mutex : (ok : Bool) → ℕ → Act {0} Unit
init_mutex true x = new true x []
init_mutex false x = do cl_evt_deinit; give_up

-- `cl_evt_init`
unfoldable pub cl_evt_init : SetupAnswers → Act {0} Unit
cl_evt_init a = do
  new a.sem sm_evt []
  new a.thread thr_evt (sm_evt ∷ [])
  init_mutex a.mutex_evt mtx_evt
  init_mutex a.mutex_sub mtx_sub

-- What a `cl_evt_init` that succeeds has set up, `cl_evt_deinit` takes down, and no more.
cl_evt_deinit-init :
    (a : SetupAnswers) (s : Held)
    → (cl_evt_init a s).0 ≡ some tt
    → cl_evt_deinit ((cl_evt_init a s).1) ≡ (some tt, s)
unfolding cl_evt_init cl_evt_deinit init_mutex
cl_evt_deinit-init a s ok = ground (arith, ok)

abbrev pub is_empty : List ℕ → Bool
is_empty [] = true
is_empty (x ∷ xs) = false

abbrev pub nothing : Held
nothing = record { objs = []; stray = [] }

-- A `cl_evt_init` that fails leaves nothing, but if it fails at a mutex, it destroys one that was not
-- initialised.
cl_evt_init_fail :
    (a : SetupAnswers)
    → (cl_evt_init a nothing).0 ≡ none
    → ((cl_evt_init a nothing).1.objs ≡ [])
      × (is_empty ((cl_evt_init a nothing).1.stray) ≡ not (a.sem && a.thread))
unfolding cl_evt_init cl_evt_deinit init_mutex
cl_evt_init_fail a failed = ground (arith, failed)
