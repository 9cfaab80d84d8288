-- ===== src/Timer/Setup.antt =====
-- sys/timer.c: how `cl_timer_init` and `cl_timer_deinit` open and close what the timers need. The answers
-- of the system calls are an argument.
use libccll.Base.{ℕ, Bool, true, false, ◌||◌, ◌≡◌, none, List, [], ◌∷◌, ◌==◌, if◌then◌else◌, arith}
use libccll.Base.Held.{Held, Act, ◌>>◌, new, check, free, or_else}

-- the objects: the stream of the random device, the mutex, the file of the socket, the thread, and the
-- three descriptors
abbrev random_fp : ℕ
random_fp = 1

abbrev pub mtx_sock : ℕ
mtx_sock = 2

abbrev pub srv_sk_path : ℕ
srv_sk_path = 3

abbrev pub thr_socks : ℕ
thr_socks = 4

abbrev pub srvfd : ℕ
srvfd = 5

abbrev pub epofd : ℕ
epofd = 6

abbrev pub clifd : ℕ
clifd = 7

pub record SetupAnswers : Type 0 where
  pub mutex : Bool
  pub fopen : Bool
  pub fread : Bool
  pub socket : Bool
  pub bind : Bool
  pub listen : Bool
  pub epoll_create : Bool
  pub pthread_create : Bool
  pub cli_socket : Bool
  pub connect : Bool

-- `_cre_srv_sock`
unfoldable pub cre_srv_sock : SetupAnswers → Act {0} Unit
cre_srv_sock a = do
  new a.fopen random_fp []
  free random_fp
  check a.fread []
  new a.socket srvfd []
  check a.bind (srvfd ∷ [])
  new true srv_sk_path []
  check a.listen (srvfd ∷ [])

-- `_conn_srv`
unfoldable pub conn_srv : SetupAnswers → Act {0} Unit
conn_srv a = do new a.cli_socket clifd []; check a.connect (clifd ∷ [])

-- `cl_timer_init`
unfoldable pub cl_timer_init : SetupAnswers → Act {0} Unit
cl_timer_init a = do
  new a.mutex mtx_sock []
  cre_srv_sock a
  new a.epoll_create epofd (srvfd ∷ [])
  new a.pthread_create thr_socks (srvfd ∷ epofd ∷ [])
  or_else (conn_srv a) (srvfd ∷ epofd ∷ [])

-- `cl_timer_deinit`: the thread ends at the request of `_timer_destroy`
unfoldable pub cl_timer_deinit : Act {0} Unit
cl_timer_deinit = do free mtx_sock; free thr_socks; free srv_sk_path

unfoldable pub has_fd : List ℕ → Bool
has_fd [] = false
has_fd (x ∷ xs) =
    let rest = has_fd xs in
    if x == random_fp || (x == srvfd || (x == epofd || x == clifd)) then true else rest

abbrev pub nothing : Held
nothing = record { objs = []; stray = [] }

-- A `cl_timer_init` that fails has closed every descriptor and every stream that it opened, each once.
pub cl_timer_init_fail :
    (a : SetupAnswers)
    → (cl_timer_init a nothing).0 ≡ none
    → (has_fd (cl_timer_init a nothing).1.objs ≡ false) × ((cl_timer_init a nothing).1.stray ≡ [])
unfolding cl_timer_init cre_srv_sock conn_srv has_fd
cl_timer_init_fail a failed = ground (arith, failed)
