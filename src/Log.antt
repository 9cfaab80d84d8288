-- ===== src/Log.antt =====
-- log/log.c: the buffer and the lock of the log, which messages pass, and what is printed. `strftime` and
-- `vsnprintf` are not modelled: the text of the time and the formatted message are arguments.
pub mod Filter
pub mod Header
mod Tests
use libccll.Base.{
  ℕ, ◌+◌, ◌-◌, ◌/◌, ◌%◌, codes, take, Bool, true, false, not, Option, none, some, List, [], ◌∷◌,
  ◌++◌, ltb, if◌then◌else◌, Bytes,
}
use libccll.Base.Held.{Held, Act, ◌>>=◌, ◌>>◌, give, new, free}

-- `CL_LogType`
pub data LogType : Type 0 where
  cl_debug cl_info cl_warn cl_error : LogType

-- the codes of the letters
unfoldable pub code_of : LogType → ℕ
code_of cl_debug = b'D'
code_of cl_info = b'I'
code_of cl_warn = b'W'
code_of cl_error = b'E'

-- `LogMode`
pub data LogMode : Type 0 where
  cl_mode_normal cl_mode_silent : LogMode

-- `cl_set_mode`: what `g_alow_log_type` is from then on
unfoldable pub cl_set_mode : LogMode → ℕ
cl_set_mode cl_mode_normal = b'D'
cl_set_mode cl_mode_silent = 0xff

-- `LOG_BUF_SZ`
abbrev pub log_buf_sz : ℕ
log_buf_sz = 8192

-- `cl_log` of a formatted text, of which the buffer takes the front: the calls of the printing function so
-- far
unfoldable pub cl_log :
    (alow_log_type : ℕ)
    → LogType
    → (tag text : Bytes) → List (LogType × Bytes × Bytes)
    → List (LogType × Bytes × Bytes)
unfolding code_of
cl_log alow_log_type type tag text out =
    if ltb (code_of type) alow_log_type
    then out
    else out ++ (type, tag, take (log_buf_sz - 2) text) ∷ []

-- `%03d` of a number below 1000
unfoldable pub three_digits : ℕ → Bytes
three_digits n = (b'0' + n / 100) ∷ ((b'0' + n / 10 % 10) ∷ ((b'0' + n % 10) ∷ []))

-- what `def_print_fun` writes into `g_log_hdr`: `now` is what `strftime` writes, `usec` is `a.tv_usec`
unfoldable pub log_hdr : (now : Bytes) → (usec : ℕ) → LogType → (tag : Bytes) → Bytes
unfolding code_of
log_hdr now usec type tag =
    take 19 now
    ++ (b'.' ∷ three_digits (usec / 1024)
        ++ (b' ' ∷ (code_of type ∷ (b'-' ∷ (tag ++ (b':' ∷ (b' ' ∷ [])))))))

-- the sequences of an escape byte
abbrev pub escape : Bytes → Bytes
escape s = 0x1b ∷ (b'[' ∷ s)

-- what `def_print_fun` prints of a type
unfoldable pub paint : LogType → Bytes → Bytes
paint cl_debug s =
    escape (codes "47m")
    ++ (escape (codes "30m") ++ (s ++ (b' ' ∷ (escape (codes "0m") ++ (b'\n' ∷ [])))))
paint cl_info s = s ++ b'\n' ∷ []
paint cl_warn s = escape (codes "33m") ++ (s ++ (b'\n' ∷ escape (codes "0m")))
paint cl_error s = escape (codes "31m") ++ (s ++ (b'\n' ∷ escape (codes "0m")))

-- `def_print_fun`: the text that it prints; `none` is `FAIL`
unfoldable pub def_print_fun :
    (init : Bool) → (now : Bytes) → (usec : ℕ) → LogType → (tag text : Bytes) → Option Bytes
def_print_fun init now usec type tag text =
    if init then some (paint type (log_hdr now usec type tag ++ text)) else none

-- `cl_console_prt`
unfoldable pub cl_console_prt :
    (alow_log_type : ℕ)
    → (init : Bool) → (now : Bytes) → (usec : ℕ) → LogType
    → (tag txt : Bytes) → Option Bytes
unfolding code_of
cl_console_prt alow_log_type init now usec type tag txt =
    if ltb (code_of type) alow_log_type then none else def_print_fun init now usec type tag txt

-- the lock and the buffer
abbrev pub g_lock : ℕ
g_lock = 31

abbrev pub g_log_buf : ℕ
g_log_buf = 32

-- `cl_log_init`, with what `pthread_mutex_init` and `malloc` answer; `init` is `g_init`, which it sets
-- if it succeeds
unfoldable pub cl_log_init : (init mutex buf : Bool) → Act {0} Unit
cl_log_init true mutex buf = give tt
cl_log_init false mutex buf = do new mutex g_lock []; new buf g_log_buf []

-- `cl_log_deinit`
unfoldable pub cl_log_deinit : Act {0} Unit
cl_log_deinit = do free g_log_buf; free g_lock
