-- ===== src/Log/Filter.antt =====
-- log/log.c: which messages are printed in the two modes.
use libccll.Base.{ℕ, ◌-◌, Bool, ◌≡◌, refl, none, List, [], ◌∷◌, ◌++◌, Bytes, take}
use libccll.Log.{
  LogType, cl_debug, cl_info, cl_warn, cl_error, cl_mode_normal, cl_mode_silent, code_of,
  cl_set_mode, log_buf_sz, cl_log, def_print_fun, cl_console_prt,
}

-- In the normal mode every message is printed behind those before it, cut to 8190 bytes, and in the silent
-- mode none is; `cl_console_prt` prints what `def_print_fun` does, or nothing.
cl_log-mode :
    (type : LogType) (tag text now : Bytes) (usec : ℕ) (init : Bool)
    (out : List (LogType × Bytes × Bytes))
    → (cl_log (cl_set_mode cl_mode_normal) type tag text out
        ≡ out ++ (type, tag, take (log_buf_sz - 2) text) ∷ [])
      × (cl_log (cl_set_mode cl_mode_silent) type tag text out ≡ out)
      × (cl_console_prt (cl_set_mode cl_mode_normal) init now usec type tag text
          ≡ def_print_fun init now usec type tag text)
      × (cl_console_prt (cl_set_mode cl_mode_silent) init now usec type tag text ≡ none)
unfolding cl_log cl_set_mode cl_console_prt code_of
cl_log-mode cl_debug tag text now usec init out = (refl, refl, refl, refl)
cl_log-mode cl_info tag text now usec init out = (refl, refl, refl, refl)
cl_log-mode cl_warn tag text now usec init out = (refl, refl, refl, refl)
cl_log-mode cl_error tag text now usec init out = (refl, refl, refl, refl)
