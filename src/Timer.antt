-- ===== src/Timer.antt =====
-- sys/timer.c: the requests on the socket, and the list of timers that they change. The list is
-- held as a sequence (`Queue` is about its links); a file descriptor and a callback are numbers, and
-- 0 is the null callback.
pub mod Message
pub mod Codec
pub mod Shrink
pub mod Invariant
pub mod Fire
pub mod Faults
pub mod Setup
pub mod Socket
mod Tests
use libccll.Base.{
  ℕ, zero, suc, ◌+◌, ◌-◌, ◌*◌, ◌/◌, ◌%◌, ◌^◌, Bool, true, false, ◌&&◌, ◌||◌, not, Option, none,
  some, List, [], ◌∷◌, ◌++◌, ltb, ◌==◌, if◌then◌else◌, Bytes, length, get_or,
}
unfoldable pub use libccll.Timer.Message.{
  to_bytes, from_bytes, load_srv_buf, read_request, cl_timer_set, cl_timer_cancel, timer_destroy,
}
pub use libccll.Timer.Message.{Request, new_timer, cancel, destroy, refused, short_read}

abbrev pub max_timer_cnt : ℕ
max_timer_cnt = 100

-- `Timer`
pub record Timer : Type 0 where
  pub srv : Bool
  pub fd : ℕ
  pub repeats : ℕ
  pub cb : ℕ

-- `g_li_sock`, the calls of `close` and the callbacks made, in order
pub record Sys : Type 0 where
  pub li_sock : List Timer
  pub closed : List ℕ
  pub called : List ℕ

-- what the kernel answers to `timerfd_create`, `epoll_ctl` and `timerfd_settime`
pub record Kernel : Type 0 where
  pub create : Option ℕ
  pub epoll_add : ℕ → Bool
  pub settime : (sec ns : ℕ) → Bool

-- `list_add(&new_cli->list, &g_li_sock)` and the `list_del` of that last node
abbrev pub enqueue : Timer → Sys → Sys
enqueue t s = record s { li_sock = s.li_sock ++ t ∷ [] }

unfoldable pub drop_last : List Timer → List Timer
drop_last [] = []
drop_last (t ∷ []) = []
drop_last (t ∷ u ∷ ts) = t ∷ drop_last (u ∷ ts)

abbrev pub close : ℕ → Sys → Sys
close fd s = record s { closed = s.closed ++ fd ∷ [] }

-- `_cre_node`
abbrev pub cre_node : (fd cb : ℕ) → Timer
cre_node fd cb = record { srv = false; fd = fd; repeats = 0; cb = cb }

-- the two failures of `_cre_cli_node` behind the list
unfoldable pub undo_cli_node : ℕ → Sys → Sys
undo_cli_node fd s = close fd (record s { li_sock = drop_last s.li_sock })

-- `_cre_cli_node`; `true` is `SUCC`. The product of `ns` is written out as it is meant: the source
-- computes it in an `int`, which holds it up to 2147 ms.
unfoldable pub cre_cli_node : Kernel → (sec ms repeats cb : ℕ) → Sys → Bool × Sys
cre_cli_node k sec ms repeats cb s = elim k.create [
  | none ↦ (false, s)
  | some fd ↦
      let s' = enqueue (record (cre_node fd cb) { repeats = repeats }) s in
      if not (k.epoll_add fd)
      then (false, undo_cli_node fd s')
      else if not (k.settime sec (ms * 1000000))
      then (false, undo_cli_node fd s')
      else (true, s')
]

unfoldable pub has_cb : ℕ → List Timer → Bool
has_cb cb [] = false
has_cb cb (t ∷ ts) = if t.cb == cb then true else has_cb cb ts

-- `_add_timer`
unfoldable pub add_timer : Kernel → (sec ms repeats cb : ℕ) → Sys → Sys
add_timer k sec ms repeats cb s =
    if has_cb cb s.li_sock
    then s
    else if ltb max_timer_cnt (length s.li_sock)
    then s
    else (cre_cli_node k sec ms repeats cb s).1

-- `_cancel_timerfd` closes the descriptor, whatever the kernel answers
abbrev pub cancel_timerfd : ℕ → Sys → Sys
cancel_timerfd fd s = close fd s

-- the loop of `_rmv_timer`: the node that it finds, and the list without it
unfoldable pub take_cb : ℕ → List Timer → Option (Timer × List Timer)
take_cb cb [] = none
take_cb cb (t ∷ ts) =
    let rest : Option (Timer × List Timer) = elim (take_cb cb ts) [
      | none ↦ none
      | some (u, us) ↦ some (u, t ∷ us)
    ] in
    if not t.srv && t.cb == cb then some (t, ts) else rest

-- `_rmv_timer`
unfoldable pub rmv_timer : ℕ → Sys → Sys
rmv_timer cb s = elim (take_cb cb s.li_sock) [
  | none ↦ s
  | some (t, ts) ↦ close t.fd (record (cancel_timerfd t.fd s) { li_sock = ts })
]

-- the body of the loop of `_cli_timer_proc`, on the node that it finds
unfoldable pub expire : Timer → List Timer
expire t =
    if ltb 1 t.repeats
    then record t { repeats = t.repeats - 1 } ∷ []
    else if t.repeats == 1
    then []
    else t ∷ []

abbrev pub call : ℕ → Sys → Sys
call cb s = if cb == 0 then s else record s { called = s.called ++ cb ∷ [] }

-- the nodes before the one with `fd`, that node, and those behind it
unfoldable pub split_fd : ℕ → List Timer → Option (List Timer × Timer × List Timer)
split_fd fd [] = none
split_fd fd (t ∷ ts) =
    let rest : Option (List Timer × Timer × List Timer) = elim (split_fd fd ts) [
      | none ↦ none
      | some (us, u, vs) ↦ some (t ∷ us, u, vs)
    ] in
    if t.srv || not (t.fd == fd) then rest else some ([], t, ts)

-- `_cli_timer_proc`, when the descriptor could be read
unfoldable pub cli_timer_proc : ℕ → Sys → Sys
cli_timer_proc fd s = elim (split_fd fd s.li_sock) [
  | none ↦ s
  | some (before, t, behind) ↦
      let s' = record (call t.cb s) { li_sock = before ++ (expire t ++ behind) } in
      if t.repeats == 1 then cancel_timerfd t.fd s' else s'
]

unfoldable pub has_srv : List Timer → Bool
has_srv [] = false
has_srv (t ∷ ts) = if t.srv then true else has_srv ts

-- `_cre_srv_node`; `true` is `SUCC`
unfoldable pub cre_srv_node : ℕ → Sys → Bool × Sys
cre_srv_node fd s =
    if has_srv s.li_sock
    then (false, s)
    else (true, enqueue (record (cre_node fd 0) { srv = true }) s)

-- how the thread goes on: with the next event, to `TMROUT1722`, or by `exit(1)`
pub data Verdict : Type 0 where
  go_on : Verdict
  end_thread : Verdict
  exit_process : Verdict

-- `_srv_timer_proc` on a request that was read
unfoldable pub srv_timer_proc : Kernel → Request → Sys → Verdict × Sys
srv_timer_proc k (new_timer sec ms rpe cb) s = (go_on, add_timer k sec ms rpe cb s)
srv_timer_proc k (cancel cb) s = (go_on, rmv_timer cb s)
srv_timer_proc k destroy s = (end_thread, s)
srv_timer_proc k refused s = (go_on, s)
srv_timer_proc k short_read s = (exit_process, s)

-- `TMROUT1722`: every node is taken from the front and its descriptor is closed
unfoldable pub destroy_all : List Timer → Sys → Sys
destroy_all [] s = record s { li_sock = [] }
destroy_all (t ∷ ts) s = destroy_all ts (close t.fd (record s { li_sock = ts }))

-- `cl_timer_count`: the server's node does not count; `none` is -1
unfoldable pub cl_timer_count : Sys → Option ℕ
cl_timer_count s = elim s.li_sock [ [] ↦ none | (t ∷ ts) ↦ some (length ts) ]

-- what one round of `_timer_thread` handles: a request, or a descriptor of a timer that is ready
pub data Event : Type 0 where
  request : Kernel → Bytes → Event
  ready : (fd : ℕ) → Event

unfoldable pub handle : Event → Sys → Verdict × Sys
handle (request k buf) s = srv_timer_proc k (read_request buf) s
handle (ready fd) s = (go_on, cli_timer_proc fd s)

-- how the loop of `_timer_thread` goes on behind an event, and the clean-up behind the loop
unfoldable pub after : Verdict → (Sys → Verdict × Sys) → Sys → Verdict × Sys
after go_on loop s = loop s
after end_thread loop s = (end_thread, destroy_all s.li_sock s)
after exit_process loop s = (exit_process, s)

-- the thread over a sequence of events
unfoldable pub timer_thread : List Event → Sys → Verdict × Sys
timer_thread [] s = (go_on, s)
timer_thread (e ∷ es) s = let (v, s') = handle e s in after v (timer_thread es) s'

-- after `_wait_self_connect`
unfoldable pub started : ℕ → Sys
started fd = (cre_srv_node fd (record { li_sock = []; closed = []; called = [] })).1
