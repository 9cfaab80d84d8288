-- ===== src/Timer/Socket.antt =====
-- sys/timer.c: the clients, the socket between them and the thread, and the thread, interleaved. A call
-- of `write` or `read` is one step; the socket delivers the bytes in order, and a write of 20 bytes to
-- it is whole or fails.
pub mod Order
mod Tests
use libccll.Base.{ℕ, ◌<◌, ◌^◌, ◌≡◌, ◌≢◌, List, [], ◌∷◌, ◌++◌, Bytes, take, drop}
use libccll.Timer.{
  Sys, Kernel, Verdict, go_on, Request, new_timer, cancel, destroy, refused, short_read, Event,
  request, ready, timer_thread, started, cl_timer_set, cl_timer_cancel, timer_destroy,
}

-- what `cl_timer_set`, `cl_timer_cancel` and `_timer_destroy` write
unfoldable pub written : Request → Bytes
written (new_timer sec ms repeats cb) = cl_timer_set sec ms repeats cb
written (cancel cb) = cl_timer_cancel cb
written destroy = timer_destroy
written refused = []
written short_read = []

-- A call with arguments of the parameters' types; no call writes what the server would refuse.
abbrev pub IsCall : Request → Type 0
IsCall (new_timer sec ms repeats cb) =
    (sec < 2 ^ 16) × (ms < 2 ^ 16) × (repeats < 2 ^ 32) × (cb < 2 ^ 64)
IsCall (cancel cb) = cb < 2 ^ 64
IsCall destroy = Unit
IsCall refused = ⊥
IsCall short_read = ⊥

-- The bytes in the socket, the timers, and how the thread goes on. `sent` and `events` are the history:
-- the calls, and what the thread handled.
pub record Conn : Type 0 where
  pub sock : Bytes
  pub sys : Sys
  pub verdict : Verdict
  pub sent : List Request
  pub events : List Event

-- the thread with one more event
abbrev pub handled : Event → Conn → Conn
handled e c = record c {
  sys = (timer_thread (e ∷ []) c.sys).1;
  verdict = (timer_thread (e ∷ []) c.sys).0;
  events = c.events ++ e ∷ [];
}

-- The thread reads 20 bytes when there are some in the socket, as `epoll_wait` tells.
pub data ConnStep (c d : Conn) : Type 0 where
  send :
      (r : Request)
      → IsCall r
      → d ≡ record c { sock = c.sock ++ written r; sent = c.sent ++ r ∷ [] }
      → ConnStep c d
  serve :
      (k : Kernel)
      → c.verdict ≡ go_on
      → c.sock ≢ []
      → d ≡ record (handled (request k (take 20 c.sock)) c) { sock = drop 20 c.sock }
      → ConnStep c d
  elapse : (fd : ℕ) → c.verdict ≡ go_on → d ≡ handled (ready fd) c → ConnStep c d

-- from the time on when the thread has accepted the connection, as `fd`
abbrev pub connected : (fd : ℕ) → Conn
connected fd = record { sock = []; sys = started fd; verdict = go_on; sent = []; events = [] }

pub data ConnReach (fd : ℕ) : Conn → Type 0 where
  start : ConnReach fd (connected fd)
  later : {c d : Conn} → ConnReach fd c → ConnStep c d → ConnReach fd d
