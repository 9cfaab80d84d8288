-- ===== src/Timer/Socket/Tests.antt =====
-- A timer is set and cancelled, and the thread has read the first of the two requests.
use libccll.Base.{
  ◌≡◌, ◌≢◌, refl, ap, true, some, List, [], ◌∷◌, ◌++◌, leb, arith, take, drop, length,
}
use libccll.Timer.{
  Kernel, exit_process, Request, new_timer, cancel, request, timer_thread, started, load_srv_buf,
  cl_timer_set,
}
use libccll.Timer.Socket.{written, Conn, handled, connected, ConnReach, start, later, send, serve}
use libccll.Timer.Socket.Order.{asked, written_all, ConnReach-served}

abbrev kernel : Kernel
kernel = record { create = some 9; epoll_add = λ fd. true; settime = λ sec ns. leb ns 999999999 }

abbrev set_one : Request
set_one = new_timer 1 500 2 77

abbrev two_sent : Conn
two_sent = record (connected 3) {
  sock = written set_one ++ written (cancel 77);
  sent = set_one ∷ (cancel 77 ∷ []);
}

two_sent-ConnReach : ConnReach 3 two_sent
two_sent-ConnReach =
    later (later start (send set_one (omega arith, omega arith, omega arith, omega arith) refl))
      (send (cancel 77) (omega arith) refl)

some_bytes : two_sent.sock ≢ []
unfolding written cl_timer_set load_srv_buf
some_bytes e = omega (arith, ap length e)

abbrev one_served : Conn
one_served = record (handled (request kernel (take 20 two_sent.sock)) two_sent) {
  sock = drop 20 two_sent.sock;
}

one_served-ConnReach : ConnReach 3 one_served
one_served-ConnReach = later two_sent-ConnReach (serve kernel refl some_bytes refl)

ConnReach-served_example :
    (waiting : List Request) × (one_served.sent ≡ asked one_served.events ++ waiting)
    × (one_served.sock ≡ written_all waiting)
    × (timer_thread one_served.events (started 3) ≡ (one_served.verdict, one_served.sys))
    × (one_served.verdict ≢ exit_process)
ConnReach-served_example = ConnReach-served 3 one_served one_served-ConnReach
