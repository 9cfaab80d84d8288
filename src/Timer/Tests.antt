-- ===== src/Timer/Tests.antt =====
-- The timer theorems at concrete requests and timers.
use libccll.Base.{ℕ, ◌≤◌, ◌≡◌, ◌≢◌, refl, true, false, some, List, [], ◌∷◌, leb, arith}
use libccll.Timer.{
  Timer, Kernel, go_on, end_thread, new_timer, cancel, destroy, read_request, load_srv_buf,
  cl_timer_set, cl_timer_cancel, timer_destroy, Event, request, ready, handle, after, timer_thread,
  started, cl_timer_count, cli_timer_proc, srv_timer_proc, add_timer, rmv_timer, to_bytes,
  from_bytes, cre_cli_node, has_cb, split_fd, expire, take_cb, cre_srv_node, has_srv,
}
use libccll.Timer.Shrink.{IsValid}
use libccll.Timer.Codec.{read_request-load_srv_buf}
use libccll.Timer.Invariant.{timer_thread-IsValid}
use libccll.Timer.Fire.{with_timer, elapse, elapse-with_timer}
use libccll.Timer.Faults.{rmv_timer_twice}

abbrev kernel : Kernel
kernel = record { create = some 9; epoll_add = λ fd. true; settime = λ sec ns. leb ns 999999999 }

abbrev events : List Event
events =
    request kernel (cl_timer_set 1 500 2 77)
    ∷ (ready 9
        ∷ (request kernel (cl_timer_cancel 78) ∷ (request kernel (cl_timer_set 1 500 2 77) ∷ [])))

-- one timer is left, and its callback was called once
events_run : timer_thread events (started 3) ≡ (
  go_on,
  record {
    li_sock =
        record { srv = true; fd = 3; repeats = 0; cb = 0 }
        ∷ (record { srv = false; fd = 9; repeats = 1; cb = 77 } ∷ []);
    closed = [];
    called = 77 ∷ [];
  },
)
unfolding timer_thread handle after srv_timer_proc add_timer rmv_timer cre_cli_node has_cb
    cli_timer_proc split_fd expire take_cb started cre_srv_node has_srv read_request load_srv_buf
    cl_timer_set cl_timer_cancel to_bytes from_bytes
events_run = refl

events_go_on : (timer_thread events (started 3)).0 ≢ end_thread
events_go_on = rw events_run (λ e. ground (arith, e))

read_request-load_srv_buf_example :
    (read_request (cl_timer_set 5 250 3 0x55d0c0ffee) ≡ new_timer 5 250 3 0x55d0c0ffee)
    × (read_request (cl_timer_cancel 0x55d0c0ffee) ≡ cancel 0x55d0c0ffee)
    × (read_request timer_destroy ≡ destroy)
read_request-load_srv_buf_example =
    read_request-load_srv_buf 5 250 3 0x55d0c0ffee (omega arith) (omega arith) (omega arith)
      (omega arith)

timer_thread-IsValid_example :
    IsValid ((timer_thread events (started 3)).1.li_sock)
    × ((n : ℕ) × (cl_timer_count ((timer_thread events (started 3)).1) ≡ some n) × (n ≤ 100))
timer_thread-IsValid_example = timer_thread-IsValid 3 events events_go_on

abbrev server : Timer
server = record { srv = true; fd = 3; repeats = 0; cb = 0 }

elapse-with_timer_example :
    (elapse 3 9 (with_timer (server ∷ []) 9 3 77 [] [] [])
      ≡ record { li_sock = server ∷ []; closed = 9 ∷ []; called = 77 ∷ (77 ∷ (77 ∷ [])) })
    × (elapse 2 9 (with_timer (server ∷ []) 9 0 77 [] [] [])
        ≡ with_timer (server ∷ []) 9 0 77 [] [] (77 ∷ (77 ∷ [])))
elapse-with_timer_example =
    elapse-with_timer (server ∷ []) 9 77 [] (refl, tt) (λ e. ground (arith, e)) 2 [] []

rmv_timer_twice_example :
    (rmv_timer 77 (with_timer (server ∷ []) 9 3 77 [] [] [])
      ≡ record { li_sock = server ∷ []; closed = 9 ∷ (9 ∷ []); called = [] })
    × (rmv_timer 77 (record { li_sock = server ∷ []; closed = []; called = [] })
        ≡ record { li_sock = server ∷ []; closed = []; called = [] })
rmv_timer_twice_example = rmv_timer_twice (server ∷ []) 9 3 77 [] [] [] (refl, tt)
