-- ===== src/Timer/Invariant.antt =====
-- What the thread keeps of `g_li_sock`: the server's node in front, at most a hundred timers behind
-- it, and no callback twice.
use libccll.Base.{
  ℕ, ◌*◌, ◌≤◌, ◌≡◌, ◌≢◌, refl, sym, some, List, [], ◌∷◌, ◌++◌, ltb, ◌==◌, arith, length, NotIn,
  Bool-cases, inl, inr, Option-cases,
}
use libccll.Timer.Shrink.{
  IsValid, cbs, drop_last-append, NotIn-has_cb, IsValid-enqueue, Shrinks-take_cb, IsValid-Shrinks,
  Shrinks-expire, split_fd_lem,
}
use libccll.Timer.{
  Timer, Sys, Kernel, Verdict, go_on, end_thread, exit_process, Request, new_timer, cancel, destroy,
  refused, short_read, read_request, max_timer_cnt, drop_last, cre_node, undo_cli_node,
  cre_cli_node, has_cb, add_timer, take_cb, rmv_timer, expire, split_fd, cli_timer_proc, has_srv,
  cre_srv_node, srv_timer_proc, cl_timer_count, Event, request, ready, handle, after, timer_thread,
  started,
}

IsValid-cre_cli_node :
    (k : Kernel) (sec ms repeats cb : ℕ) (s : Sys)
    → IsValid s.li_sock
    → NotIn cb (cbs s.li_sock)
    → length s.li_sock ≤ 100
    → IsValid ((cre_cli_node k sec ms repeats cb s).1.li_sock)
unfolding cre_cli_node undo_cli_node
IsValid-cre_cli_node k sec ms repeats cb s h out le = elim (Option-cases k.create) [
  | inl e ↦ rw e h
  | inr (fd, e) ↦
      let t : Timer = record (cre_node fd cb) { repeats = repeats } in
      let back : IsValid (drop_last (s.li_sock ++ t ∷ [])) = rw (drop_last-append s.li_sock t) h in
      elim (Bool-cases (k.epoll_add fd)) [
        | inr failed ↦ rw e (rw failed back)
        | inl added ↦ elim (Bool-cases (k.settime sec (ms * 1000000))) [
          | inr failed ↦ rw e (rw added (rw failed back))
          | inl set ↦ rw e (rw added (rw set (IsValid-enqueue s.li_sock t h out le)))
        ]
      ]
]

IsValid-add_timer :
    (k : Kernel) (sec ms repeats cb : ℕ) (s : Sys)
    → IsValid s.li_sock
    → IsValid ((add_timer k sec ms repeats cb s).li_sock)
unfolding add_timer
IsValid-add_timer k sec ms repeats cb s h = elim (Bool-cases (has_cb cb s.li_sock)) [
  | inl e ↦ rw e h
  | inr new ↦ elim (Bool-cases (ltb max_timer_cnt (length s.li_sock))) [
    | inl full ↦ rw new (rw full h)
    | inr room ↦ rw new (
        rw room (
          IsValid-cre_cli_node k sec ms repeats cb s h (NotIn-has_cb cb s.li_sock new)
            (ground (arith, room))))
  ]
]

IsValid-rmv_timer : (cb : ℕ) (s : Sys) → IsValid s.li_sock → IsValid ((rmv_timer cb s).li_sock)
unfolding rmv_timer
IsValid-rmv_timer cb s h = elim (Option-cases (take_cb cb s.li_sock)) [
  | inl e ↦ rw (e, rmv_timer) h
  | inr ((t, ts), e) ↦
      rw (e, rmv_timer) (IsValid-Shrinks s.li_sock ts (Shrinks-take_cb cb s.li_sock t ts e) h)
]

IsValid-cli_timer_proc :
    (fd : ℕ) (s : Sys) → IsValid s.li_sock → IsValid ((cli_timer_proc fd s).li_sock)
unfolding cli_timer_proc
IsValid-cli_timer_proc fd s h = elim (Option-cases (split_fd fd s.li_sock)) [
  | inl e ↦ rw (e, cli_timer_proc) h
  | inr ((before, t, behind), e) ↦
      let (splits, client, same) = split_fd_lem fd s.li_sock before t behind e in
      let k : IsValid (before ++ (expire t ++ behind)) =
        IsValid-Shrinks _ _ (Shrinks-expire before t behind client) (rw (sym splits) h) in
      elim (Bool-cases (t.repeats == 1)) [
        | inl last ↦ rw (e, cli_timer_proc) (rw last k)
        | inr more ↦ rw (e, cli_timer_proc) (rw more k)
      ]
]

IsValid-srv_timer_proc :
    (k : Kernel) (r : Request) (s : Sys)
    → IsValid s.li_sock
    → IsValid ((srv_timer_proc k r s).1.li_sock)
unfolding srv_timer_proc
IsValid-srv_timer_proc k (new_timer sec ms rpe cb) s h = IsValid-add_timer k sec ms rpe cb s h
IsValid-srv_timer_proc k (cancel cb) s h = IsValid-rmv_timer cb s h
IsValid-srv_timer_proc k destroy s h = h
IsValid-srv_timer_proc k refused s h = h
IsValid-srv_timer_proc k short_read s h = h

IsValid-handle : (e : Event) (s : Sys) → IsValid s.li_sock → IsValid ((handle e s).1.li_sock)
unfolding handle
IsValid-handle (request k buf) s h = IsValid-srv_timer_proc k (read_request buf) s h
IsValid-handle (ready fd) s h = IsValid-cli_timer_proc fd s h

IsValid-after :
    (go : Sys → Verdict × Sys)
    → ((s : Sys) → IsValid s.li_sock → (go s).0 ≢ end_thread → IsValid ((go s).1.li_sock))
    → (v : Verdict) (s : Sys) → IsValid s.li_sock
    → (after v go s).0 ≢ end_thread
    → IsValid ((after v go s).1.li_sock)
unfolding after
IsValid-after go keeps go_on s h on = keeps s h on
IsValid-after go keeps end_thread s h on = absurd (on refl)
IsValid-after go keeps exit_process s h on = h

IsValid-timer_thread :
    (es : List Event) (s : Sys)
    → IsValid s.li_sock
    → (timer_thread es s).0 ≢ end_thread
    → IsValid ((timer_thread es s).1.li_sock)
unfolding timer_thread
IsValid-timer_thread [] s h on = h
IsValid-timer_thread (e ∷ es) s h on =
    IsValid-after (timer_thread es) (IsValid-timer_thread es) _ _ (IsValid-handle e s h) on

IsValid-started : (fd : ℕ) → IsValid (started fd).li_sock
unfolding started cre_srv_node has_srv
IsValid-started fd = record { served = refl; distinct = (tt, tt); bounded = omega arith }

count_go :
    (s : Sys) (ts : List Timer)
    → s.li_sock ≡ ts
    → IsValid ts
    → (n : ℕ) × (cl_timer_count s ≡ some n) × (n ≤ 100)
unfolding cl_timer_count
count_go s [] e h = absurd h.served
count_go s (t ∷ ts) e h = (length ts, rw e refl, omega (arith, h.bounded))

count_lem : (s : Sys) → IsValid s.li_sock → (n : ℕ) × (cl_timer_count s ≡ some n) × (n ≤ 100)
unfolding cl_timer_count
count_lem s h = count_go s s.li_sock refl h

-- Whatever requests and expirations the thread handles from its start on, unless it was asked to end:
-- the server's node is the first in the list, no callback is registered twice, and `cl_timer_count`
-- returns a number up to 100.
pub timer_thread-IsValid :
    (fd : ℕ) (es : List Event)
    → (timer_thread es (started fd)).0 ≢ end_thread
    → IsValid ((timer_thread es (started fd)).1.li_sock)
      × ((n : ℕ) × (cl_timer_count ((timer_thread es (started fd)).1) ≡ some n) × (n ≤ 100))
timer_thread-IsValid fd es on =
    let h = IsValid-timer_thread es (started fd) (IsValid-started fd) on in (h, count_lem _ h)
