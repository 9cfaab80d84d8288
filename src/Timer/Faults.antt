-- ===== src/Timer/Faults.antt =====
-- What `_rmv_timer` closes, and the periods that `_cre_cli_node` cannot set.
use libccll.Base.{
  append_assoc, ℕ, ◌*◌, ◌≤◌, ◌<◌, ◌≡◌, refl, ap, true, false, ◌&&◌, not, none, some, List, [], ◌∷◌,
  ◌++◌, ltb, ◌==◌, arith, length, Bool-cases, Option-cases, inl, inr,
}
use libccll.Timer.{
  Timer, Sys, Kernel, max_timer_cnt, cre_node, undo_cli_node, cre_cli_node, has_cb, add_timer,
  take_cb, rmv_timer,
}
use libccll.Timer.Shrink.{drop_last-append}
use libccll.Timer.Fire.{with_timer}

-- no timer in the list has the callback
abbrev pub NoClient : ℕ → List Timer → Type 0
NoClient cb [] = Unit
NoClient cb (t ∷ ts) = (not t.srv && t.cb == cb ≡ false) × NoClient cb ts

take_cb-NoClient :
    (cb : ℕ) (before : List Timer) (t : Timer) (behind : List Timer)
    → NoClient cb before
    → not t.srv && t.cb == cb ≡ true
    → take_cb cb (before ++ t ∷ behind) ≡ some (t, before ++ behind)
unfolding take_cb
take_cb-NoClient cb [] t behind out h = rw h refl
take_cb-NoClient cb (u ∷ before) t behind out h =
    rw (take_cb-NoClient cb before t behind out.1 h) (rw out.0 refl)

take_cb-none : (cb : ℕ) (ts : List Timer) → NoClient cb ts → take_cb cb ts ≡ none
unfolding take_cb
take_cb-none cb [] out = refl
take_cb-none cb (t ∷ ts) out = rw (take_cb-none cb ts out.1) (rw out.0 refl)

-- `_rmv_timer` takes out the first client with the callback and no other node, and calls `close` on
-- its descriptor twice; if no client has the callback, it changes nothing.
pub rmv_timer_twice :
    (before : List Timer) (fd repeats cb : ℕ) (behind : List Timer) (closed called : List ℕ)
    → NoClient cb before
    → (rmv_timer cb (with_timer before fd repeats cb behind closed called)
        ≡ record { li_sock = before ++ behind; closed = closed ++ fd ∷ fd ∷ []; called = called })
      × (rmv_timer cb (record { li_sock = before; closed = closed; called = called })
          ≡ record { li_sock = before; closed = closed; called = called })
unfolding rmv_timer
rmv_timer_twice before fd repeats cb behind closed called out =
    let found =
      take_cb-NoClient cb before (record (cre_node fd cb) { repeats = repeats }) behind out
        (ground arith) in
    (
      rw (found, rmv_timer)
          (ap (λ fds. record { li_sock = before ++ behind; closed = fds; called = called })
            (append_assoc closed (fd ∷ []) (fd ∷ []))),
      rw (take_cb-none cb before out, rmv_timer) refl,
    )

cre_cli_node_second :
    (k : Kernel) (sec ms repeats cb : ℕ) (s : Sys)
    → ((sec ns : ℕ) → 999999999 < ns → k.settime sec ns ≡ false)
    → 1000 ≤ ms
    → (cre_cli_node k sec ms repeats cb s).1.li_sock ≡ s.li_sock
unfolding cre_cli_node undo_cli_node
cre_cli_node_second k sec ms repeats cb s refuses le =
    let set : k.settime sec (ms * 1000000) ≡ false = refuses sec (ms * 1000000) (omega arith) in
    elim (Option-cases k.create) [
      | inl e ↦ rw e refl
      | inr (fd, e) ↦
          let back = drop_last-append s.li_sock (record (cre_node fd cb) { repeats = repeats }) in
          elim (Bool-cases (k.epoll_add fd)) [
            | inr failed ↦ rw e (rw failed back)
            | inl added ↦ rw e (rw added (rw set back))
          ]
    ]

-- `_add_timer` registers no timer with a period of 1000 ms or more in `ms`, on a kernel whose
-- `timerfd_settime` refuses more than 999999999 ns.
add_timer_second :
    (k : Kernel) (sec ms repeats cb : ℕ) (s : Sys)
    → ((sec ns : ℕ) → 999999999 < ns → k.settime sec ns ≡ false)
    → 1000 ≤ ms
    → (add_timer k sec ms repeats cb s).li_sock ≡ s.li_sock
unfolding add_timer
add_timer_second k sec ms repeats cb s refuses le = elim (Bool-cases (has_cb cb s.li_sock)) [
  | inl old ↦ rw old refl
  | inr new ↦ elim (Bool-cases (ltb max_timer_cnt (length s.li_sock))) [
    | inl full ↦ rw new (rw full refl)
    | inr room ↦ rw new (rw room (cre_cli_node_second k sec ms repeats cb s refuses le))
  ]
]
