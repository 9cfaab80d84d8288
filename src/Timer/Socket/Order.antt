-- ===== src/Timer/Socket/Order.antt =====
-- sys/timer.c: the requests arrive whole and in order, whoever writes and whenever the thread reads.
use mathlib.Core.Path.{subst}
use libccll.Base.{
  ℕ, ◌≡◌, ◌≢◌, refl, sym, ap, ◌∙◌, List, [], ◌∷◌, ◌++◌, append_assoc, append-nil, Bytes, take, drop,
  arith,
}
use libccll.Timer.{
  Sys, Kernel, Verdict, go_on, end_thread, exit_process, Request, new_timer, cancel, destroy,
  refused, short_read, Event, request, ready, handle, after, timer_thread, srv_timer_proc, started,
  read_request, load_srv_buf, cl_timer_set, cl_timer_cancel, timer_destroy,
}
use libccll.Timer.Codec.{read_request-load_srv_buf}
use libccll.Timer.Socket.{
  written, IsCall, Conn, handled, ConnStep, send, serve, elapse, ConnReach, start, later,
}

-- the requests among the events
abbrev pub asked : List Event → List Request
asked [] = []
asked (request k buf ∷ es) = read_request buf ∷ asked es
asked (ready fd ∷ es) = asked es

-- the bytes of the requests, one behind the other
abbrev pub written_all : List Request → Bytes
written_all [] = []
written_all (r ∷ rs) = written r ++ written_all rs

abbrev pub AllCalls : List Request → Type 0
AllCalls [] = Unit
AllCalls (r ∷ rs) = IsCall r × AllCalls rs

-- not `exit(1)`
abbrev pub IsAlive : Verdict → Type 0
IsAlive go_on = Unit
IsAlive end_thread = Unit
IsAlive exit_process = ⊥

pub record Inv (fd : ℕ) (c : Conn) (waiting : List Request) : Type 0 where
  pub arriving : c.sock ≡ written_all waiting
  pub order : c.sent ≡ asked c.events ++ waiting
  pub calls : AllCalls waiting
  pub ran : timer_thread c.events (started fd) ≡ (c.verdict, c.sys)
  pub alive : IsAlive c.verdict

asked-snoc : (es : List Event) (e : Event) → asked (es ++ e ∷ []) ≡ asked es ++ asked (e ∷ [])
asked-snoc [] e = refl
asked-snoc (request k buf ∷ es) e = ap (◌∷◌ (read_request buf)) (asked-snoc es e)
asked-snoc (ready fd ∷ es) e = asked-snoc es e

written_all-snoc :
    (rs : List Request) (r : Request) → written_all (rs ++ r ∷ []) ≡ written_all rs ++ written r
written_all-snoc [] r = append-nil (written r)
written_all-snoc (q ∷ rs) r =
    ap (λ s. written q ++ s) (written_all-snoc rs r)
    ∙ sym (append_assoc (written q) (written_all rs) (written r))

AllCalls-snoc : (rs : List Request) (r : Request) → AllCalls rs → IsCall r → AllCalls (rs ++ r ∷ [])
AllCalls-snoc [] r h call = (call, tt)
AllCalls-snoc (q ∷ rs) r h call = (h.0, AllCalls-snoc rs r h.1 call)

-- a request that was written is read as what it was
read-written : (r : Request) → IsCall r → read_request (written r) ≡ r
unfolding written
read-written (new_timer sec ms repeats cb) h =
    (read_request-load_srv_buf sec ms repeats cb h.0 h.1 h.2 h.3).0
read-written (cancel cb) h =
    (read_request-load_srv_buf 0 0 0 cb (omega arith) (omega arith) (omega arith) h).1
read-written destroy h =
    (read_request-load_srv_buf 0 0 0 0 (omega arith) (omega arith) (omega arith) (omega arith)).2
read-written refused h = absurd h
read-written short_read h = absurd h

module _ (rest : Bytes) where
  -- and takes the first 20 bytes
  take-written : (r : Request) → IsCall r → take 20 (written r ++ rest) ≡ written r
  unfolding written cl_timer_set cl_timer_cancel timer_destroy load_srv_buf
  take-written (new_timer sec ms repeats cb) h = refl
  take-written (cancel cb) h = refl
  take-written destroy h = refl
  take-written refused h = absurd h
  take-written short_read h = absurd h

  drop-written : (r : Request) → IsCall r → drop 20 (written r ++ rest) ≡ rest
  unfolding written cl_timer_set cl_timer_cancel timer_destroy load_srv_buf
  drop-written (new_timer sec ms repeats cb) h = refl
  drop-written (cancel cb) h = refl
  drop-written destroy h = refl
  drop-written refused h = absurd h
  drop-written short_read h = absurd h

timer_thread-go :
    (es : List Event) (e : Event) (s t : Sys) (v : Verdict) (u : Sys)
    → handle e s ≡ (v, u)
    → after v (timer_thread es) u ≡ (go_on, t)
    → (v ≡ go_on) × (timer_thread es u ≡ (go_on, t))
unfolding after
timer_thread-go es e s t go_on u h ran = (refl, ran)
timer_thread-go es e s t end_thread u h ran = absurd cc
timer_thread-go es e s t exit_process u h ran = absurd cc

-- a thread that goes on handles the next event
timer_thread-snoc :
    (es : List Event) (e : Event) (s t : Sys)
    → timer_thread es s ≡ (go_on, t)
    → timer_thread (es ++ e ∷ []) s ≡ timer_thread (e ∷ []) t
unfolding timer_thread after
timer_thread-snoc [] e s t ran = ap (λ r. timer_thread (e ∷ []) r.1) ran
timer_thread-snoc (d ∷ es) e s t ran =
    let (on, rest) = timer_thread-go es d s t (handle d s).0 (handle d s).1 refl ran in
    rw on (timer_thread-snoc es e (handle d s).1 t rest)

-- no call makes the thread exit the process
IsAlive-served :
    (k : Kernel) (s : Sys) (r : Request)
    → IsCall r
    → IsAlive (after (srv_timer_proc k r s).0 (timer_thread []) (srv_timer_proc k r s).1).0
unfolding timer_thread after srv_timer_proc
IsAlive-served k s (new_timer sec ms repeats cb) h = tt
IsAlive-served k s (cancel cb) h = tt
IsAlive-served k s destroy h = tt
IsAlive-served k s refused h = absurd h
IsAlive-served k s short_read h = absurd h

IsAlive-request :
    (k : Kernel) (s : Sys) (r : Request)
    → IsCall r
    → IsAlive (timer_thread (request k (written r) ∷ []) s).0
unfolding timer_thread handle
IsAlive-request k s r h = rw (read-written r h) (IsAlive-served k s r h)

IsAlive-ready : (fd : ℕ) (s : Sys) → IsAlive (timer_thread (ready fd ∷ []) s).0
unfolding timer_thread handle after
IsAlive-ready fd s = tt

-- the run of the thread with one event more
ran-handled :
    (fd : ℕ) (c : Conn) (e : Event)
    → timer_thread c.events (started fd) ≡ (c.verdict, c.sys)
    → c.verdict ≡ go_on
    → let d = handled e c in timer_thread d.events (started fd) ≡ (d.verdict, d.sys)
ran-handled fd c e ran on =
    timer_thread-snoc c.events e (started fd) c.sys (ran ∙ ap (λ v. (v, c.sys)) on)

served :
    (fd : ℕ) (c : Conn) (k : Kernel) (waiting : List Request)
    → Inv fd c waiting
    → c.verdict ≡ go_on
    → c.sock ≢ []
    → (rest : List Request) × Inv fd
        (record (handled (request k (take 20 c.sock)) c) { sock = drop 20 c.sock })
        rest
served fd c k [] inv on some_bytes = absurd (some_bytes inv.arriving)
served fd c k (r ∷ rest) inv on some_bytes =
    let (call, calls) = inv.calls in
    let first : take 20 c.sock ≡ written r =
      ap (take 20) inv.arriving ∙ take-written (written_all rest) r call in
    let read : read_request (take 20 c.sock) ≡ r = ap read_request first ∙ read-written r call in
    (
      rest,
      record {
        arriving = ap (drop 20) inv.arriving ∙ drop-written (written_all rest) r call;
        order =
            rw (asked-snoc c.events (request k (take 20 c.sock)), read)
              (inv.order ∙ sym (append_assoc (asked c.events) (r ∷ []) rest));
        calls = calls;
        ran = ran-handled fd c (request k (take 20 c.sock)) inv.ran on;
        alive = rw first (IsAlive-request k c.sys r call);
      },
    )

ConnStep-Inv :
    (fd : ℕ) (c d : Conn) (waiting : List Request)
    → ConnStep c d
    → Inv fd c waiting
    → (rest : List Request) × Inv fd d rest
ConnStep-Inv fd c d waiting (send r call e) inv = (
  waiting ++ r ∷ [],
  rw e (record {
    arriving = ap (λ s. s ++ written r) inv.arriving ∙ sym (written_all-snoc waiting r);
    order = ap (λ s. s ++ r ∷ []) inv.order ∙ append_assoc (asked c.events) waiting (r ∷ []);
    calls = AllCalls-snoc waiting r inv.calls call;
    ran = inv.ran;
    alive = inv.alive;
  }),
)
ConnStep-Inv fd c d waiting (serve k on some_bytes e) inv =
    let (rest, next) = served fd c k waiting inv on some_bytes in (rest, rw e next)
ConnStep-Inv fd c d waiting (elapse timer on e) inv = (
  waiting,
  rw e (record {
    arriving = inv.arriving;
    order =
        inv.order
        ∙ ap (λ s. s ++ waiting)
            (sym (asked-snoc c.events (ready timer) ∙ append-nil (asked c.events)));
    calls = inv.calls;
    ran = ran-handled fd c (ready timer) inv.ran on;
    alive = IsAlive-ready timer c.sys;
  }),
)

ConnReach-Inv : (fd : ℕ) (c : Conn) → ConnReach fd c → (waiting : List Request) × Inv fd c waiting
unfolding timer_thread
ConnReach-Inv fd c start =
    ([], record { arriving = refl; order = refl; calls = tt; ran = refl; alive = tt })
ConnReach-Inv fd c (later {c = before} r st) =
    let (waiting, inv) = ConnReach-Inv fd before r in ConnStep-Inv fd before c waiting st inv

-- In every interleaving of the clients, the thread and the timers: what the clients sent is what the thread
-- was asked for, in order, followed by the requests whose bytes wait in the socket; the timers are those
-- that `timer_thread` makes of what was handled; and the thread has not exited the process. For a socket
-- that delivers the bytes in order and takes a request whole.
pub ConnReach-served :
    (fd : ℕ) (c : Conn)
    → ConnReach fd c
    → (waiting : List Request) × (c.sent ≡ asked c.events ++ waiting)
      × (c.sock ≡ written_all waiting)
      × (timer_thread c.events (started fd) ≡ (c.verdict, c.sys))
      × (c.verdict ≢ exit_process)
ConnReach-served fd c r =
    let (waiting, inv) = ConnReach-Inv fd c r in
    (waiting, inv.order, inv.arriving, inv.ran, λ e. subst IsAlive e inv.alive)
