-- ===== src/Timer/Fire.antt =====
-- How often a timer calls its callback.
use libccll.Base.{
  append_assoc, append-nil, ℕ, zero, suc, ◌-◌, ◌≡◌, ◌≢◌, refl, sym, ap, ◌∙◌, true, false, ◌||◌, not,
  some, List, [], ◌∷◌, ◌++◌, ltb, ◌==◌, arith, replicate,
}
use libccll.Timer.{Timer, Sys, cre_node, expire, split_fd, cli_timer_proc}

-- no timer in the list has the descriptor
abbrev pub NoTimer : ℕ → List Timer → Type 0
NoTimer fd [] = Unit
NoTimer fd (t ∷ ts) = (t.srv || not (t.fd == fd) ≡ true) × NoTimer fd ts

-- the state in which a client's node stands between two parts of the list
abbrev pub with_timer :
    (before : List Timer)
    → (fd repeats cb : ℕ) → (behind : List Timer) → (closed called : List ℕ) → Sys
with_timer before fd repeats cb behind closed called = record {
  li_sock = before ++ record (cre_node fd cb) { repeats = repeats } ∷ behind;
  closed = closed;
  called = called;
}

-- the descriptor gets ready a number of times
unfoldable pub elapse : ℕ → (fd : ℕ) → Sys → Sys
elapse zero fd s = s
elapse (suc n) fd s = elapse n fd (cli_timer_proc fd s)

split_fd-NoTimer :
    (fd : ℕ) (before : List Timer) (t : Timer) (behind : List Timer)
    → NoTimer fd before
    → t.srv || not (t.fd == fd) ≡ false
    → split_fd fd (before ++ t ∷ behind) ≡ some (before, t, behind)
unfolding split_fd
split_fd-NoTimer fd [] t behind out h = rw h refl
split_fd-NoTimer fd (u ∷ before) t behind out h =
    rw (split_fd-NoTimer fd before t behind out.1 h) (rw out.0 refl)

module _ (before : List Timer) (fd cb : ℕ) (behind : List Timer) (out : NoTimer fd before)
    (set : cb ≢ 0) where
  found :
      (r : ℕ)
      → split_fd fd (before ++ record (cre_node fd cb) { repeats = r } ∷ behind)
        ≡ some (before, record (cre_node fd cb) { repeats = r }, behind)
  found r = split_fd-NoTimer fd before _ behind out (ground arith)

  no_null : cb == 0 ≡ false
  no_null = ground (arith, set)

  cli_timer_proc-again :
      (n : ℕ) (closed called : List ℕ)
      → cli_timer_proc fd (with_timer before fd (suc (suc n)) cb behind closed called)
        ≡ with_timer before fd (suc n) cb behind closed (called ++ cb ∷ [])
  unfolding cli_timer_proc expire
  cli_timer_proc-again n closed called =
      let many : ltb 1 (suc (suc n)) ≡ true = ground arith in
      let more : suc (suc n) == 1 ≡ false = ground arith in
      let less : suc (suc n) - 1 ≡ suc n = omega arith in
      rw (found (suc (suc n)), cli_timer_proc) (rw no_null (rw many (rw more (rw less refl))))

  cli_timer_proc-last :
      (closed called : List ℕ)
      → cli_timer_proc fd (with_timer before fd 1 cb behind closed called) ≡ record {
        li_sock = before ++ behind;
        closed = closed ++ fd ∷ [];
        called = called ++ cb ∷ [];
      }
  unfolding cli_timer_proc expire
  cli_timer_proc-last closed called = rw (found 1, cli_timer_proc) (rw no_null refl)

  cli_timer_proc-forever :
      (closed called : List ℕ)
      → cli_timer_proc fd (with_timer before fd 0 cb behind closed called)
        ≡ with_timer before fd 0 cb behind closed (called ++ cb ∷ [])
  unfolding cli_timer_proc expire
  cli_timer_proc-forever closed called = rw (found 0, cli_timer_proc) (rw no_null refl)

  elapse-repeats :
      (n : ℕ) (closed called : List ℕ)
      → elapse (suc n) fd (with_timer before fd (suc n) cb behind closed called) ≡ record {
        li_sock = before ++ behind;
        closed = closed ++ fd ∷ [];
        called = called ++ replicate (suc n) cb;
      }
  unfolding elapse
  elapse-repeats zero closed called = cli_timer_proc-last closed called
  elapse-repeats (suc n) closed called = rw (cli_timer_proc-again n closed called) (
      elapse-repeats n closed (called ++ cb ∷ [])
      ∙ rw (append_assoc called (cb ∷ []) (replicate (suc n) cb)) refl)

  elapse-forever :
      (n : ℕ) (closed called : List ℕ)
      → elapse n fd (with_timer before fd 0 cb behind closed called)
        ≡ with_timer before fd 0 cb behind closed (called ++ replicate n cb)
  unfolding elapse
  elapse-forever zero closed called =
      ap (with_timer before fd 0 cb behind closed) (sym (append-nil called))
  elapse-forever (suc n) closed called = rw (cli_timer_proc-forever closed called) (
      elapse-forever n closed (called ++ cb ∷ [])
      ∙ rw (append_assoc called (cb ∷ []) (replicate n cb)) refl)

  -- A timer set to repeat so many times, above 0, calls its callback that often while its descriptor
  -- gets ready as often; then its node is gone, the others are as they were, and the descriptor is
  -- closed once. One set to repeat 0 times calls its callback each time and stays. For a callback that
  -- is not null, and a descriptor that no timer before it in the list has.
  pub elapse-with_timer :
      (n : ℕ) (closed called : List ℕ)
      → (elapse (suc n) fd (with_timer before fd (suc n) cb behind closed called) ≡ record {
        li_sock = before ++ behind;
        closed = closed ++ fd ∷ [];
        called = called ++ replicate (suc n) cb;
      })
        × (elapse n fd (with_timer before fd 0 cb behind closed called)
            ≡ with_timer before fd 0 cb behind closed (called ++ replicate n cb))
  elapse-with_timer n closed called =
      (elapse-repeats n closed called, elapse-forever n closed called)
