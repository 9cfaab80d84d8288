-- ===== src/Event/Sub.antt =====
-- evt/event.c: subscriptions, and `cl_evt_sub` and `cl_evt_unsub` on them.
use libccll.Base.{
  ℕ, ◌≡◌, ◌≢◌, ◌⊎◌, refl, sym, ap, true, false, List, [], ◌∷◌, ◌++◌, ◌==◌, arith, Bool-cases, inl,
  inr,
}
use libccll.Event.{ClEvtLsnr, Evt, is_lsnr, has_lsnr, cl_evt_sub, del_lsnr, cl_evt_unsub}

same_lsnr : (evt_no cb : ℕ) → is_lsnr evt_no cb (record { no = evt_no; cb = cb }) ≡ true
unfolding is_lsnr
same_lsnr evt_no cb = ground arith

del_lsnr-append :
    (evt_no cb : ℕ) (ls : List ClEvtLsnr)
    → has_lsnr evt_no cb ls ≡ false
    → del_lsnr evt_no cb (ls ++ record { no = evt_no; cb = cb } ∷ []) ≡ ls
unfolding del_lsnr has_lsnr
del_lsnr-append evt_no cb [] new = let k = same_lsnr evt_no cb in rw k refl
del_lsnr-append evt_no cb (l ∷ ls) new = elim (Bool-cases (is_lsnr evt_no cb l)) [
  | inl same ↦ absurd (ground (arith, same, new))
  | inr other ↦ rw other (ap (◌∷◌ l) (del_lsnr-append evt_no cb ls (ground (arith, other, new))))
]

has_lsnr-new :
    (evt_no cb : ℕ) (ls : List ClEvtLsnr)
    → has_lsnr evt_no cb (ls ++ record { no = evt_no; cb = cb } ∷ []) ≡ true
unfolding has_lsnr
has_lsnr-new evt_no cb [] = let k = same_lsnr evt_no cb in rw k refl
has_lsnr-new evt_no cb (l ∷ ls) = elim (Bool-cases (is_lsnr evt_no cb l)) [
  | inl same ↦ rw same refl
  | inr other ↦ rw other (has_lsnr-new evt_no cb ls)
]

-- a listener for the event with the callback is among them
abbrev pub Subscribed : (evt_no cb : ℕ) → List ClEvtLsnr → Type 0
Subscribed evt_no cb [] = ⊥
Subscribed evt_no cb (l ∷ ls) = ((l.no ≡ evt_no) × (l.cb ≡ cb)) ⊎ Subscribed evt_no cb ls

-- no event has the same callback twice
abbrev pub NoneTwice : List ClEvtLsnr → Type 0
NoneTwice [] = Unit
NoneTwice (l ∷ ls) = (¬ Subscribed l.no l.cb ls) × NoneTwice ls

Subscribed-of_has_lsnr :
    (evt_no cb : ℕ) (ls : List ClEvtLsnr) → has_lsnr evt_no cb ls ≡ true → Subscribed evt_no cb ls
unfolding has_lsnr is_lsnr
Subscribed-of_has_lsnr evt_no cb [] h = absurd cc
Subscribed-of_has_lsnr evt_no cb (l ∷ ls) h = elim (Bool-cases (is_lsnr evt_no cb l)) [
  | inl same ↦ inl (ground (arith, same), ground (arith, same))
  | inr other ↦ inr (Subscribed-of_has_lsnr evt_no cb ls (ground (arith, other, h)))
]

not-Subscribed :
    (evt_no cb : ℕ) (ls : List ClEvtLsnr)
    → has_lsnr evt_no cb ls ≡ false
    → ¬ Subscribed evt_no cb ls
unfolding has_lsnr is_lsnr
not-Subscribed evt_no cb [] h s = s
not-Subscribed evt_no cb (l ∷ ls) h (inl (a, b)) = ground (arith, a, b, h)
not-Subscribed evt_no cb (l ∷ ls) h (inr s) =
    not-Subscribed evt_no cb ls
      (elim (Bool-cases (is_lsnr evt_no cb l)) [
        | inl same ↦ absurd (ground (arith, same, h))
        | inr other ↦ ground (arith, other, h)
      ])
      s

Subscribed-append :
    (evt_no cb : ℕ) (ls : List ClEvtLsnr) (l : ClEvtLsnr)
    → Subscribed evt_no cb (ls ++ l ∷ [])
    → Subscribed evt_no cb ls ⊎ ((l.no ≡ evt_no) × (l.cb ≡ cb))
Subscribed-append evt_no cb [] l (inl same) = inr same
Subscribed-append evt_no cb [] l (inr s) = absurd s
Subscribed-append evt_no cb (m ∷ ls) l (inl same) = inl (inl same)
Subscribed-append evt_no cb (m ∷ ls) l (inr s) = elim (Subscribed-append evt_no cb ls l s) [
  | inl old ↦ inl (inr old)
  | inr new ↦ inr new
]

NoneTwice-snoc :
    (l : ClEvtLsnr) (ls : List ClEvtLsnr)
    → NoneTwice ls
    → ¬ Subscribed l.no l.cb ls
    → NoneTwice (ls ++ l ∷ [])
NoneTwice-snoc l [] h new = ((λ s. s), tt)
NoneTwice-snoc l (m ∷ ls) h new = (
  (λ s. elim (Subscribed-append m.no m.cb ls l s) [
    | inl old ↦ h.0 old
    | inr (a, b) ↦ new (inl (sym a, sym b))
  ]),
  NoneTwice-snoc l ls h.1 (λ s. new (inr s)),
)

-- For a callback that is not null and listeners none of which is there twice, and with memory:
-- `cl_evt_sub` returns `SUCC`, and either the subscription was there and nothing changes, or it was not, and
-- its listener is put behind the others and nothing else changes; no listener is there twice then.
pub cl_evt_sub-NoneTwice :
    (evt_no callback : ℕ) (s : Evt)
    → NoneTwice s.li_lsnrs
    → callback ≢ 0
    → let t = record s { li_lsnrs = s.li_lsnrs ++ record { no = evt_no; cb = callback } ∷ [] } in
      NoneTwice ((cl_evt_sub true evt_no callback s).1.li_lsnrs)
      × ((Subscribed evt_no callback s.li_lsnrs × (cl_evt_sub true evt_no callback s ≡ (true, s)))
          ⊎ ((¬ Subscribed evt_no callback s.li_lsnrs)
              × (cl_evt_sub true evt_no callback s ≡ (true, t))))
unfolding cl_evt_sub
cl_evt_sub-NoneTwice evt_no callback s h set =
    let not_null : callback == 0 ≡ false = ground (arith, set) in
    elim (Bool-cases (has_lsnr evt_no callback s.li_lsnrs)) [
      | inl old ↦
          rw (not_null, old) (h, inl (Subscribed-of_has_lsnr evt_no callback s.li_lsnrs old, refl))
      | inr new ↦
          let other = not-Subscribed evt_no callback s.li_lsnrs new in
          rw (not_null, new)
            (
              NoneTwice-snoc (record { no = evt_no; cb = callback }) s.li_lsnrs h other,
              inr (other, refl),
            )
    ]

-- `cl_evt_unsub` undoes a `cl_evt_sub` with memory whose subscription was new, for a callback that is
-- not null.
cl_evt_unsub-sub :
    (evt_no callback : ℕ) (s : Evt)
    → callback ≢ 0
    → has_lsnr evt_no callback s.li_lsnrs ≡ false
    → cl_evt_unsub evt_no callback ((cl_evt_sub true evt_no callback s).1) ≡ (true, s)
unfolding cl_evt_sub cl_evt_unsub
cl_evt_unsub-sub evt_no callback s set new =
    let not_null : callback == 0 ≡ false = ground (arith, set) in
    rw not_null (
      rw new (
        rw (has_lsnr-new evt_no callback s.li_lsnrs) (
          ap (λ ls. (true, record s { li_lsnrs = ls }))
            (del_lsnr-append evt_no callback s.li_lsnrs new))))

-- Without memory `cl_evt_sub` returns `SUCC` for a callback that is not null, and changes nothing.
cl_evt_sub_no_memory :
    (evt_no callback : ℕ) (s : Evt) → callback ≢ 0 → cl_evt_sub false evt_no callback s ≡ (true, s)
unfolding cl_evt_sub
cl_evt_sub_no_memory evt_no callback s set =
    let not_null : callback == 0 ≡ false = ground (arith, set) in
    elim (Bool-cases (has_lsnr evt_no callback s.li_lsnrs)) [
      | inl old ↦ rw not_null (rw old refl)
      | inr new ↦ rw not_null (rw new refl)
    ]

-- the listener is taken out of a list that has it
record Removed (evt_no cb : ℕ) (ls : List ClEvtLsnr) : Type 0 where
  front : List ClEvtLsnr
  back : List ClEvtLsnr
  whole : ls ≡ front ++ record { no = evt_no; cb = cb } ∷ back
  rest : del_lsnr evt_no cb ls ≡ front ++ back
  gone : ¬ Subscribed evt_no cb (front ++ back)

del_lsnr-Removed :
    (evt_no cb : ℕ) (ls : List ClEvtLsnr)
    → NoneTwice ls
    → has_lsnr evt_no cb ls ≡ true
    → Removed evt_no cb ls
unfolding has_lsnr del_lsnr is_lsnr
del_lsnr-Removed evt_no cb [] h e = absurd cc
del_lsnr-Removed evt_no cb (l ∷ ls) h e = elim (Bool-cases (is_lsnr evt_no cb l)) [
  | inl same ↦
      let a : l.no ≡ evt_no = ground (arith, same) in
      let b : l.cb ≡ cb = ground (arith, same) in
      record {
        front = [];
        back = ls;
        whole = rw (sym a) (rw (sym b) refl);
        rest = rw same refl;
        gone = rw (sym a) (rw (sym b) h.0);
      }
  | inr other ↦
      let r = del_lsnr-Removed evt_no cb ls h.1 (ground (arith, other, e)) in
      record {
        front = l ∷ r.front;
        back = r.back;
        whole = ap (◌∷◌ l) r.whole;
        rest = rw other (ap (◌∷◌ l) r.rest);
        gone = λ s. elim s [ inl (a, b) ↦ ground (arith, a, b, other) | inr t ↦ r.gone t ];
      }
]

-- For a callback that is not null and listeners none of which is there twice: either `cl_evt_unsub` takes
-- out the listener of the event and the callback, changes nothing else, leaves no subscription of the two,
-- and returns `SUCC`; or there was no such subscription, nothing changes, and it returns `FAIL`.
pub cl_evt_unsub-NoneTwice :
    (evt_no callback : ℕ) (s : Evt)
    → NoneTwice s.li_lsnrs
    → callback ≢ 0
    → ((front : List ClEvtLsnr) × (back : List ClEvtLsnr) × (s.li_lsnrs
          ≡ front ++ record { no = evt_no; cb = callback } ∷ back)
        × (cl_evt_unsub evt_no callback s ≡ (true, record s { li_lsnrs = front ++ back }))
        × (¬ Subscribed evt_no callback (front ++ back)))
      ⊎ ((¬ Subscribed evt_no callback s.li_lsnrs) × (cl_evt_unsub evt_no callback s ≡ (false, s)))
unfolding cl_evt_unsub
cl_evt_unsub-NoneTwice evt_no callback s h set =
    let not_null : callback == 0 ≡ false = ground (arith, set) in
    elim (Bool-cases (has_lsnr evt_no callback s.li_lsnrs)) [
      | inl old ↦
          let r = del_lsnr-Removed evt_no callback s.li_lsnrs h old in
          let same : cl_evt_unsub evt_no callback s
              ≡ (true, record s { li_lsnrs = r.front ++ r.back }) =
            rw (not_null, old) (ap (λ ls. (true, record s { li_lsnrs = ls })) r.rest) in
          inl (r.front, r.back, r.whole, same, r.gone)
      | inr new ↦ inr (not-Subscribed evt_no callback s.li_lsnrs new, rw (not_null, new) refl)
    ]
