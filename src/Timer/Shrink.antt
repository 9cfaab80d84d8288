-- ===== src/Timer/Shrink.antt =====
-- The list of timers: a well-formed one has the server's node in front, at most a hundred timers
-- behind it, and no callback twice. What adding, removing and counting a timer keep of it.
use libccll.Base.{
  ℕ, ◌-◌, ◌≤◌, ◌≡◌, ◌≢◌, refl, sym, ap, ◌∙◌, true, false, ◌&&◌, ◌||◌, not, some, List, [], ◌∷◌,
  ◌++◌, ltb, ◌==◌, arith, length, NotIn, Distinct, length-append, Bool-cases, inl, inr,
  Option-cases,
}
use libccll.Timer.{Timer, drop_last, has_cb, take_cb, expire, split_fd}

-- the callbacks in the list
abbrev pub cbs : List Timer → List ℕ
cbs [] = []
cbs (t ∷ ts) = t.cb ∷ cbs ts

abbrev pub IsServed : List Timer → Type 0
IsServed [] = ⊥
IsServed (t ∷ ts) = t.srv ≡ true

pub record IsValid (ts : List Timer) : Type 0 where
  pub served : IsServed ts
  pub distinct : Distinct (cbs ts)
  pub bounded : length ts ≤ 101

pub drop_last-append : (ts : List Timer) (t : Timer) → drop_last (ts ++ t ∷ []) ≡ ts
unfolding drop_last
drop_last-append [] t = refl
drop_last-append (u ∷ []) t = refl
drop_last-append (u ∷ v ∷ ts) t = ap (◌∷◌ u) (drop_last-append (v ∷ ts) t)

pub NotIn-has_cb : (cb : ℕ) (ts : List Timer) → has_cb cb ts ≡ false → NotIn cb (cbs ts)
unfolding has_cb
NotIn-has_cb cb [] h = tt
NotIn-has_cb cb (t ∷ ts) h = (ground (arith, h), NotIn-has_cb cb ts (ground (arith, h)))

NotIn-enqueue :
    (j : ℕ) (ts : List Timer) (t : Timer)
    → NotIn j (cbs ts)
    → j ≢ t.cb
    → NotIn j (cbs (ts ++ t ∷ []))
NotIn-enqueue j [] t h ne = (ne, tt)
NotIn-enqueue j (u ∷ ts) t h ne = (h.0, NotIn-enqueue j ts t h.1 ne)

Distinct-enqueue :
    (ts : List Timer) (t : Timer)
    → Distinct (cbs ts)
    → NotIn t.cb (cbs ts)
    → Distinct (cbs (ts ++ t ∷ []))
Distinct-enqueue [] t h out = (tt, tt)
Distinct-enqueue (u ∷ ts) t h out =
    (NotIn-enqueue u.cb ts t h.0 (λ e. out.0 (sym e)), Distinct-enqueue ts t h.1 out.1)

IsServed-append : (ts us : List Timer) → IsServed ts → IsServed (ts ++ us)
IsServed-append [] us h = absurd h
IsServed-append (t ∷ ts) us h = h

pub IsValid-enqueue :
    (ts : List Timer) (t : Timer)
    → IsValid ts
    → NotIn t.cb (cbs ts)
    → length ts ≤ 100
    → IsValid (ts ++ t ∷ [])
IsValid-enqueue ts t h out le = record {
  served = IsServed-append ts (t ∷ []) h.served;
  distinct = Distinct-enqueue ts t h.distinct out;
  bounded = omega (arith, length-append ts (t ∷ []));
}

-- what a removal or the count of a timer keeps
pub record Shrinks (ts us : List Timer) : Type 0 where
  served : IsServed ts → IsServed us
  apart : (j : ℕ) → NotIn j (cbs ts) → NotIn j (cbs us)
  distinct : Distinct (cbs ts) → Distinct (cbs us)
  shorter : length us ≤ length ts

Shrinks-refl : (ts : List Timer) → Shrinks ts ts
Shrinks-refl ts = record {
  served = λ h. h;
  apart = λ j h. h;
  distinct = λ h. h;
  shorter = omega arith;
}

Shrinks-cons :
    (t u : Timer) (ts us : List Timer)
    → u.srv ≡ t.srv
    → u.cb ≡ t.cb
    → Shrinks ts us
    → Shrinks (t ∷ ts) (u ∷ us)
Shrinks-cons t u ts us same_srv same_cb h = record {
  served = λ srv. same_srv ∙ srv;
  apart = λ j out. ((λ e. out.0 (e ∙ same_cb)), h.apart j out.1);
  distinct = λ d. (rw same_cb (h.apart t.cb d.0), h.distinct d.1);
  shorter = omega (arith, h.shorter);
}

Shrinks-tail : (t : Timer) (ts : List Timer) → t.srv ≡ false → Shrinks (t ∷ ts) ts
Shrinks-tail t ts client = record {
  served = λ srv. absurd (cc);
  apart = λ j out. out.1;
  distinct = λ d. d.1;
  shorter = omega arith;
}

pub Shrinks-take_cb :
    (cb : ℕ) (ts : List Timer) (t : Timer) (us : List Timer)
    → take_cb cb ts ≡ some (t, us)
    → Shrinks ts us
unfolding take_cb
Shrinks-take_cb cb [] t us h = absurd cc
Shrinks-take_cb cb (u ∷ ts) t us h = elim (Bool-cases (not u.srv && u.cb == cb)) [
  | inl found ↦
      let e : ts ≡ us = ground (arith, found, h) in
      rw (sym e) (Shrinks-tail u ts (ground (arith, found)))
  | inr other ↦ elim (Option-cases (take_cb cb ts)) [
    | inl e ↦ absurd (ground (arith, other, e, h))
    | inr ((v, vs), e) ↦
        let k : u ∷ vs ≡ us = ground (arith, other, e, h) in
        rw (sym k) (Shrinks-cons u u ts vs refl refl (Shrinks-take_cb cb ts v vs e))
  ]
]

pub IsValid-Shrinks : (ts us : List Timer) → Shrinks ts us → IsValid ts → IsValid us
IsValid-Shrinks ts us k h = record {
  served = k.served h.served;
  distinct = k.distinct h.distinct;
  bounded = omega (arith, k.shorter, h.bounded);
}

pub Shrinks-expire :
    (before : List Timer) (t : Timer) (behind : List Timer)
    → t.srv ≡ false
    → Shrinks (before ++ t ∷ behind) (before ++ (expire t ++ behind))
unfolding expire
Shrinks-expire [] t behind client = elim (Bool-cases (ltb 1 t.repeats)) [
  | inl more ↦ rw more (
      Shrinks-cons t (record t { repeats = t.repeats - 1 }) behind behind refl refl
        (Shrinks-refl behind))
  | inr few ↦ elim (Bool-cases (t.repeats == 1)) [
    | inl once ↦ rw few (rw once (Shrinks-tail t behind client))
    | inr never ↦ rw few (rw never (Shrinks-refl (t ∷ behind)))
  ]
]
Shrinks-expire (u ∷ before) t behind client =
    Shrinks-cons u u _ _ refl refl (Shrinks-expire before t behind client)

pub split_fd_lem :
    (fd : ℕ) (ts before : List Timer) (t : Timer) (behind : List Timer)
    → split_fd fd ts ≡ some (before, t, behind)
    → (ts ≡ before ++ t ∷ behind) × (t.srv ≡ false) × (t.fd ≡ fd)
unfolding split_fd
split_fd_lem fd [] before t behind h = absurd cc
split_fd_lem fd (u ∷ ts) before t behind h = elim (Bool-cases (u.srv || not (u.fd == fd))) [
  | inl other ↦ elim (Option-cases (split_fd fd ts)) [
    | inl e ↦ absurd (ground (arith, other, e, h))
    | inr ((us, v, vs), e) ↦
        let (splits, client, same) = split_fd_lem fd ts us v vs e in
        let a : u ∷ us ≡ before = ground (arith, other, e, h) in
        let b : v ≡ t = ground (arith, other, e, h) in
        let c : vs ≡ behind = ground (arith, other, e, h) in (cc, cc, cc)
  ]
  | inr found ↦
      let a : [] ≡ before = ground (arith, found, h) in
      let b : u ≡ t = ground (arith, found, h) in
      let c : ts ≡ behind = ground (arith, found, h) in
      (rw (sym a) (cc), ground (arith, found, b), ground (arith, found, b))
]
