-- ===== src/ThrdPool/Post.antt =====
-- sys/thrdpool.c: the thread that `cl_trpo_post` selects.
use libccll.Base.{
  NotIn, length, true, false, ℕ, zero, suc, ◌+◌, ◌≤◌, ◌<◌, ◌≡◌, ◌⊎◌, refl, sym, ap, ◌∙◌, Option,
  none, some, List, [], ◌∷◌, ◌++◌, map, ltb, ◌==◌, arith, get_elem?, Bool-cases, inl, inr,
}
use libccll.ThrdPool.Create.{ids}
use libccll.ThrdPool.{
  push, Pool, posted, post_in, cl_trpo_post, is_using, WorkFun, PolThrd, select, queue_size,
  push_at, post_to,
}

-- every number in the list is at least `min`
abbrev pub AtLeast : ℕ → List ℕ → Type 0
AtLeast min [] = Unit
AtLeast min (sz ∷ szs) = (min ≤ sz) × AtLeast min szs

AtLeast-zero : (szs : List ℕ) → AtLeast 0 szs
AtLeast-zero [] = tt
AtLeast-zero (sz ∷ szs) = (omega arith, AtLeast-zero szs)

AtLeast-le : (a b : ℕ) (szs : List ℕ) → a ≤ b → AtLeast b szs → AtLeast a szs
AtLeast-le a b [] le h = tt
AtLeast-le a b (sz ∷ szs) le h = (omega (arith, h.0), AtLeast-le a b szs le h.1)

-- the smallest number is at the place that was selected, and is less than `min`
pub record Smallest (min : ℕ) (szs : List ℕ) (k : ℕ) : Type 0 where
  pub sz : ℕ
  pub at : get_elem? szs k ≡ some sz
  pub least : AtLeast sz szs
  pub fewer : sz < min

select_lem :
    (i min : ℕ) (pt : Option ℕ) (szs : List ℕ)
    → 0 < min
    → ((select i min pt szs ≡ pt) × AtLeast min szs)
      ⊎ ((k : ℕ) × (select i min pt szs ≡ some (i + k)) × Smallest min szs k)
unfolding select
select_lem i min pt [] pos = inl (refl, tt)
select_lem i min pt (sz ∷ szs) pos = elim (Bool-cases (sz == 0)) [
  | inl zero_sz ↦
      let e : 0 ≡ sz = ground (arith, zero_sz) in
      let here : i ≡ i + 0 = omega arith in
      inr (
        0,
        rw zero_sz (ap some here),
        record {
          sz = 0;
          at = ap some (sym e);
          least = (omega arith, AtLeast-zero szs);
          fewer = pos;
        },
      )
  | inr some_work ↦ elim (Bool-cases (ltb sz min)) [
    | inl fewer ↦ elim (select_lem (i + 1) sz (some i) szs (ground (arith, some_work))) [
      | inl (e, least) ↦
          let here : i ≡ i + 0 = omega arith in
          inr (
            0,
            rw some_work (rw fewer (e ∙ ap some here)),
            record {
              sz = sz;
              at = refl;
              least = (omega arith, least);
              fewer = ground (arith, fewer);
            },
          )
      | inr (k, e, s) ↦
          let there : i + 1 + k ≡ i + suc k = omega arith in
          inr (
            suc k,
            rw some_work (rw fewer (e ∙ ap some there)),
            record {
              sz = s.sz;
              at = s.at;
              least = (omega (arith, s.fewer), s.least);
              fewer = ground (arith, fewer, s.fewer);
            },
          )
    ]
    | inr more ↦ elim (select_lem (i + 1) min pt szs pos) [
      | inl (e, least) ↦ inl (rw some_work (rw more e), (ground (arith, more), least))
      | inr (k, e, s) ↦
          let there : i + 1 + k ≡ i + suc k = omega arith in
          inr (
            suc k,
            rw some_work (rw more (e ∙ ap some there)),
            record {
              sz = s.sz;
              at = s.at;
              least = (ground (arith, more, s.fewer), s.least);
              fewer = s.fewer;
            },
          )
    ]
  ]
]

too_many :
    (szs : List ℕ) (j sz : ℕ) → get_elem? szs j ≡ some sz → sz < 10000 → AtLeast 10000 szs → ⊥
too_many [] j sz at few all = cc
too_many (s ∷ szs) zero sz at few all = ground (arith, at, few, all.0)
too_many (s ∷ szs) (suc j) sz at few all = too_many szs j sz at few all.1

is_using-NotIn : (id : ℕ) (pools : List Pool) → NotIn id (ids pools) → is_using id pools ≡ false
unfolding is_using
is_using-NotIn id [] out = refl
is_using-NotIn id (p ∷ pools) out =
    let other : (p.id == id) ≡ false = ground (arith, out.0) in
    rw other (is_using-NotIn id pools out.1)

post_in-found :
    (id : ℕ) (wf : WorkFun) (before : List Pool) (pool : Pool) (behind : List Pool)
    (pts : List PolThrd)
    → is_using id before ≡ false
    → pool.id ≡ id
    → post_to wf pool.pts ≡ some pts
    → post_in id wf (before ++ pool ∷ behind)
      ≡ posted (before ++ record pool { pts = pts } ∷ behind)
unfolding post_in is_using
post_in-found id wf [] pool behind pts new found e =
    let same : (pool.id == id) ≡ true = ground (arith, found) in rw same (rw e refl)
post_in-found id wf (p ∷ before) pool behind pts new found e =
    let other : (p.id == id) ≡ false = ground (arith, new) in
    let rest = post_in-found id wf before pool behind pts (ground (arith, new)) found e in
    rw other (rw rest refl)

post_to-Smallest :
    (wf : WorkFun) (pts : List PolThrd) (j sz : ℕ)
    → get_elem? (map queue_size pts) j ≡ some sz
    → sz < 10000
    → (k : ℕ) × (post_to wf pts ≡ some (push_at k wf pts)) × Smallest 10000 (map queue_size pts) k
unfolding post_to
post_to-Smallest wf pts j sz at few =
    elim (select_lem 0 10000 none (map queue_size pts) (omega arith)) [
      | inl (e, all) ↦ absurd (too_many (map queue_size pts) j sz at few all)
      | inr (k, e, s) ↦
          let here : 0 + k ≡ k = omega arith in
          (k, rw (e, post_to) (ap (λ i. some (push_at i wf pts)) here), s)
    ]

-- every thread has `n` works in its queue at least
abbrev pub NoneShorter : ℕ → List PolThrd → Type 0
NoneShorter n [] = Unit
NoneShorter n (pt ∷ pts) = (n ≤ length pt.wkfn_list) × NoneShorter n pts

NoneShorter-of_AtLeast :
    (n : ℕ) (pts : List PolThrd) → AtLeast n (map queue_size pts) → NoneShorter n pts
NoneShorter-of_AtLeast n [] h = tt
NoneShorter-of_AtLeast n (pt ∷ pts) h = (h.0, NoneShorter-of_AtLeast n pts h.1)

-- the thread with one more work at the end of its queue, and one more count
abbrev pub with_work : WorkFun → PolThrd → PolThrd
with_work wf pt = record { smp = suc pt.smp; exit = pt.exit; wkfn_list = pt.wkfn_list ++ wf ∷ [] }

with_work-push : (wf : WorkFun) (pt : PolThrd) → push wf pt ≡ with_work wf pt
with_work-push wf pt = ground arith

-- the thread at a place
record PushedAt (k sz : ℕ) (wf : WorkFun) (pts : List PolThrd) : Type 0 where
  front : List PolThrd
  pt : PolThrd
  back : List PolThrd
  whole : pts ≡ front ++ pt ∷ back
  size : length pt.wkfn_list ≡ sz
  result : push_at k wf pts ≡ front ++ with_work wf pt ∷ back

push_at-PushedAt :
    (k sz : ℕ) (wf : WorkFun) (pts : List PolThrd)
    → get_elem? (map queue_size pts) k ≡ some sz
    → PushedAt k sz wf pts
unfolding push_at
push_at-PushedAt k sz wf [] at = absurd cc
push_at-PushedAt zero sz wf (pt ∷ pts) at = record {
  front = [];
  pt = pt;
  back = pts;
  whole = refl;
  size = cc;
  result = ap (λ x. x ∷ pts) (with_work-push wf pt);
}
push_at-PushedAt (suc k) sz wf (pt ∷ pts) at =
    let a = push_at-PushedAt k sz wf pts at in
    record {
      front = pt ∷ a.front;
      pt = a.pt;
      back = a.back;
      whole = ap (◌∷◌ pt) a.whole;
      size = a.size;
      result = ap (◌∷◌ pt) a.result;
    }

get_elem?-size :
    (pts : List PolThrd) (j : ℕ) (pt : PolThrd)
    → get_elem? pts j ≡ some pt
    → get_elem? (map queue_size pts) j ≡ some (length pt.wkfn_list)
get_elem?-size [] j pt at = absurd cc
get_elem?-size (x ∷ pts) zero pt at =
    let same : x ≡ pt = cc in ap (λ y. some (length y.wkfn_list)) same
get_elem?-size (x ∷ pts) (suc j) pt at = get_elem?-size pts j pt at

-- In the first pool with the identifier, `cl_trpo_post` puts the work behind the queue of one thread and
-- counts its semaphore up, and no thread of the pool has a shorter queue; the other threads and pools stay
-- as they are. If some queue of the pool holds fewer than 10000, and between the init and the deinit.
pub cl_trpo_post-shortest :
    (id : ℕ) (wf : WorkFun) (before : List Pool) (pool : Pool) (behind : List Pool) (j : ℕ)
    (some_pt : PolThrd)
    → NotIn id (ids before)
    → pool.id ≡ id
    → get_elem? pool.pts j ≡ some some_pt
    → length some_pt.wkfn_list < 10000
    → (front : List PolThrd) × (pt : PolThrd) × (back : List PolThrd) × (pool.pts
        ≡ front ++ pt ∷ back)
      × NoneShorter (length pt.wkfn_list) pool.pts
      × (cl_trpo_post true id wf (before ++ pool ∷ behind)
          ≡ posted (before ++ record pool { pts = front ++ with_work wf pt ∷ back } ∷ behind))
unfolding cl_trpo_post
cl_trpo_post-shortest id wf before pool behind j some_pt new found at few =
    let (k, e, s) =
      post_to-Smallest wf pool.pts j (length some_pt.wkfn_list)
        (get_elem?-size pool.pts j some_pt at) few in
    let a = push_at-PushedAt k s.sz wf pool.pts s.at in
    (
      a.front,
      a.pt,
      a.back,
      a.whole,
      rw a.size (NoneShorter-of_AtLeast s.sz pool.pts s.least),
      post_in-found id wf before pool behind (push_at k wf pool.pts) (is_using-NotIn id before new)
            found e
          ∙ ap (λ pts. posted (before ++ record pool { pts = pts } ∷ behind)) a.result,
    )
