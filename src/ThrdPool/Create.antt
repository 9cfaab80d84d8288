-- ===== src/ThrdPool/Create.antt =====
-- The identifiers and the limits of the pools.
use libccll.Base.{
  ℕ, zero, suc, ◌+◌, ◌*◌, ◌≤◌, ◌<◌, ◌≡◌, ◌⊎◌, refl, sym, ap, ◌∙◌, Bool, true, false, ◌||◌, Option,
  none, some, List, [], ◌∷◌, ◌++◌, ltb, leb, ◌==◌, arith, Bool-cases, Option-cases, inl, inr, NotIn,
  Distinct, Distinct-snoc,
}
use libccll.ThrdPool.{
  Pool, max_thrd_cnt_cre, get_cur_thrd_cnt, is_using, id_loop, cre_pol_id, cre_thrds,
  cl_trpo_create,
}

-- the loop returns the first number from `i` on that no pool has
id_loop_lem :
    (n i : ℕ) (pools : List Pool) (id : ℕ)
    → id_loop n i pools ≡ some id
    → (is_using id pools ≡ false) × ((j : ℕ) → i ≤ j → j < id → is_using j pools ≡ true)
unfolding id_loop
id_loop_lem zero i pools id e = absurd cc
id_loop_lem (suc n) i pools id e = elim (Bool-cases (is_using i pools)) [
  | inr free ↦
      let k : i ≡ id = ground (arith, free, e) in
      (rw (sym k) free, λ j le lt. absurd (omega (arith, k)))
  | inl taken ↦
      let (free, before) = id_loop_lem n (i + 1) pools id (ground (arith, taken, e)) in
      (
        free,
        λ j le lt. elim (Bool-cases (j == i)) [
          | inl same ↦ let k : i ≡ j = ground (arith, same) in rw (sym k) taken
          | inr other ↦ before j (ground (arith, other, le)) lt
        ],
      )
]

abbrev pub ids : List Pool → List ℕ
ids [] = []
ids (pool ∷ pools) = pool.id ∷ ids pools

-- the identifiers differ, and the threads are no more than four for each processor
pub record IsPools (nprocs : ℕ) (pools : List Pool) : Type 0 where
  pub distinct : Distinct (ids pools)
  pub bounded : get_cur_thrd_cnt pools ≤ nprocs * 4

NotIn-is_using : (id : ℕ) (pools : List Pool) → is_using id pools ≡ false → NotIn id (ids pools)
unfolding is_using
NotIn-is_using id [] h = tt
NotIn-is_using id (pool ∷ pools) h =
    (ground (arith, h), NotIn-is_using id pools (ground (arith, h)))

ids-snoc : (pools : List Pool) (pool : Pool) → ids (pools ++ pool ∷ []) ≡ ids pools ++ pool.id ∷ []
ids-snoc [] pool = refl
ids-snoc (p ∷ pools) pool = ap (◌∷◌ p.id) (ids-snoc pools pool)

cnt-snoc :
    (pools : List Pool) (pool : Pool)
    → get_cur_thrd_cnt (pools ++ pool ∷ []) ≡ get_cur_thrd_cnt pools + pool.amt
unfolding get_cur_thrd_cnt
cnt-snoc [] pool = omega arith
cnt-snoc (p ∷ pools) pool = omega (arith, cnt-snoc pools pool)

-- what a call that succeeds has found
pub record Created (init : Bool) (nprocs amount : ℕ) (pools : List Pool) (id : ℕ) : Type 0 where
  pub inited : init ≡ true
  pub range : (1 ≤ amount) × (amount ≤ 256)
  pub room : get_cur_thrd_cnt pools + amount ≤ nprocs * 4
  pub found : cre_pol_id pools ≡ some id
  pub result :
      cl_trpo_create init nprocs amount pools
      ≡ (some id, pools ++ record { id = id; amt = amount; pts = cre_thrds amount } ∷ [])

pub create_cases :
    (init : Bool) (nprocs amount : ℕ) (pools : List Pool)
    → (cl_trpo_create init nprocs amount pools ≡ (none, pools))
      ⊎ ((id : ℕ) × Created init nprocs amount pools id)
unfolding cl_trpo_create
create_cases false nprocs amount pools = inl refl
create_cases true nprocs amount pools =
    elim (Bool-cases (ltb amount 1 || ltb max_thrd_cnt_cre amount)) [
      | inl out ↦ inl (rw out refl)
      | inr range ↦ elim (Bool-cases (leb (nprocs * 4) (get_cur_thrd_cnt pools))) [
        | inl full ↦ inl (rw range (rw full refl))
        | inr less ↦ elim (Bool-cases (ltb (nprocs * 4) (get_cur_thrd_cnt pools + amount))) [
          | inl many ↦ inl (rw range (rw less (rw many refl)))
          | inr room ↦ elim (Option-cases (cre_pol_id pools)) [
            | inl e ↦ inl (rw range (rw less (rw room (rw e refl))))
            | inr (id, e) ↦ inr (
              id,
              record {
                inited = refl;
                range = (ground (arith, range), ground (arith, range));
                room = ground (arith, room);
                found = e;
                result = rw range (rw less (rw room (rw e refl)));
              },
            )
          ]
        ]
      ]
    ]

-- `cl_trpo_create` keeps the identifiers distinct and the threads within four for each processor,
-- whether it succeeds or not.
pub cl_trpo_create-IsPools :
    (init : Bool) (nprocs amount : ℕ) (pools : List Pool)
    → IsPools nprocs pools
    → IsPools nprocs ((cl_trpo_create init nprocs amount pools).1)
cl_trpo_create-IsPools init nprocs amount pools h = elim (create_cases init nprocs amount pools) [
  | inl e ↦ rw e h
  | inr (id, c) ↦
      let pool : Pool = record { id = id; amt = amount; pts = cre_thrds amount } in
      let (free, before) = id_loop_lem 10000 0 pools id (unfold cre_pol_id in c.found) in
      let all_ids : Distinct (ids (pools ++ pool ∷ [])) =
        rw (ids-snoc pools pool)
          (Distinct-snoc (ids pools) id h.distinct (NotIn-is_using id pools free)) in
      let kept : IsPools nprocs (pools ++ pool ∷ []) = record {
        distinct = all_ids;
        bounded = omega (arith, cnt-snoc pools pool, c.room);
      } in
      rw c.result kept
]

none-ne-some : {n : ℕ} → ◌≡◌ {A = Option ℕ} none (some n) → ⊥
none-ne-some e = cc

-- A `cl_trpo_create` that succeeds was called after the init for 1 to 256 threads,
-- and returns the smallest identifier that no pool has.
cl_trpo_create_least :
    (init : Bool) (nprocs amount : ℕ) (pools : List Pool) (id : ℕ)
    → (cl_trpo_create init nprocs amount pools).0 ≡ some id
    → (init ≡ true)
      × ((1 ≤ amount) × (amount ≤ 256))
      × (is_using id pools ≡ false)
      × ((j : ℕ) → j < id → is_using j pools ≡ true)
cl_trpo_create_least init nprocs amount pools id e = elim (create_cases init nprocs amount pools) [
  | inl f ↦ absurd (none-ne-some (sym (ap (λ r. r.0) f) ∙ e))
  | inr (k, c) ↦
      let same : some k ≡ some id = sym (ap (λ r. r.0) c.result) ∙ e in
      let first : id_loop 10000 0 pools ≡ some k = unfold cre_pol_id in c.found in
      let found : id_loop 10000 0 pools ≡ some id = first ∙ same in
      let (free, before) = id_loop_lem 10000 0 pools id found in
      (c.inited, c.range, free, λ j lt. before j (omega arith) lt)
]
