-- ===== src/Alloc/View.antt =====
-- comm/alloc.c: the tracked allocations as a map from addresses to sizes, whatever the order of the list.
use libccll.Base.{
  ℕ, suc, ◌+◌, ◌-◌, length-append, ◌%◌, ◌^◌, ◌≡◌, ◌≢◌, refl, ap, ◌∙◌, Bool, true, false, Option,
  none, some, List, [], ◌∷◌, ◌++◌, ◌==◌, if◌then◌else◌, arith, Bytes, length, NotIn, Distinct,
  Bool-cases, inl, inr,
}
use libccll.Alloc.{
  Obj, Objs, cl_malloc, del_obj, cl_free, cl_allocing_cnt, sum_bytes, cl_allocing_bytes,
}
use libccll.Alloc.Track.{addrs, Distinct-snoc, Distinct-del}

-- the abstract state: the size that is allocated at an address
abbrev pub Map : Type 0
Map = ℕ → Option ℕ

abbrev pub put : ℕ → Option ℕ → Map → Map
put addr size m a = if a == addr then size else m a

-- the size of the object at an address
unfoldable pub size_at : List Obj → Map
size_at [] a = none
size_at (obj ∷ objs) a = if obj.addr == a then some obj.size else size_at objs a

-- The states that calls of `cl_malloc` and `cl_free` reach, each beside the map, the number of addresses and
-- the sum of sizes that they make of empty ones: `malloc` answers no address that is tracked.
pub data Reach : Objs → Map → (cnt bytes : ℕ) → Type 0 where
  start : Reach (record { li_objs = []; freed = [] }) (λ a. none) 0 0
  allocate :
      {s : Objs} {m : Map} {cnt bytes : ℕ} (addr tick : ℕ) (fun : Bytes) (line_no : ℕ) (tag : Bytes)
      (size : ℕ)
      → Reach s m cnt bytes
      → m addr ≡ none
      → Reach
          ((cl_malloc (some addr) true tick fun line_no tag size s).1)
          (put addr (some size) m)
          (cnt + 1)
          (bytes + size)
  no_object :
      {s : Objs} {m : Map} {cnt bytes : ℕ} (addr tick : ℕ) (fun : Bytes) (line_no : ℕ) (tag : Bytes)
      (size : ℕ)
      → Reach s m cnt bytes
      → Reach ((cl_malloc (some addr) false tick fun line_no tag size s).1) m cnt bytes
  no_memory :
      {s : Objs} {m : Map} {cnt bytes : ℕ} (obj : Bool) (tick : ℕ) (fun : Bytes) (line_no : ℕ)
      (tag : Bytes) (size : ℕ)
      → Reach s m cnt bytes
      → Reach ((cl_malloc none obj tick fun line_no tag size s).1) m cnt bytes
  release :
      {s : Objs} {m : Map} {cnt bytes : ℕ} (ptr size : ℕ)
      → Reach s m cnt bytes
      → ptr ≢ 0
      → m ptr ≡ some size
      → Reach (cl_free ptr s) (put ptr none m) (cnt - 1) (bytes - size)
  release_other :
      {s : Objs} {m : Map} {cnt bytes : ℕ} (ptr : ℕ)
      → Reach s m cnt bytes
      → m ptr ≡ none
      → Reach (cl_free ptr s) m cnt bytes

size_at-snoc :
    (objs : List Obj) (obj : Obj) (a : ℕ)
    → size_at objs obj.addr ≡ none
    → size_at (objs ++ obj ∷ []) a ≡ put obj.addr (some obj.size) (size_at objs) a
unfolding size_at
size_at-snoc [] obj a fresh = ground arith
size_at-snoc (o ∷ objs) obj a fresh =
    ground (arith, fresh, size_at-snoc objs obj a (ground (arith, fresh)))

NotIn-of_size_at : (objs : List Obj) (a : ℕ) → size_at objs a ≡ none → NotIn a (addrs objs)
unfolding size_at
NotIn-of_size_at [] a e = tt
NotIn-of_size_at (o ∷ objs) a e = elim (Bool-cases (o.addr == a)) [
  | inl same ↦ absurd (ground (arith, same, e))
  | inr other ↦
      ((λ k. ground (arith, k, other)), NotIn-of_size_at objs a (ground (arith, other, e)))
]

size_at-NotIn : (objs : List Obj) (a : ℕ) → NotIn a (addrs objs) → size_at objs a ≡ none
unfolding size_at
size_at-NotIn [] a out = refl
size_at-NotIn (o ∷ objs) a out = ground (arith, out.0, size_at-NotIn objs a out.1)

size_at-del_obj :
    (objs : List Obj) (ptr a : ℕ)
    → Distinct (addrs objs)
    → size_at (del_obj ptr objs) a ≡ put ptr none (size_at objs) a
unfolding size_at del_obj
size_at-del_obj [] ptr a h = ground arith
size_at-del_obj (o ∷ objs) ptr a h = elim (Bool-cases (o.addr == ptr)) [
  | inl same ↦ ground (arith, same, size_at-NotIn objs o.addr h.0)
  | inr other ↦ ground (arith, other, size_at-del_obj objs ptr a h.1)
]

-- the sizes of all objects
unfoldable pub total : List Obj → ℕ
total [] = 0
total (obj ∷ objs) = obj.size + total objs

sum_bytes-total :
    (bytes : ℕ) (objs : List Obj) → sum_bytes (bytes % 2 ^ 64) objs ≡ (bytes + total objs) % 2 ^ 64
unfolding sum_bytes total
sum_bytes-total bytes [] = omega arith
sum_bytes-total bytes (obj ∷ objs) = sum_bytes-total (bytes % 2 ^ 64 + obj.size) objs ∙ omega arith

del_obj-total :
    (objs : List Obj) (a n : ℕ)
    → size_at objs a ≡ some n
    → (total objs ≡ n + total (del_obj a objs)) × (length objs ≡ suc (length (del_obj a objs)))
unfolding size_at total del_obj
del_obj-total [] a n e = cc
del_obj-total (o ∷ objs) a n e = elim (Bool-cases (o.addr == a)) [
  | inl same ↦ ground (arith, same, e)
  | inr other ↦ ground (arith, other, e, del_obj-total objs a n (ground (arith, other, e)))
]

del_obj-none : (objs : List Obj) (a : ℕ) → size_at objs a ≡ none → del_obj a objs ≡ objs
unfolding size_at del_obj
del_obj-none [] a e = refl
del_obj-none (o ∷ objs) a e = elim (Bool-cases (o.addr == a)) [
  | inl same ↦ absurd (ground (arith, same, e))
  | inr other ↦ rw other (ap (◌∷◌ o) (del_obj-none objs a (ground (arith, other, e))))
]

total-snoc : (objs : List Obj) (obj : Obj) → total (objs ++ obj ∷ []) ≡ total objs + obj.size
unfolding total
total-snoc [] obj = omega arith
total-snoc (o ∷ objs) obj = omega (arith, total-snoc objs obj)

-- the list has no address twice, and its map, length and total are the abstract ones
pub record Views (s : Objs) (m : Map) (cnt bytes : ℕ) : Type 0 where
  pub distinct : Distinct (addrs s.li_objs)
  pub viewed : (a : ℕ) → size_at s.li_objs a ≡ m a
  pub counted : length s.li_objs ≡ cnt
  pub summed : total s.li_objs ≡ bytes

Reach-Views : {s : Objs} {m : Map} {cnt bytes : ℕ} → Reach s m cnt bytes → Views s m cnt bytes
unfolding cl_malloc cl_free size_at total
Reach-Views start = record { distinct = tt; viewed = λ a. refl; counted = refl; summed = refl }
Reach-Views (allocate {s} {m} addr tick fun line_no tag size r fresh) =
    let v = Reach-Views r in
    let unused : size_at s.li_objs addr ≡ none = v.viewed addr ∙ fresh in
    record {
      distinct = Distinct-snoc s.li_objs _ v.distinct (NotIn-of_size_at s.li_objs addr unused);
      viewed = λ a.
          size_at-snoc s.li_objs _ a unused
          ∙ ap (λ z. if a == addr then some size else z) (v.viewed a);
      counted = length-append s.li_objs _ ∙ ap (λ n. n + 1) v.counted;
      summed = total-snoc s.li_objs _ ∙ ap (λ n. n + size) v.summed;
    }
Reach-Views (no_object addr tick fun line_no tag size r) =
    let v = Reach-Views r in
    record { distinct = v.distinct; viewed = v.viewed; counted = v.counted; summed = v.summed }
Reach-Views (no_memory obj tick fun line_no tag size r) = Reach-Views r
Reach-Views (release {s} ptr size r set found) =
    let v = Reach-Views r in
    let not_null : ptr == 0 ≡ false = ground (arith, set) in
    let (sizes, count) = del_obj-total s.li_objs ptr size (v.viewed ptr ∙ found) in
    rw not_null (record {
      distinct = Distinct-del ptr s.li_objs v.distinct;
      viewed = λ a.
          size_at-del_obj s.li_objs ptr a v.distinct
          ∙ ap (λ z. if a == ptr then none else z) (v.viewed a);
      counted = omega (arith, count, v.counted);
      summed = omega (arith, sizes, v.summed);
    })
Reach-Views (release_other {s} ptr r missing) =
    let v = Reach-Views r in
    let same : del_obj ptr s.li_objs ≡ s.li_objs =
      del_obj-none s.li_objs ptr (v.viewed ptr ∙ missing) in
    elim (Bool-cases (ptr == 0)) [
      | inl null ↦ rw null v
      | inr set ↦
          rw (set, same)
            (record {
              distinct = v.distinct;
              viewed = v.viewed;
              counted = v.counted;
              summed = v.summed;
            })
    ]

zero_plus : (bytes : ℕ) → (0 + bytes) % 2 ^ 64 ≡ bytes % 2 ^ 64
zero_plus bytes = omega arith

-- In every state that calls of `cl_malloc` and `cl_free` reach, on a `malloc` that answers no address that
-- is tracked: the object at an address is what the calls make of a map from addresses to sizes, and
-- `cl_allocing_cnt` and `cl_allocing_bytes` are the number and the sum that the calls make, within 32 and
-- 64 bits.
pub Reach-view :
    (s : Objs) (m : Map) (cnt bytes : ℕ)
    → Reach s m cnt bytes
    → ((a : ℕ) → size_at s.li_objs a ≡ m a)
      × (cl_allocing_cnt s ≡ cnt % 2 ^ 32)
      × (cl_allocing_bytes s ≡ bytes % 2 ^ 64)
unfolding cl_allocing_cnt cl_allocing_bytes
Reach-view s m cnt bytes r =
    let v = Reach-Views r in
    (
      v.viewed,
      ap (λ n. n % 2 ^ 32) v.counted,
      sum_bytes-total 0 s.li_objs ∙ ap (λ n. (0 + n) % 2 ^ 64) v.summed ∙ zero_plus bytes,
    )
