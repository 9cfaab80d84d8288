-- ===== src/Alloc/Track.antt =====
-- What is tracked between `cl_malloc` and `cl_free`.
use libccll.Base.{
  ℕ, ◌+◌, ◌%◌, ◌^◌, ◌≡◌, ◌≢◌, refl, sym, ap, true, false, some, List, [], ◌∷◌, ◌++◌, ◌==◌, arith,
  Bytes, length-append, NotIn, Distinct, Bool-cases, inl, inr,
}
use libccll.Alloc.{
  Obj, Objs, cl_malloc, del_obj, cl_free, cl_allocing_cnt, sum_bytes, cl_allocing_bytes,
}

-- the addresses in the list
abbrev pub addrs : List Obj → List ℕ
addrs [] = []
addrs (obj ∷ objs) = obj.addr ∷ addrs objs

NotIn-snoc :
    (j : ℕ) (objs : List Obj) (obj : Obj)
    → NotIn j (addrs objs)
    → j ≢ obj.addr
    → NotIn j (addrs (objs ++ obj ∷ []))
NotIn-snoc j [] obj out ne = (ne, tt)
NotIn-snoc j (o ∷ objs) obj out ne = (out.0, NotIn-snoc j objs obj out.1 ne)

pub Distinct-snoc :
    (objs : List Obj) (obj : Obj)
    → Distinct (addrs objs)
    → NotIn obj.addr (addrs objs)
    → Distinct (addrs (objs ++ obj ∷ []))
Distinct-snoc [] obj h out = (tt, tt)
Distinct-snoc (o ∷ objs) obj h out =
    (NotIn-snoc o.addr objs obj h.0 (λ e. out.0 (sym e)), Distinct-snoc objs obj h.1 out.1)

NotIn-del :
    (j ptr : ℕ) (objs : List Obj) → NotIn j (addrs objs) → NotIn j (addrs (del_obj ptr objs))
unfolding del_obj
NotIn-del j ptr [] out = tt
NotIn-del j ptr (o ∷ objs) out = elim (Bool-cases (o.addr == ptr)) [
  | inl same ↦ rw same out.1
  | inr other ↦ rw other (out.0, NotIn-del j ptr objs out.1)
]

pub Distinct-del :
    (ptr : ℕ) (objs : List Obj) → Distinct (addrs objs) → Distinct (addrs (del_obj ptr objs))
unfolding del_obj
Distinct-del ptr [] h = tt
Distinct-del ptr (o ∷ objs) h = elim (Bool-cases (o.addr == ptr)) [
  | inl same ↦ rw same h.1
  | inr other ↦ rw other (NotIn-del o.addr ptr objs h.0, Distinct-del ptr objs h.1)
]

gone : (ptr : ℕ) (objs : List Obj) → Distinct (addrs objs) → NotIn ptr (addrs (del_obj ptr objs))
unfolding del_obj
gone ptr [] h = tt
gone ptr (o ∷ objs) h = elim (Bool-cases (o.addr == ptr)) [
  | inl same ↦
      let e : o.addr ≡ ptr = ground (arith, same) in
      let k : NotIn ptr (addrs objs) = rw (sym e) h.0 in rw same k
  | inr other ↦ rw other ((λ e. ground (arith, other, e)), gone ptr objs h.1)
]

del_obj-snoc :
    (objs : List Obj) (obj : Obj)
    → NotIn obj.addr (addrs objs)
    → del_obj obj.addr (objs ++ obj ∷ []) ≡ objs
unfolding del_obj
del_obj-snoc [] obj out = let same : obj.addr == obj.addr ≡ true = ground arith in rw same refl
del_obj-snoc (o ∷ objs) obj out =
    let other : o.addr == obj.addr ≡ false = ground (arith, out.0) in
    rw other (ap (◌∷◌ o) (del_obj-snoc objs obj out.1))

sum_bytes-snoc :
    (bytes : ℕ) (objs : List Obj) (obj : Obj)
    → sum_bytes bytes (objs ++ obj ∷ []) ≡ (sum_bytes bytes objs + obj.size) % 2 ^ 64
unfolding sum_bytes
sum_bytes-snoc bytes [] obj = refl
sum_bytes-snoc bytes (o ∷ objs) obj = sum_bytes-snoc ((bytes + o.size) % 2 ^ 64) objs obj

-- A `cl_malloc` that succeeds, at an address that is not tracked, keeps the tracked addresses
-- distinct and adds one to the count and its size to the bytes, in 32 and 64 bits.
cl_malloc-counts :
    (addr tick line_no size : ℕ) (fun tag : Bytes) (s : Objs)
    → Distinct (addrs s.li_objs)
    → NotIn addr (addrs s.li_objs)
    → let s' = (cl_malloc (some addr) true tick fun line_no tag size s).1 in
      Distinct (addrs s'.li_objs)
      × (cl_allocing_cnt s' ≡ (cl_allocing_cnt s + 1) % 2 ^ 32)
      × (cl_allocing_bytes s' ≡ (cl_allocing_bytes s + size) % 2 ^ 64)
unfolding cl_malloc cl_allocing_cnt cl_allocing_bytes
cl_malloc-counts addr tick line_no size fun tag s h out = (
  Distinct-snoc s.li_objs _ h out,
  omega (
    arith,
    length-append s.li_objs (
        record { fun = fun; tag = tag; line = line_no; tick = tick; addr = addr; size = size }
        ∷ []),
  ),
  sum_bytes-snoc 0 s.li_objs _,
)

-- `cl_free` of an address that `cl_malloc` returned, not null and not tracked before, takes back the
-- allocation: the list is as it was, and the address went to `free` once.
cl_free-malloc :
    (addr tick line_no size : ℕ) (fun tag : Bytes) (s : Objs)
    → addr ≢ 0
    → NotIn addr (addrs s.li_objs)
    → cl_free addr ((cl_malloc (some addr) true tick fun line_no tag size s).1)
      ≡ record s { freed = s.freed ++ addr ∷ [] }
unfolding cl_free cl_malloc
cl_free-malloc addr tick line_no size fun tag s set out =
    let not_null : addr == 0 ≡ false = ground (arith, set) in
    rw not_null (
      ap (λ objs. record { li_objs = objs; freed = s.freed ++ addr ∷ [] })
        (del_obj-snoc s.li_objs _ out))

-- `cl_free` of any address that is not null keeps the tracked addresses distinct, and the address is
-- not among them behind it.
cl_free-Distinct :
    (ptr : ℕ) (s : Objs)
    → Distinct (addrs s.li_objs)
    → ptr ≢ 0
    → Distinct (addrs ((cl_free ptr s).li_objs)) × NotIn ptr (addrs ((cl_free ptr s).li_objs))
unfolding cl_free
cl_free-Distinct ptr s h set =
    let not_null : ptr == 0 ≡ false = ground (arith, set) in
    rw not_null (Distinct-del ptr s.li_objs h, gone ptr s.li_objs h)
