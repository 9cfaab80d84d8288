-- ===== src/Alloc.antt =====
-- comm/alloc.c: the allocations that the library keeps track of. The list `g_li_objs` is a sequence, an
-- address is a number, 0 being null, and what `malloc` answers is an argument.
pub mod Track
pub mod View
pub mod Stat
mod Tests
use libccll.Base.{
  ℕ, ◌+◌, ◌%◌, ◌^◌, Bool, true, false, Option, none, some, List, [], ◌∷◌, ◌++◌, ◌==◌, if◌then◌else◌,
  Bytes, length,
}

-- `Obj`
pub record Obj : Type 0 where
  pub fun : Bytes
  pub tag : Bytes
  pub line : ℕ
  pub tick : ℕ
  pub addr : ℕ
  pub size : ℕ

-- `g_li_objs`, and the addresses that callers got and that went to `free`, in order
pub record Objs : Type 0 where
  pub li_objs : List Obj
  pub freed : List ℕ

-- `cl_malloc`: `new_mem` is what the first `malloc` returns, `obj` whether the second one succeeds,
-- and the caller's strings fit their 24 bytes
unfoldable pub cl_malloc :
    (new_mem : Option ℕ)
    → (obj : Bool) → (tick : ℕ) → (fun : Bytes) → (line_no : ℕ) → (tag : Bytes)
    → (size_on_bytes : ℕ) → Objs
    → Option ℕ × Objs
cl_malloc none obj tick fun line_no tag size_on_bytes s = (none, s)
cl_malloc (some addr) false tick fun line_no tag size_on_bytes s =
    (none, record s { freed = s.freed ++ addr ∷ [] })
cl_malloc (some addr) true tick fun line_no tag size_on_bytes s = (
  some addr,
  record s {
    li_objs =
        s.li_objs
        ++ record {
          fun = fun;
          tag = tag;
          line = line_no;
          tick = tick;
          addr = addr;
          size = size_on_bytes;
        }
          ∷ [];
  },
)

-- the loop of `cl_free`: the list without the first object at the address
unfoldable pub del_obj : ℕ → List Obj → List Obj
del_obj ptr [] = []
del_obj ptr (obj ∷ objs) =
    let rest = del_obj ptr objs in if obj.addr == ptr then objs else obj ∷ rest

-- `cl_free`: the address goes to `free` also if it is not in the list
unfoldable pub cl_free : (ptr : ℕ) → Objs → Objs
cl_free ptr s =
    if ptr == 0 then s else record { li_objs = del_obj ptr s.li_objs; freed = s.freed ++ ptr ∷ [] }

-- `cl_allocing_cnt`
unfoldable pub cl_allocing_cnt : Objs → ℕ
cl_allocing_cnt s = length s.li_objs % 2 ^ 32

-- the loop of `cl_allocing_bytes`, in a `size_t`
unfoldable pub sum_bytes : ℕ → List Obj → ℕ
sum_bytes bytes [] = bytes
sum_bytes bytes (obj ∷ objs) = sum_bytes ((bytes + obj.size) % 2 ^ 64) objs

unfoldable pub cl_allocing_bytes : Objs → ℕ
cl_allocing_bytes s = sum_bytes 0 s.li_objs
