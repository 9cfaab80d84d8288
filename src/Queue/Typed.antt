-- ===== src/Queue/Typed.antt =====
-- queue/inc/list.h and comm/inc/def.h: the walks over the structures that hold the nodes. A structure is its
-- address, and `off` is the offset of its member, for 64-bit addresses.
pub mod Walks
use libccll.Base.{
  ℕ, zero, suc, ◌+◌, ◌-◌, ◌%◌, ◌^◌, ◌<◌, ◌≡◌, refl, sym, ap, ◌∙◌, Option, none, some, List, [], ◌∷◌,
  map, ◌==◌, if◌then◌else◌, arith, length, true, false,
}
use libccll.Queue.{Ptr, Links, list_del}

-- `container_of`
unfoldable pub container_of : (off : ℕ) → Ptr → ℕ
container_of off ptr = (ptr + 2 ^ 64 - off) % 2 ^ 64

-- `&pos->member`
unfoldable pub member : (off : ℕ) → ℕ → Ptr
member off pos = (pos + off) % 2 ^ 64

-- the loop of `list_for_each2`, on fuel: the structures that it visits
unfoldable pub for_each2 : ℕ → (off : ℕ) → (head : Ptr) → (pos : ℕ) → Links → Option (List ℕ)
for_each2 zero off head pos h = none
for_each2 (suc fuel) off head pos h =
    let rest : Option (List ℕ) =
      elim (for_each2 fuel off head (container_of off (h.next (member off pos))) h) [
        | none ↦ none
        | some ps ↦ some (pos ∷ ps)
      ] in
    if member off pos == head then some [] else rest

unfoldable pub list_for_each2 : (fuel off : ℕ) → (head : Ptr) → Links → Option (List ℕ)
list_for_each2 fuel off head h = for_each2 fuel off head (container_of off (h.next head)) h

-- `list_pop2`: it takes the node of the field `list`, at `list`, whatever `member` is
unfoldable pub list_pop2 : (list off : ℕ) → (node : ℕ) → Links → ℕ × Links
list_pop2 list off node h =
    (container_of off (h.prev (member list node)), list_del (member list node) h)

-- the loop of `list_for_each2` whose body is a `list_pop2`: the structures that are popped
unfoldable pub pop_loop2 :
    ℕ → (list off : ℕ) → (head : Ptr) → (pos : ℕ) → Links → Option (List ℕ × Links)
pop_loop2 zero list off head pos h = none
pop_loop2 (suc fuel) list off head pos h =
    let (back, h1) = list_pop2 list off pos h in
    let rest : Option (List ℕ × Links) =
      elim (pop_loop2 fuel list off head (container_of off (h1.next (member off back))) h1) [
        | none ↦ none
        | some (ps, h2) ↦ some (pos ∷ ps, h2)
      ] in
    if member off pos == head then some ([], h) else rest

unfoldable pub pop_each2 : (fuel list off : ℕ) → (head : Ptr) → Links → Option (List ℕ × Links)
pop_each2 fuel list off head h = pop_loop2 fuel list off head (container_of off (h.next head)) h
