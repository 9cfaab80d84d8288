-- ===== src/Queue.antt =====
-- queue/inc/list.h: the intrusive list, on a heap of nodes. A pointer is an address, and 0 is `NULL`.
pub mod Ring
pub mod Update
pub mod Delete
pub mod Drain
pub mod Typed
mod Tests
use libccll.Base.{
  ℕ, zero, suc, ◌+◌, Bool, true, false, ◌||◌, Option, none, some, ◌==◌, if◌then◌else◌, List, [],
  ◌∷◌,
}

abbrev pub Ptr : Type 0
Ptr = ℕ

abbrev pub null : Ptr
null = 0

-- the two fields of every `CLIST` in memory
pub record Links : Type 0 where
  pub next : Ptr → Ptr
  pub prev : Ptr → Ptr

unfoldable pub set_next : Ptr → Ptr → Links → Links
set_next p q h = record h { next = λ a. if a == p then q else h.next a }

unfoldable pub set_prev : Ptr → Ptr → Links → Links
set_prev p q h = record h { prev = λ a. if a == p then q else h.prev a }

unfoldable pub init_list_node : Ptr → Links → Links
unfolding set_next set_prev
init_list_node list h = if list == null then h else set_next list list (set_prev list list h)

-- `__list_add`
unfoldable pub link_between : (prev new next : Ptr) → Links → Links
unfolding set_next set_prev
link_between prev new next h =
    if (prev == null || new == null) || next == null
    then h
    else set_prev next new (set_next new next (set_prev new prev (set_next prev new h)))

unfoldable pub list_add_head : (new head : Ptr) → Links → Links
unfolding link_between
list_add_head new head h = link_between head new (h.next head) h

unfoldable pub list_add : (new head : Ptr) → Links → Links
unfolding link_between
list_add new head h = link_between (h.prev head) new head h

-- each assignment reads the fields that the one before it left
unfoldable pub list_del : Ptr → Links → Links
unfolding set_next set_prev
list_del node h =
    let h1 = set_next (h.prev node) (h.next node) h in
    let h2 = set_prev (h1.next node) (h1.prev node) h1 in
    if node == null then h else set_next node null (set_prev node null h2)

unfoldable pub list_empty : Ptr → Links → Bool
list_empty head h = if head == null then true else h.prev head == head

-- the loop of `list_size`, on fuel; `none` means that the fuel ran out
unfoldable pub size_loop : ℕ → (head a : Ptr) (cnt : ℕ) → Links → Option ℕ
size_loop zero head a cnt h = none
size_loop (suc fuel) head a cnt h =
    let b = h.next a in
    let rest = size_loop fuel head b (cnt + 1) h in
    if b == null || head == b then some cnt else rest

unfoldable pub list_size : (fuel : ℕ) → Ptr → Links → Option ℕ
list_size fuel head h = if head == null then some 0 else size_loop fuel head head 0 h

-- `list_for_each`: the nodes that the loop visits, on fuel
unfoldable pub for_each : ℕ → (head pos : Ptr) → Links → Option (List Ptr)
for_each zero head pos h = none
for_each (suc fuel) head pos h =
    let rest : Option (List Ptr) = elim (for_each fuel head (h.next pos) h) [
      | none ↦ none
      | some ps ↦ some (pos ∷ ps)
    ] in
    if pos == head then some [] else rest

unfoldable pub list_for_each : (fuel : ℕ) → Ptr → Links → Option (List Ptr)
unfolding for_each
list_for_each fuel head h = for_each fuel head (h.next head) h

-- `list_pop`: the node is unlinked, and the loop goes on from the one before it
unfoldable pub list_pop : (node : Ptr) → Links → Ptr × Links
list_pop node h = (h.prev node, list_del node h)

-- the loop of `list_for_each` whose body is a `list_pop`, on fuel: the nodes that are popped, in order
unfoldable pub pop_loop : ℕ → (head pos : Ptr) → Links → Option (List Ptr × Links)
pop_loop zero head pos h = none
pop_loop (suc fuel) head pos h =
    let (back, h1) = list_pop pos h in
    let rest : Option (List Ptr × Links) = elim (pop_loop fuel head (h1.next back) h1) [
      | none ↦ none
      | some (ps, h2) ↦ some (pos ∷ ps, h2)
    ] in
    if pos == head then some ([], h) else rest

unfoldable pub pop_each : (fuel : ℕ) → Ptr → Links → Option (List Ptr × Links)
pop_each fuel head h = pop_loop fuel head (h.next head) h
