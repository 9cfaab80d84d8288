-- ===== src/Queue/Tests.antt =====
-- A head at address 1, and nodes at 2 and 3.
use libccll.Base.{◌≡◌, refl, some, [], ◌∷◌, arith}
use libccll.Queue.{
  Links, null, set_next, set_prev, init_list_node, link_between, list_add, list_add_head, list_del,
  list_for_each, pop_each,
}
use libccll.Queue.Ring.{IsRing}
use libccll.Queue.Update.{list_add-IsRing}
use libccll.Queue.Delete.{list_del-IsRing}
use libccll.Queue.Typed.{container_of, member, list_for_each2, list_pop2, pop_each2}
use libccll.Queue.Typed.Walks.{each2-IsRing}
use libccll.Queue.Drain.{pop_each-IsRing}

abbrev blank : Links
blank = record { next = λ p. 0; prev = λ p. 0 }

-- `CRE_LIST_HEAD`, and two nodes at its end
two : Links
unfolding init_list_node link_between list_add set_next set_prev
two = list_add 3 1 (list_add 2 1 (init_list_node 1 blank))

visits : list_for_each 5 1 two ≡ some (2 ∷ 3 ∷ [])
unfolding two list_for_each
visits = refl

two-IsRing : IsRing two 1 (2 ∷ 3 ∷ [])
unfolding two
two-IsRing = record {
  chain = ((refl, refl), ((refl, refl), (refl, refl)));
  distinct = ((omega arith, (omega arith, tt)), ((omega arith, tt), (tt, tt)));
  valid = (omega arith, (omega arith, (omega arith, tt)));
}

list_add-IsRing_example :
    IsRing (list_add 4 1 two) 1 (2 ∷ 3 ∷ 4 ∷ []) × IsRing (list_add_head 4 1 two) 1 (4 ∷ 2 ∷ 3 ∷ [])
list_add-IsRing_example =
    list_add-IsRing 4 two-IsRing (omega arith) (omega arith, (omega arith, (omega arith, tt)))

list_del-IsRing_example :
    IsRing (list_del 2 two) 1 (3 ∷ [])
    × ((list_del 2 two).next 2 ≡ null)
    × ((list_del 2 two).prev 2 ≡ null)
list_del-IsRing_example = list_del-IsRing [] 2 (3 ∷ []) two-IsRing

pops : (h : Links) × (pop_each 3 1 two ≡ some (2 ∷ 3 ∷ [], h)) × IsRing h 1 []
pops = pop_each-IsRing 3 two 1 (2 ∷ 3 ∷ []) two-IsRing (omega arith)

-- in structures whose node stands behind 8 bytes: the head is in none, so that its address wraps
each2-IsRing_example :
    (list_for_each2 3 8 1 two ≡ some (container_of 8 2 ∷ container_of 8 3 ∷ []))
    × ((h : Links) × (pop_each2 3 8 8 1 two ≡ some (container_of 8 2 ∷ container_of 8 3 ∷ [], h))
        × IsRing h 1 [])
each2-IsRing_example =
    each2-IsRing 8 (omega arith) 1 3 two (2 ∷ 3 ∷ []) two-IsRing
      (omega arith, (omega arith, (omega arith, tt))) (omega arith)

-- A structure at 2 with `list` in front and another member behind 8 bytes: popped in a walk by that member,
-- it leaves the list of `list`.
wrong_member : (list_pop2 0 8 2 two).1.next 1 ≡ 3
unfolding list_pop2 member list_del set_next set_prev two
wrong_member = refl
