-- ===== src/Queue/Drain.antt =====
-- queue/inc/list.h: a walk that takes out every node.
use libccll.Base.{
  ℕ, zero, suc, ◌<◌, ◌≡◌, refl, true, false, some, List, [], ◌∷◌, ◌==◌, arith, length,
}
use libccll.Queue.{Ptr, Links, list_del, list_pop, pop_loop, pop_each}
use libccll.Queue.Ring.{IsRing, first_of, next-first_of}
use libccll.Queue.Delete.{list_del-IsRing}

pop_loop-IsRing :
    (fuel : ℕ) (h : Links) (head : Ptr) (xs : List Ptr)
    → IsRing h head xs
    → length xs < fuel
    → (h' : Links) × (pop_loop fuel head (first_of xs head) h ≡ some (xs, h')) × IsRing h' head []
unfolding pop_loop list_pop
pop_loop-IsRing zero h head xs r enough = absurd (omega (arith, enough))
pop_loop-IsRing (suc fuel) h head [] r enough =
    let done : (head == head) ≡ true = ground arith in (h, rw done refl, r)
pop_loop-IsRing (suc fuel) h head (x ∷ xs) r enough =
    let (ring, _, _) = list_del-IsRing [] x xs r in
    let (h', popped, empty) =
      pop_loop-IsRing fuel (list_del x h) head xs ring (omega (arith, enough)) in
    let on : (x == head) ≡ false = ground (arith, r.distinct.0.0) in
    let back : h.prev x ≡ head = r.chain.0.1 in
    (h', rw (on, back, next-first_of (list_del x h) head head xs ring.chain, popped) refl, empty)

-- On a well-formed list, the walk with `list_pop` in its body pops every node, in order, and leaves an empty
-- list that is well-formed, in one round more than there are nodes.
pub pop_each-IsRing :
    (fuel : ℕ) (h : Links) (head : Ptr) (xs : List Ptr)
    → IsRing h head xs
    → length xs < fuel
    → (h' : Links) × (pop_each fuel head h ≡ some (xs, h')) × IsRing h' head []
unfolding pop_each
pop_each-IsRing fuel h head xs r enough =
    let (h', popped, empty) = pop_loop-IsRing fuel h head xs r enough in
    (h', rw (next-first_of h head head xs r.chain) popped, empty)
