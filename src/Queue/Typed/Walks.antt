-- ===== src/Queue/Typed/Walks.antt =====
-- queue/inc/list.h: a walk over the structures is the walk over their nodes.
use libccll.Base.{
  ℕ, zero, suc, ◌^◌, ◌<◌, ◌≡◌, refl, some, List, [], ◌∷◌, map, ◌==◌, arith, length, true, false,
  NotIn,
}
use libccll.Queue.{Ptr, Links, list_del}
use libccll.Queue.Ring.{IsRing, Chain, first_of, next-first_of}
use libccll.Queue.Delete.{list_del-IsRing}
use libccll.Queue.Typed.{
  container_of, member, for_each2, list_for_each2, list_pop2, pop_loop2, pop_each2,
}

-- addresses of 64 bits
abbrev pub AllAddresses : List Ptr → Type 0
AllAddresses [] = Unit
AllAddresses (p ∷ ps) = (p < 2 ^ 64) × AllAddresses ps

member-container_of : (off p : ℕ) → off < 2 ^ 64 → p < 2 ^ 64 → member off (container_of off p) ≡ p
unfolding member container_of
member-container_of off p ho hp = omega arith

first_of-address :
    (head : Ptr) (xs : List Ptr) → AllAddresses (head ∷ xs) → first_of xs head < 2 ^ 64
first_of-address head [] h = h.0
first_of-address head (x ∷ xs) h = h.1.0

module _ (off : ℕ) (offset : off < 2 ^ 64) (head : Ptr) where
  for_each2-Chain :
      (fuel : ℕ) (h : Links) (a : Ptr) (xs : List Ptr)
      → Chain h a xs head
      → NotIn head xs
      → AllAddresses (head ∷ xs)
      → length xs < fuel
      → for_each2 fuel off head (container_of off (first_of xs head)) h
        ≡ some (map (container_of off) xs)
  unfolding for_each2
  for_each2-Chain zero h a xs c out small enough = absurd (omega (arith, enough))
  for_each2-Chain (suc fuel) h a [] c out small enough =
      let done : (head == head) ≡ true = ground arith in
      rw (member-container_of off head offset small.0, done) refl
  for_each2-Chain (suc fuel) h a (x ∷ xs) c out small enough =
      let on : (x == head) ≡ false = ground (arith, out.0) in
      let later =
        for_each2-Chain fuel h x xs c.1 out.1 (small.0, small.1.1) (omega (arith, enough)) in
      rw (member-container_of off x offset small.1.0, on, next-first_of h x head xs c.1, later) refl

  pop_loop2-IsRing :
      (fuel : ℕ) (h : Links) (xs : List Ptr)
      → IsRing h head xs
      → AllAddresses (head ∷ xs)
      → length xs < fuel
      → (h' : Links) × (pop_loop2 fuel off off head (container_of off (first_of xs head)) h
          ≡ some (map (container_of off) xs, h'))
        × IsRing h' head []
  unfolding pop_loop2 list_pop2
  pop_loop2-IsRing zero h xs r small enough = absurd (omega (arith, enough))
  pop_loop2-IsRing (suc fuel) h [] r small enough =
      let done : (head == head) ≡ true = ground arith in
      (h, rw (member-container_of off head offset small.0, done) refl, r)
  pop_loop2-IsRing (suc fuel) h (x ∷ xs) r small enough =
      let (ring, _, _) = list_del-IsRing [] x xs r in
      let (h', popped, empty) =
        pop_loop2-IsRing fuel (list_del x h) xs ring (small.0, small.1.1) (omega (arith, enough)) in
      let on : (x == head) ≡ false = ground (arith, r.distinct.0.0) in
      let back : h.prev x ≡ head = r.chain.0.1 in
      (
        h',
        rw
            (
              member-container_of off x offset small.1.0,
              on,
              back,
              member-container_of off head offset small.0,
              next-first_of (list_del x h) head head xs ring.chain,
              popped,
            )
            refl,
        empty,
      )

  -- On a well-formed list of nodes at 64-bit addresses: `list_for_each2` visits the structures that hold the
  -- nodes, in order; and the walk with `list_pop2` in its body, on the field `list`, pops every one of them,
  -- in order, and leaves an empty list that is well-formed; both in one round more than there are nodes.
  pub each2-IsRing :
      (fuel : ℕ) (h : Links) (xs : List Ptr)
      → IsRing h head xs
      → AllAddresses (head ∷ xs)
      → length xs < fuel
      → (list_for_each2 fuel off head h ≡ some (map (container_of off) xs))
        × ((h' : Links) × (pop_each2 fuel off off head h ≡ some (map (container_of off) xs, h'))
            × IsRing h' head [])
  unfolding list_for_each2 pop_each2
  each2-IsRing fuel h xs r small enough =
      let first = next-first_of h head head xs r.chain in
      let (h', popped, empty) = pop_loop2-IsRing fuel h xs r small enough in
      (
        rw first (for_each2-Chain fuel h head xs r.chain r.distinct.0 small enough),
        (h', rw first popped, empty),
      )
