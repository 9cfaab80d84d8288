-- ===== src/Queue/Ring.antt =====
-- What a list head and its nodes look like on the heap: a ring of edges in both directions.
use libccll.Base.{
  ℕ, zero, suc, ◌+◌, ◌<◌, ◌≡◌, ◌≢◌, ◌↔◌, refl, ap, ◌∙◌, true, false, ◌||◌, some, List, [], ◌∷◌,
  ◌==◌, arith, length, NotIn, Distinct,
}
use libccll.Queue.{Ptr, null, Links, list_empty, size_loop, list_size, for_each, list_for_each}

abbrev pub Edge : Links → Ptr → Ptr → Type 0
Edge h p q = (h.next p ≡ q) × (h.prev q ≡ p)

-- from `a` the edges lead through `xs` to `b`
abbrev pub Chain : Links → Ptr → List Ptr → Ptr → Type 0
Chain h a [] b = Edge h a b
Chain h a (x ∷ xs) b = Edge h a x × Chain h x xs b

-- the list at `head` holds the nodes `xs`, in this order
pub record IsRing (h : Links) (head : Ptr) (xs : List Ptr) : Type 0 where
  pub chain : Chain h head xs head
  pub distinct : Distinct (head ∷ xs)
  pub valid : NotIn null (head ∷ xs)

abbrev pub last_of : Ptr → List Ptr → Ptr
last_of a [] = a
last_of a (x ∷ xs) = last_of x xs

abbrev pub first_of : List Ptr → Ptr → Ptr
first_of [] b = b
first_of (x ∷ xs) b = x

pub prev-last_of :
    (h : Links) (a b : Ptr) (xs : List Ptr) → Chain h a xs b → h.prev b ≡ last_of a xs
prev-last_of h a b [] c = c.1
prev-last_of h a b (x ∷ xs) c = prev-last_of h x b xs c.1

pub next-first_of :
    (h : Links) (a b : Ptr) (xs : List Ptr) → Chain h a xs b → h.next a ≡ first_of xs b
next-first_of h a b [] c = c.0
next-first_of h a b (x ∷ xs) c = c.0.0

pub NotIn-last_of : (p x : Ptr) (xs : List Ptr) → NotIn p (x ∷ xs) → p ≢ last_of x xs
NotIn-last_of p x [] out = out.0
NotIn-last_of p x (y ∷ xs) out = NotIn-last_of p y xs out.1

size_loop-Chain :
    (fuel : ℕ) (h : Links) (head a cnt : ℕ) (xs : List Ptr)
    → Chain h a xs head
    → NotIn head xs
    → NotIn null xs
    → length xs < fuel
    → size_loop fuel head a cnt h ≡ some (cnt + length xs)
unfolding size_loop
size_loop-Chain zero h head a cnt xs c out valid enough = absurd (omega arith)
size_loop-Chain (suc fuel) h head a cnt [] c out valid enough = ground arith
size_loop-Chain (suc fuel) h head a cnt (x ∷ xs) c out valid enough =
    let stop : (h.next a == null || head == h.next a) ≡ false = ground arith in
    let e : cnt + 1 + length xs ≡ cnt + suc (length xs) = omega arith in
    rw stop (
      rw c.0.0 (rw (size_loop-Chain fuel h head x (cnt + 1) xs c.1 out.1 valid.1 (omega arith), e)))

for_each-Chain :
    (fuel : ℕ) (h : Links) (head a : Ptr) (xs : List Ptr)
    → Chain h a xs head
    → NotIn head xs
    → length xs < fuel
    → for_each fuel head (first_of xs head) h ≡ some xs
unfolding for_each
for_each-Chain zero h head a xs c out enough = absurd (omega arith)
for_each-Chain (suc fuel) h head a [] c out enough = ground arith
for_each-Chain (suc fuel) h head a (x ∷ xs) c out enough =
    let on : (x == head) ≡ false = ground arith in
    let later = for_each-Chain fuel h head x xs c.1 out.1 (omega arith) in
    rw on (rw (next-first_of h x head xs c.1, later))

module _ {h : Links} {head : Ptr} {xs : List Ptr} (r : IsRing h head xs) where
  head-ne-null : (head == null) ≡ false
  head-ne-null = ground (arith, r.valid.0)

  -- `list_size` counts the nodes, and `list_for_each` visits them in order, in one round more than
  -- there are nodes.
  list_size-IsRing :
      (fuel : ℕ)
      → length xs < fuel
      → (list_size fuel head h ≡ some (length xs)) × (list_for_each fuel head h ≡ some xs)
  unfolding list_size list_for_each
  list_size-IsRing fuel enough = (
    rw head-ne-null (
        size_loop-Chain fuel h head head 0 xs r.chain r.distinct.0 r.valid.1 enough
        ∙ ap some (omega arith)),
    rw (next-first_of h head head xs r.chain)
        (for_each-Chain fuel h head head xs r.chain r.distinct.0 enough),
  )

-- `list_empty` tells whether the list holds a node.
list_empty-IsRing :
    {h : Links} {head : Ptr} (xs : List Ptr)
    → IsRing h head xs
    → (list_empty head h ≡ true) ↔ (xs ≡ [])
unfolding list_empty
list_empty-IsRing [] r = ((λ _. refl), λ _. ground (arith, r.valid.0, r.chain.1))
list_empty-IsRing {h} {head} (x ∷ xs) r = (
  (λ e. absurd (
      ground (
        arith,
        r.valid.0,
        prev-last_of h x head xs r.chain.1,
        NotIn-last_of head x xs r.distinct.0,
      ))),
  λ e. cc,
)
