-- ===== src/Queue/Delete.antt =====
-- queue/inc/list.h: `list_del` on a ring.
use libccll.Base.{
  ℕ, ◌≡◌, ◌≢◌, sym, List, [], ◌∷◌, ◌++◌, ◌==◌, if◌then◌else◌, arith, NotIn, Distinct,
}
use libccll.Queue.{Ptr, null, Links, list_del}
use libccll.Queue.Ring.{Chain, IsRing, last_of, first_of, next-first_of, NotIn-last_of}

-- `h'` is `h` with `node` taken out between `l` and `r`.
record Unlinked (h h' : Links) (l node r : Ptr) : Type 0 where
  next : (p : Ptr) → h'.next p ≡ (if p == node then null else if p == l then r else h.next p)
  prev : (p : Ptr) → h'.prev p ≡ (if p == node then null else if p == r then l else h.prev p)

list_del-Unlinked :
    (l node r : Ptr) (h : Links)
    → node ≢ null
    → h.prev node ≡ l
    → h.next node ≡ r
    → l ≢ node
    → r ≢ node
    → Unlinked h (list_del node h) l node r
unfolding list_del
list_del-Unlinked l node r h hn hl hr nl nr = record {
  next = λ p. ground arith;
  prev = λ p. ground arith;
}

Chain-Unlinked :
    (h h' : Links) (l node r y b : Ptr) (ys : List Ptr)
    → Unlinked h h' l node r
    → NotIn l (y ∷ ys)
    → NotIn node (y ∷ ys)
    → NotIn r ys
    → r ≢ b
    → node ≢ b
    → Chain h y ys b
    → Chain h' y ys b
Chain-Unlinked h h' l node r y b [] k nl nn nr rb nb c =
    (ground (arith, k.next y), ground (arith, k.prev b))
Chain-Unlinked h h' l node r y b (z ∷ ys) k nl nn nr rb nb c = (
  (ground (arith, k.next y), ground (arith, k.prev z)),
  Chain-Unlinked h h' l node r z b ys k nl.1 nn.1 nr.1 rb nb c.1,
)

NotIn-append_left : (p : ℕ) (xs ys : List ℕ) → NotIn p (xs ++ ys) → NotIn p xs
NotIn-append_left p [] ys out = tt
NotIn-append_left p (x ∷ xs) ys out = (out.0, NotIn-append_left p xs ys out.1)

NotIn-append_right : (p : ℕ) (xs ys : List ℕ) → NotIn p (xs ++ ys) → NotIn p ys
NotIn-append_right p [] ys out = out
NotIn-append_right p (x ∷ xs) ys out = NotIn-append_right p xs ys out.1

NotIn-append : (p : ℕ) (xs ys : List ℕ) → NotIn p xs → NotIn p ys → NotIn p (xs ++ ys)
NotIn-append p [] ys left right = right
NotIn-append p (x ∷ xs) ys left right = (left.0, NotIn-append p xs ys left.1 right)

Distinct-remove :
    (xs : List ℕ) (q : ℕ) (ys : List ℕ) → Distinct (xs ++ q ∷ ys) → Distinct (xs ++ ys)
Distinct-remove [] q ys apart = apart.1
Distinct-remove (x ∷ xs) q ys apart = (
  NotIn-append x xs ys (NotIn-append_left x xs (q ∷ ys) apart.0)
      (NotIn-append_right x xs (q ∷ ys) apart.0).1,
  Distinct-remove xs q ys apart.1,
)

NotIn-remove :
    (p : ℕ) (xs : List ℕ) (q : ℕ) (ys : List ℕ) → NotIn p (xs ++ q ∷ ys) → NotIn p (xs ++ ys)
NotIn-remove p [] q ys out = out.1
NotIn-remove p (x ∷ xs) q ys out = (out.0, NotIn-remove p xs q ys out.1)

-- `p` stands before the node that is taken out: it is not the first one behind it.
NotIn-first_of : (p b q : Ptr) (ys : List Ptr) → NotIn p (q ∷ ys) → p ≢ b → p ≢ first_of ys b
NotIn-first_of p b q [] out ne = ne
NotIn-first_of p b q (y ∷ ys) out ne = out.1.0

Chain-remove :
    (h h' : Links) (a node b : Ptr) (xs ys : List Ptr)
    → Unlinked h h' (last_of a xs) node (first_of ys b)
    → Distinct (a ∷ (xs ++ node ∷ ys))
    → NotIn b (xs ++ node ∷ ys)
    → Chain h a (xs ++ node ∷ ys) b
    → Chain h' a (xs ++ ys) b
Chain-remove h h' a node b [] [] k apart free c =
    (ground (arith, k.next a, apart.0.0), ground (arith, k.prev b, free.0))
Chain-remove h h' a node b [] (y ∷ ys) k apart free c = (
  (ground (arith, k.next a, apart.0.0), ground (arith, k.prev y, apart.1.0.0)),
  Chain-Unlinked h h' a node y y b ys k apart.0.1 apart.1.0 apart.1.1.0 (λ e. free.1.0 (sym e))
      (λ e. free.0 (sym e)) c.1.1,
)
Chain-remove h h' a node b (x ∷ xs) ys k apart free c = (
  (
    ground (
      arith,
      k.next a,
      NotIn-last_of a x xs (apart.0.0, NotIn-append_left a xs (node ∷ ys) apart.0.1),
      (NotIn-append_right a xs (node ∷ ys) apart.0.1).0,
    ),
    ground (
      arith,
      k.prev x,
      NotIn-first_of x b node ys (NotIn-append_right x xs (node ∷ ys) apart.1.0)
          (λ e. free.0 (sym e)),
      (NotIn-append_right x xs (node ∷ ys) apart.1.0).0,
    ),
  ),
  Chain-remove h h' x node b xs ys k apart.1 free.1 c.1,
)

ends_of :
    (h : Links) (a node b : Ptr) (xs ys : List Ptr)
    → Chain h a (xs ++ node ∷ ys) b
    → (h.prev node ≡ last_of a xs) × (h.next node ≡ first_of ys b)
ends_of h a node b [] ys c = (c.0.1, next-first_of h node b ys c.1)
ends_of h a node b (x ∷ xs) ys c = ends_of h x node b xs ys c.1

last-ne : (a node : Ptr) (xs ys : List Ptr) → Distinct (a ∷ (xs ++ node ∷ ys)) → last_of a xs ≢ node
last-ne a node [] ys apart = apart.0.0
last-ne a node (x ∷ xs) ys apart = last-ne x node xs ys apart.1

first-ne :
    (b node : Ptr) (xs ys : List Ptr)
    → Distinct (xs ++ node ∷ ys)
    → NotIn b (xs ++ node ∷ ys)
    → first_of ys b ≢ node
first-ne b node [] [] apart out = out.0
first-ne b node [] (y ∷ ys) apart out = λ e. apart.0.0 (sym e)
first-ne b node (x ∷ xs) ys apart out = first-ne b node xs ys apart.1 out.1

-- `list_del` of a node takes out that node alone, keeps the others in order, and clears its links.
pub list_del-IsRing :
    {h : Links} {head : Ptr} (xs : List Ptr) (node : Ptr) (ys : List Ptr)
    → IsRing h head (xs ++ node ∷ ys)
    → IsRing (list_del node h) head (xs ++ ys)
      × ((list_del node h).next node ≡ null)
      × ((list_del node h).prev node ≡ null)
list_del-IsRing {h} {head} xs node ys r =
    let out : node ≢ null = λ e. (NotIn-append_right null xs (node ∷ ys) r.valid.1).0 (sym e) in
    let (before, behind) = ends_of h head node head xs ys r.chain in
    let k =
      list_del-Unlinked _ node _ h out before behind (last-ne head node xs ys r.distinct)
        (first-ne head node xs ys r.distinct.1 r.distinct.0) in
    (
      record {
        chain = Chain-remove h _ head node head xs ys k r.distinct r.distinct.0 r.chain;
        distinct =
            (NotIn-remove head xs node ys r.distinct.0, Distinct-remove xs node ys r.distinct.1);
        valid = (r.valid.0, NotIn-remove null xs node ys r.valid.1);
      },
      ground (arith, k.next node),
      ground (arith, k.prev node),
    )
