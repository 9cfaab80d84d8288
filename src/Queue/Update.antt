-- ===== src/Queue/Update.antt =====
-- queue/inc/list.h: `list_add` and `list_add_head` on a ring.
use libccll.Base.{
  ◌≡◌, ◌≢◌, sym, List, [], ◌∷◌, ◌++◌, ◌==◌, if◌then◌else◌, arith, NotIn, Distinct, NotIn-snoc,
  Distinct-snoc,
}
use libccll.Queue.{Ptr, null, Links, link_between, list_add, list_add_head}
use libccll.Queue.Ring.{
  Chain, IsRing, last_of, first_of, prev-last_of, next-first_of, NotIn-last_of,
}

-- `h'` is `h` with `new` linked between `l` and `r`.
record Linked (h h' : Links) (l new r : Ptr) : Type 0 where
  next : (p : Ptr) → h'.next p ≡ (if p == new then r else if p == l then new else h.next p)
  prev : (p : Ptr) → h'.prev p ≡ (if p == r then new else if p == new then l else h.prev p)

link_between-Linked :
    (l new r : Ptr) (h : Links)
    → l ≢ null
    → new ≢ null
    → r ≢ null
    → Linked h (link_between l new r h) l new r
unfolding link_between
link_between-Linked l new r h hl hn hr = record {
  next = λ p. ground arith;
  prev = λ p. ground arith;
}

Chain-concat :
    (h h' : Links) (a new b : Ptr) (xs : List Ptr)
    → Linked h h' (last_of a xs) new b
    → Distinct (a ∷ xs)
    → NotIn new (a ∷ xs)
    → new ≢ b
    → NotIn b xs
    → Chain h a xs b
    → Chain h' a (xs ++ new ∷ []) b
Chain-concat h h' a new b [] k apart out ne free c = (
  (ground (arith, k.next a), ground (arith, k.prev new)),
  (ground (arith, k.next new), ground (arith, k.prev b)),
)
Chain-concat h h' a new b (x ∷ xs) k apart out ne free c = (
  (ground (arith, k.next a, NotIn-last_of a x xs apart.0), ground (arith, k.prev x)),
  Chain-concat h h' x new b xs k apart.1 out.1 ne free.1 c.1,
)

-- A chain that the link does not touch is kept.
Chain-Linked :
    (h h' : Links) (l new r y b : Ptr) (ys : List Ptr)
    → Linked h h' l new r
    → NotIn l (y ∷ ys)
    → NotIn new (y ∷ ys)
    → NotIn r ys
    → r ≢ b
    → new ≢ b
    → Chain h y ys b
    → Chain h' y ys b
Chain-Linked h h' l new r y b [] k nl nn nr rb nb c =
    (ground (arith, k.next y), ground (arith, k.prev b))
Chain-Linked h h' l new r y b (z ∷ ys) k nl nn nr rb nb c = (
  (ground (arith, k.next y), ground (arith, k.prev z)),
  Chain-Linked h h' l new r z b ys k nl.1 nn.1 nr.1 rb nb c.1,
)

Chain-cons :
    (h h' : Links) (a new b : Ptr) (xs : List Ptr)
    → Linked h h' a new (first_of xs b)
    → Distinct (a ∷ xs)
    → NotIn new (a ∷ xs)
    → new ≢ b
    → NotIn b xs
    → Chain h a xs b
    → Chain h' a (new ∷ xs) b
Chain-cons h h' a new b [] k apart out ne free c =
    Chain-concat h h' a new b [] k apart out ne free c
Chain-cons h h' a new b (x ∷ xs) k apart out ne free c = (
  (ground (arith, k.next a), ground (arith, k.prev new)),
  (
    (ground (arith, k.next new), ground (arith, k.prev x)),
    Chain-Linked h h' a new x x b xs k apart.0 out.1 apart.1.0 (λ e. free.0 (sym e)) ne c.1,
  ),
)

module _ {h : Links} {head : Ptr} {xs : List Ptr} (new : Ptr) (r : IsRing h head xs) where
  first_valid : (xs : List Ptr) → NotIn null (head ∷ xs) → first_of xs head ≢ null
  first_valid [] v e = v.0 (sym e)
  first_valid (x ∷ xs) v e = v.1.0 (sym e)

  -- `list_add` puts a new node behind the last one, and `list_add_head` before the first one.
  pub list_add-IsRing :
      new ≢ null
      → NotIn new (head ∷ xs)
      → IsRing (list_add new head h) head (xs ++ new ∷ [])
        × IsRing (list_add_head new head h) head (new ∷ xs)
  unfolding list_add list_add_head
  list_add-IsRing ne out =
      let last = prev-last_of h head head xs r.chain in
      let first = next-first_of h head head xs r.chain in
      let valid_last : last_of head xs ≢ null = λ e. NotIn-last_of null head xs r.valid (sym e) in
      let valid_head : head ≢ null = λ e. r.valid.0 (sym e) in
      let front = link_between-Linked (last_of head xs) new head h valid_last ne valid_head in
      let back =
        link_between-Linked head new (first_of xs head) h valid_head ne (first_valid xs r.valid) in
      (
        rw last (record {
          chain = Chain-concat h _ head new head xs front r.distinct out out.0 r.distinct.0 r.chain;
          distinct = Distinct-snoc (head ∷ xs) new r.distinct out;
          valid = NotIn-snoc null (head ∷ xs) new r.valid (λ e. ne (sym e));
        }),
        rw first (record {
          chain = Chain-cons h _ head new head xs back r.distinct out out.0 r.distinct.0 r.chain;
          distinct = (((λ e. out.0 (sym e)), r.distinct.0), (out.1, r.distinct.1));
          valid = (r.valid.0, ((λ e. ne (sym e)), r.valid.1));
        }),
      )
