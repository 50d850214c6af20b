-- ===== src/Container/LinkList/Pushes.antt =====
-- The pushes of container_link_list.h against lists of elements.
use comm_libs.Common.{
  ℕ, ◌%◌, ◌^◌, ◌≡◌, ◌≢◌, refl, sym, subst, ◌∙◌, none, some, [], ◌∷◌, ◌++◌, append_assoc, length,
  arith,
}
use comm_libs.Container.LinkList.{
  Node, Store, LinkList, push_before, push_after, allocate, count_up,
}
use comm_libs.Container.LinkList.Segment.{
  Cells, first, last, Distinct, Represents, Gives, Segment-split, last-append, first-append,
  Avoids-split, Distinct-around, Distinct-insert, length-insert,
}
use comm_libs.Container.LinkList.Links.{frame, Avoids-unused}
use comm_libs.Container.LinkList.Insertion.{
  Ready, link_first_Segment, link_last_Segment, link_inside_before_Segment,
  link_inside_after_Segment,
}
use comm_libs.Container.LinkList.Runs.{
  link_before_first, link_before_inside, link_after_last, link_after_inside,
}

module _ {T : Type 0} (malloc : Store T → ℕ) (stale : Node T) where
  -- The pool hands out an address that is not null and not in use.
  abbrev pub IsFresh : Store T → Type 0
  IsFresh s = (malloc s ≢ 0) × (s (malloc s) ≡ none)

  ready :
      (xs ys : Cells T) (c : ℕ) (d e : T) (l : LinkList T)
      → IsFresh l.store
      → Represents l (xs ++ (c, d) ∷ ys)
      → Ready (allocate malloc stale e l).store xs c d ys (malloc l.store)
  ready xs ys c d e l fresh r =
      let new_node = malloc l.store in
      let s' = (allocate malloc stale e l).store in
      let (left, mid) = Segment-split l.store 0 0 xs ((c, d) ∷ ys) r.linked in
      let (nonnull, a, b, others) = Distinct-around xs ys c d r.distinct in
      let all = Avoids-unused l.store 0 0 new_node (xs ++ (c, d) ∷ ys) fresh.1 r.linked in
      let (free_left, free_rest) = Avoids-split new_node xs ((c, d) ∷ ys) all in
      let same : (p : ℕ) → p ≢ new_node → s' p ≡ l.store p = λ p h. ground arith in
      record {
        left = frame l.store s' 0 c new_node xs same free_left left;
        here = same c free_rest.0 ∙ mid.0;
        right = frame l.store s' c 0 new_node ys same free_rest.1 mid.1;
        nonnull = nonnull;
        others = others;
        left_side = a;
        right_side = b;
        fresh = fresh.0;
        fresh_left = free_left;
        fresh_here = free_rest.0;
        fresh_right = free_rest.1;
      }

  allocated :
      (e : T) (l : LinkList T)
      → (allocate malloc stale e l).store (malloc l.store) ≡ some (record stale { element = e })
  allocated e l = ground arith

  inserted_distinct :
      (xs zs : Cells T) (e : T) (l : LinkList T)
      → IsFresh l.store
      → Represents l (xs ++ zs)
      → Distinct (xs ++ (malloc l.store, e) ∷ zs)
  inserted_distinct xs zs e l fresh r =
      Distinct-insert xs zs (malloc l.store) e fresh.0
        (Avoids-unused l.store 0 0 (malloc l.store) (xs ++ zs) fresh.1 r.linked) r.distinct

  inserted_counted :
      (xs zs : Cells T) (e : T) (l : LinkList T)
      → Represents l (xs ++ zs)
      → count_up l.count ≡ length (xs ++ (malloc l.store, e) ∷ zs) % 2 ^ 32
  inserted_counted xs zs e l r = omega (arith, r.counted, length-insert xs zs (malloc l.store, e))

  -- The tail does not change where the new node has nodes to its right.
  same_tail :
      (xs ys : Cells T) (x y : ℕ × T) (l : LinkList T)
      → Represents l (xs ++ y ∷ ys)
      → l.tail ≡ last 0 (xs ++ x ∷ y ∷ ys)
  same_tail xs ys x y l r =
      r.at_tail ∙ last-append 0 xs (y ∷ ys) ∙ sym (last-append 0 xs (x ∷ y ∷ ys))

  pub push_before-Represents :
      (xs ys : Cells T) (c : ℕ) (d e : T) (l : LinkList T)
      → IsFresh l.store
      → Represents l (xs ++ (c, d) ∷ ys)
      → Gives (push_before malloc stale c e l) (xs ++ (malloc l.store, e) ∷ (c, d) ∷ ys)
  unfolding push_before
  push_before-Represents [] ys c d e l fresh r =
      let k = ready [] ys c d e l fresh r in
      let n = allocated e l in
      (
        _,
        link_before_first (allocate malloc stale e l) c (malloc l.store) d _ ys k n,
        record {
          linked = link_first_Segment _ c (malloc l.store) d e _ ys k n;
          distinct = inserted_distinct [] ((c, d) ∷ ys) e l fresh r;
          at_head = refl;
          at_tail = r.at_tail;
          counted = inserted_counted [] ((c, d) ∷ ys) e l r;
        },
      )
  push_before-Represents (x ∷ xs) ys c d e l fresh r =
      let k = ready (x ∷ xs) ys c d e l fresh r in
      let n = allocated e l in
      (
        _,
        link_before_inside (allocate malloc stale e l) c (malloc l.store) d _ x xs ys k n,
        record {
          linked = link_inside_before_Segment _ c (malloc l.store) d e _ x xs ys k n;
          distinct = inserted_distinct (x ∷ xs) ((c, d) ∷ ys) e l fresh r;
          at_head = r.at_head;
          at_tail = same_tail (x ∷ xs) ys (malloc l.store, e) (c, d) l r;
          counted = inserted_counted (x ∷ xs) ((c, d) ∷ ys) e l r;
        },
      )

  -- The facts for a node behind `c` are those for a node before what comes after `c`.
  after_distinct :
      (xs ys : Cells T) (c e : T) (p : ℕ) (l : LinkList T)
      → IsFresh l.store
      → Represents l (xs ++ (p, c) ∷ ys)
      → Distinct (xs ++ (p, c) ∷ (malloc l.store, e) ∷ ys)
  after_distinct xs ys c e p l fresh r =
      let r' = subst (Represents l) (sym (append_assoc xs ((p, c) ∷ []) ys)) r in
      subst Distinct (append_assoc xs ((p, c) ∷ []) ((malloc l.store, e) ∷ ys))
        (inserted_distinct (xs ++ (p, c) ∷ []) ys e l fresh r')

  after_counted :
      (xs ys : Cells T) (c : ℕ × T) (e : T) (l : LinkList T)
      → Represents l (xs ++ c ∷ ys)
      → count_up l.count ≡ length (xs ++ c ∷ (malloc l.store, e) ∷ ys) % 2 ^ 32
  after_counted xs ys c e l r = omega (
    arith,
    r.counted,
    length-insert xs ys c,
    length-insert xs ys (malloc l.store, e),
    length-insert xs ((malloc l.store, e) ∷ ys) c,
  )

  same_head :
      (xs ys zs : Cells T) (c : ℕ × T) (l : LinkList T)
      → Represents l (xs ++ c ∷ ys)
      → l.head ≡ first (xs ++ c ∷ zs) 0
  same_head xs ys zs c l r =
      r.at_head ∙ first-append xs (c ∷ ys) 0 ∙ sym (first-append xs (c ∷ zs) 0)

  after_tail :
      (xs ys : Cells T) (c x y : ℕ × T) (l : LinkList T)
      → Represents l (xs ++ c ∷ y ∷ ys)
      → l.tail ≡ last 0 (xs ++ c ∷ x ∷ y ∷ ys)
  after_tail xs ys c x y l r =
      r.at_tail ∙ last-append 0 xs (c ∷ y ∷ ys) ∙ sym (last-append 0 xs (c ∷ x ∷ y ∷ ys))

  pub push_after-Represents :
      (xs ys : Cells T) (c : ℕ) (d e : T) (l : LinkList T)
      → IsFresh l.store
      → Represents l (xs ++ (c, d) ∷ ys)
      → Gives (push_after malloc stale c e l) (xs ++ (c, d) ∷ (malloc l.store, e) ∷ ys)
  unfolding push_after
  push_after-Represents xs [] c d e l fresh r =
      let k = ready xs [] c d e l fresh r in
      let n = allocated e l in
      (
        _,
        link_after_last (allocate malloc stale e l) c (malloc l.store) d _ xs k n,
        record {
          linked = link_last_Segment _ c (malloc l.store) d e _ xs k n;
          distinct = after_distinct xs [] d e c l fresh r;
          at_head = same_head xs [] ((malloc l.store, e) ∷ []) (c, d) l r;
          at_tail = sym (last-append 0 xs ((c, d) ∷ (malloc l.store, e) ∷ []));
          counted = after_counted xs [] (c, d) e l r;
        },
      )
  push_after-Represents xs (y ∷ ys) c d e l fresh r =
      let k = ready xs (y ∷ ys) c d e l fresh r in
      let n = allocated e l in
      (
        _,
        link_after_inside (allocate malloc stale e l) c (malloc l.store) d _ xs y ys k n,
        record {
          linked = link_inside_after_Segment _ c (malloc l.store) d e _ xs y ys k n;
          distinct = after_distinct xs (y ∷ ys) d e c l fresh r;
          at_head = same_head xs (y ∷ ys) ((malloc l.store, e) ∷ y ∷ ys) (c, d) l r;
          at_tail = after_tail xs ys (c, d) (malloc l.store, e) y l r;
          counted = after_counted xs (y ∷ ys) (c, d) e l r;
        },
      )

  -- Where the pool hands out an unused address, a push before or after a node of a list puts the
  -- element there, wherever that node stands, and leaves the other nodes in their order.
  pub push_beside-Represents :
      (xs ys : Cells T) (c : ℕ) (d e : T) (l : LinkList T)
      → IsFresh l.store
      → Represents l (xs ++ (c, d) ∷ ys)
      → Gives (push_before malloc stale c e l) (xs ++ (malloc l.store, e) ∷ (c, d) ∷ ys)
        × Gives (push_after malloc stale c e l) (xs ++ (c, d) ∷ (malloc l.store, e) ∷ ys)
  push_beside-Represents xs ys c d e l fresh r =
      (push_before-Represents xs ys c d e l fresh r, push_after-Represents xs ys c d e l fresh r)
