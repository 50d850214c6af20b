-- ===== src/Container/LinkList/Ends.antt =====
-- Pushing at the ends of a list of container_link_list.h, of any length.
use comm_libs.Common.{
  ℕ, ◌≡◌, ◌≢◌, refl, sym, ap, subst, ◌∙◌, false, List, [], ◌∷◌, ◌++◌, append_assoc, arith, ◌==◌,
}
use comm_libs.Container.LinkList.{
  Node, Store, LinkList, with_prev, with_next, link_before, link_after, link_alone, push_before,
  push_after, push_front, push_back, allocate, count_up,
}
use comm_libs.Container.LinkList.Segment.{Cells, Represents, Gives, last-append}
use comm_libs.Container.LinkList.Pushes.{IsFresh, push_before-Represents, push_after-Represents}

pub unsnoc : {A : Type 0} (x : A) (xs : List A) → (zs : List A) × (z : A) × (x ∷ xs ≡ zs ++ z ∷ [])
unsnoc x [] = ([], x, refl)
unsnoc x (y ∷ xs) = let (zs, z, e) = unsnoc y xs in (x ∷ zs, z, ap (λ l. x ∷ l) e)

not_zero : (n : ℕ) → n ≢ 0 → (n == 0) ≡ false
not_zero n h = ground arith

module _ {T : Type 0} (malloc : Store T → ℕ) (stale : Node T) where
  push_alone :
      (e : T) (l : LinkList T)
      → IsFresh malloc stale l.store
      → l.count ≡ 0
      → Gives (link_alone (malloc l.store) (allocate malloc stale e l)) ((malloc l.store, e) ∷ [])
  unfolding link_alone
  push_alone e l fresh h = (
    record l {
      store =
          with_next (malloc l.store) 0
            (with_prev (malloc l.store) 0 (allocate malloc stale e l).store);
      head = malloc l.store;
      tail = malloc l.store;
      count = count_up l.count;
    },
    ground arith,
    record {
      linked = (ground arith, tt);
      distinct = (fresh.0, tt, tt);
      at_head = refl;
      at_tail = refl;
      counted = omega arith;
    },
  )

  -- A push at no node makes its node the whole list.
  push_at_null :
      (e : T) (l : LinkList T)
      → IsFresh malloc stale l.store
      → l.count ≡ 0
      → Gives (push_before malloc stale 0 e l) ((malloc l.store, e) ∷ [])
        × Gives (push_after malloc stale 0 e l) ((malloc l.store, e) ∷ [])
  unfolding push_before push_after link_before link_after
  push_at_null e l fresh h =
      let alone = push_alone e l fresh h in rw (not_zero (malloc l.store) fresh.0) (alone, alone)

  -- Where the pool hands out an unused address, `pushfront` puts the element before all others and
  -- `pushback` behind them, in a list of any length.
  pub push_ends-Represents :
      (xs : Cells T) (e : T) (l : LinkList T)
      → IsFresh malloc stale l.store
      → Represents l xs
      → Gives (push_front malloc stale e l) ((malloc l.store, e) ∷ xs)
        × Gives (push_back malloc stale e l) (xs ++ (malloc l.store, e) ∷ [])
  unfolding push_front push_back
  push_ends-Represents [] e l fresh r =
      let new : Cells T = (malloc l.store, e) ∷ [] in
      let (front, back) = push_at_null e l fresh r.counted in
      (
        subst (λ h. Gives (push_before malloc stale h e l) new) (sym r.at_head) front,
        subst (λ h. Gives (push_after malloc stale h e l) new) (sym r.at_tail) back,
      )
  push_ends-Represents ((p, d) ∷ xs) e l fresh r =
      let new : ℕ × T = (malloc l.store, e) in
      let (zs, (q, f), cut) = unsnoc (p, d) xs in
      let whole : (P : Cells T → Type 0) → P (zs ++ (q, f) ∷ []) → P ((p, d) ∷ xs) =
        λ P. subst P (sym cut) in
      let r' : Represents l (zs ++ (q, f) ∷ []) = subst (Represents l) cut r in
      let at_q : l.tail ≡ q = r'.at_tail ∙ last-append 0 zs ((q, f) ∷ []) in
      (
        subst (λ h. Gives (push_before malloc stale h e l) (new ∷ (p, d) ∷ xs)) (sym r.at_head)
            (push_before-Represents malloc stale [] xs p d e l fresh r),
        subst (λ h. Gives (push_after malloc stale h e l) (((p, d) ∷ xs) ++ new ∷ [])) (sym at_q)
            (whole (λ ys. Gives (push_after malloc stale q e l) (ys ++ new ∷ []))
              (subst (Gives (push_after malloc stale q e l))
                (sym (append_assoc zs ((q, f) ∷ []) (new ∷ [])))
                (push_after-Represents malloc stale zs [] q f e l fresh r'))),
      )
