-- ===== src/Container/LinkList/Clear.antt =====
-- `popfront`, `popback` and `clear` of container_link_list.h.
use comm_libs.Common.{
  ℕ, zero, suc, ◌-◌, ◌≡◌, ◌≤◌, drop, take, refl, sym, ap, subst, ◌∙◌, some, List, [], ◌∷◌, ◌++◌,
  length-append, length, arith,
}
use comm_libs.Container.LinkList.{LinkList, pop, popfront, popback, clear_loop, clear}
use comm_libs.Container.LinkList.Segment.{Cells, Represents, Gives, last-append}
use comm_libs.Container.LinkList.Ends.{unsnoc}
use comm_libs.Container.LinkList.Removal.{pop-Represents}

take-length : {A : Type 0} (zs : List A) (z : A) → take (length zs) (zs ++ z ∷ []) ≡ zs ++ []
take-length [] z = refl
take-length (x ∷ zs) z = ap (λ l. x ∷ l) (take-length zs z)

take_init :
    {A : Type 0} (zs : List A) (z : A) → take (length (zs ++ z ∷ []) - 1) (zs ++ z ∷ []) ≡ zs ++ []
take_init zs z =
    let e : length (zs ++ z ∷ []) - 1 ≡ length zs = omega (arith, length-append zs (z ∷ [])) in
    rw e (take-length zs z)

module _ {T : Type 0} where
  pop_null : (l : LinkList T) → pop 0 l ≡ some l
  unfolding pop
  pop_null l = refl

  popfront_lem :
      (c : ℕ × T) (xs : Cells T) (l : LinkList T) → Represents l (c ∷ xs) → Gives (popfront l) xs
  unfolding popfront
  popfront_lem (c, d) xs l r =
      subst (λ h. Gives (pop h l) xs) (sym r.at_head) (pop-Represents [] xs c d l r)

  popback_lem :
      (xs : Cells T) (c : ℕ × T) (l : LinkList T)
      → Represents l (xs ++ c ∷ [])
      → Gives (popback l) (xs ++ [])
  unfolding popback
  popback_lem xs (c, d) l r =
      subst (λ h. Gives (pop h l) (xs ++ [])) (sym (r.at_tail ∙ last-append 0 xs ((c, d) ∷ [])))
        (pop-Represents xs [] c d l r)

  -- `popfront` and `popback` take away the first and the last node, and do nothing to a list
  -- without nodes.
  pub pop_ends-Represents :
      (xs : Cells T) (l : LinkList T)
      → Represents l xs
      → Gives (popfront l) (drop 1 xs) × Gives (popback l) (take (length xs - 1) xs)
  unfolding popfront popback
  pop_ends-Represents [] l r = (
    (l, ap (λ h. pop h l) r.at_head ∙ pop_null l, r),
    (l, ap (λ h. pop h l) r.at_tail ∙ pop_null l, r),
  )
  pop_ends-Represents (x ∷ xs) l r =
      let (zs, z, cut) = unsnoc x xs in
      (
        popfront_lem x xs l r,
        subst (λ ys. Gives (popback l) (take (length ys - 1) ys)) (sym cut)
            (subst (Gives (popback l)) (sym (take_init zs z))
              (popback_lem zs z l (subst (Represents l) cut r))),
      )

  clear_loop-Represents :
      (fuel : ℕ) (xs : Cells T) (l : LinkList T)
      → Represents l xs
      → length xs ≤ fuel
      → Gives (clear_loop fuel l) []
  unfolding clear_loop
  clear_loop-Represents zero [] l r h = (l, ground (arith, r.at_head), r)
  clear_loop-Represents zero (x ∷ xs) l r h = absurd (omega arith)
  clear_loop-Represents (suc fuel) [] l r h = (l, ground (arith, r.at_head), r)
  clear_loop-Represents (suc fuel) ((c, d) ∷ xs) l r h =
      let (l', e, r') = popfront_lem (c, d) xs l r in
      let (l'', e', r'') = clear_loop-Represents fuel xs l' r' (omega arith) in
      (l'', ground (arith, e, e', r.at_head, r.distinct.0), r'')

  -- `clear` ends in at most as many rounds as the list has nodes, and leaves none.
  pub clear-Represents :
      (xs : Cells T) (l : LinkList T) (fuel : ℕ)
      → Represents l xs
      → length xs ≤ fuel
      → Gives (clear fuel l) []
  unfolding clear
  clear-Represents xs l fuel r h =
      let (l', e, r') = clear_loop-Represents fuel xs l r h in
      (
        record l' { count = 0 },
        rw e,
        record {
          linked = r'.linked;
          distinct = r'.distinct;
          at_head = r'.at_head;
          at_tail = r'.at_tail;
          counted = refl;
        },
      )
