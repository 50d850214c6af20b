-- ===== src/Container/LinkList/Segment.antt =====
-- Runs of nodes in the store of container_link_list.h.
use comm_libs.Common.{
  ℕ, ◌+◌, ◌%◌, ◌^◌, ◌≡◌, ◌≢◌, refl, sym, ◌∙◌, Option, some, List, [], ◌∷◌, ◌++◌, length, arith,
}
use comm_libs.Container.LinkList.{Store, LinkList}

-- A list's nodes in order, each with its address.
abbrev pub Cells : Type 0 → Type 0
Cells T = List (ℕ × T)

module _ {T : Type 0} where
  abbrev pub first : Cells T → ℕ → ℕ
  first [] after = after
  first ((p, d) ∷ xs) after = p

  abbrev pub last : ℕ → Cells T → ℕ
  last before [] = before
  last before ((p, d) ∷ xs) = last p xs

  -- The nodes `xs` stand in the store, linked both ways, between two addresses.
  abbrev pub Segment : Store T → ℕ → Cells T → ℕ → Type 0
  Segment s before [] after = Unit
  Segment s before ((p, d) ∷ xs) after =
      (s p ≡ some (record { element = d; prev = before; next = first xs after }))
      × Segment s p xs after

  abbrev pub Avoids : ℕ → Cells T → Type 0
  Avoids q [] = Unit
  Avoids q ((p, d) ∷ xs) = (p ≢ q) × Avoids q xs

  -- Addresses are not null and differ.
  abbrev pub Distinct : Cells T → Type 0
  Distinct [] = Unit
  Distinct ((p, d) ∷ xs) = (p ≢ 0) × Avoids p xs × Distinct xs

  pub record Represents (l : LinkList T) (xs : Cells T) : Type 0 where
    pub linked : Segment l.store 0 xs 0
    pub distinct : Distinct xs
    pub at_head : l.head ≡ first xs 0
    pub at_tail : l.tail ≡ last 0 xs
    pub counted : l.count ≡ length xs % 2 ^ 32

  -- A call ends without an access of an address that holds no node, and leaves these nodes.
  abbrev pub Gives : Option (LinkList T) → Cells T → Type 0
  Gives call xs = (l' : LinkList T) × (call ≡ some l') × Represents l' xs

  -- The store is the same at every node.
  abbrev pub Agree : Store T → Store T → Cells T → Type 0
  Agree s s' [] = Unit
  Agree s s' ((p, d) ∷ xs) = (s' p ≡ s p) × Agree s s' xs

  pub Segment-Agree :
      (s s' : Store T) (before after : ℕ) (xs : Cells T)
      → Agree s s' xs
      → Segment s before xs after
      → Segment s' before xs after
  Segment-Agree s s' before after [] a seg = tt
  Segment-Agree s s' before after ((p, d) ∷ xs) a seg =
      (a.0 ∙ seg.0, Segment-Agree s s' p after xs a.1 seg.1)

  pub Segment-append :
      (s : Store T) (before after : ℕ) (xs ys : Cells T)
      → Segment s before xs (first ys after)
      → Segment s (last before xs) ys after
      → Segment s before (xs ++ ys) after
  Segment-append s before after [] ys seg seg' = seg'
  Segment-append s before after ((p, d) ∷ []) ys seg seg' = (seg.0, seg')
  Segment-append s before after ((p, d) ∷ (q, e) ∷ xs) ys seg seg' =
      (seg.0, Segment-append s p after ((q, e) ∷ xs) ys seg.1 seg')

  pub Segment-split :
      (s : Store T) (before after : ℕ) (xs ys : Cells T)
      → Segment s before (xs ++ ys) after
      → Segment s before xs (first ys after) × Segment s (last before xs) ys after
  Segment-split s before after [] ys seg = (tt, seg)
  Segment-split s before after ((p, d) ∷ []) ys seg = ((seg.0, tt), seg.1)
  Segment-split s before after ((p, d) ∷ (q, e) ∷ xs) ys seg =
      let (l, r) = Segment-split s p after ((q, e) ∷ xs) ys seg.1 in ((seg.0, l), r)

  pub last-append :
      (before : ℕ) (xs ys : Cells T) → last before (xs ++ ys) ≡ last (last before xs) ys
  last-append before [] ys = refl
  last-append before ((p, d) ∷ xs) ys = last-append p xs ys

  pub first-append :
      (xs ys : Cells T) (after : ℕ) → first (xs ++ ys) after ≡ first xs (first ys after)
  first-append [] ys after = refl
  first-append ((p, d) ∷ xs) ys after = refl

  pub Avoids-append : (q : ℕ) (xs ys : Cells T) → Avoids q xs → Avoids q ys → Avoids q (xs ++ ys)
  Avoids-append q [] ys a b = b
  Avoids-append q ((p, d) ∷ xs) ys a b = (a.0, Avoids-append q xs ys a.1 b)

  pub Avoids-split : (q : ℕ) (xs ys : Cells T) → Avoids q (xs ++ ys) → Avoids q xs × Avoids q ys
  Avoids-split q [] ys a = (tt, a)
  Avoids-split q ((p, d) ∷ xs) ys a = let (l, r) = Avoids-split q xs ys a.1 in ((a.0, l), r)

  -- What the two parts of distinct nodes around one node say of it.
  pub Distinct-around :
      (xs ys : Cells T) (c : ℕ) (d : T)
      → Distinct (xs ++ (c, d) ∷ ys)
      → (c ≢ 0) × Avoids c xs × Avoids c ys × Distinct (xs ++ ys)
  Distinct-around [] ys c d h = (h.0, tt, h.1, h.2)
  Distinct-around ((p, e) ∷ xs) ys c d h =
      let (nonnull, left, right, rest) = Distinct-around xs ys c d h.2 in
      let (a, b) = Avoids-split p xs ((c, d) ∷ ys) h.1 in
      (nonnull, ((λ q. b.0 (sym q)), left), right, (h.0, Avoids-append p xs ys a b.1, rest))

  -- A new address may stand anywhere.
  pub Distinct-insert :
      (xs ys : Cells T) (c : ℕ) (d : T)
      → c ≢ 0
      → Avoids c (xs ++ ys)
      → Distinct (xs ++ ys)
      → Distinct (xs ++ (c, d) ∷ ys)
  Distinct-insert [] ys c d nonnull a h = (nonnull, a, h)
  Distinct-insert ((p, e) ∷ xs) ys c d nonnull a h =
      let (l, r) = Avoids-split p xs ys h.1 in
      (
        h.0,
        Avoids-append p xs ((c, d) ∷ ys) l ((λ q. a.0 (sym q)), r),
        Distinct-insert xs ys c d nonnull a.1 h.2,
      )

  pub length-insert : (xs ys : Cells T) (c : ℕ × T) → length (xs ++ c ∷ ys) ≡ length (xs ++ ys) + 1
  length-insert [] ys c = omega arith
  length-insert (x ∷ xs) ys c = omega (arith, length-insert xs ys c)

  pub Distinct-left : (xs ys : Cells T) → Distinct (xs ++ ys) → Distinct xs
  Distinct-left [] ys h = tt
  Distinct-left ((p, d) ∷ xs) ys h = (h.0, (Avoids-split p xs ys h.1).0, Distinct-left xs ys h.2)

  pub Distinct-right : (xs ys : Cells T) → Distinct (xs ++ ys) → Distinct ys
  Distinct-right [] ys h = h
  Distinct-right ((p, d) ∷ xs) ys h = Distinct-right xs ys h.2
