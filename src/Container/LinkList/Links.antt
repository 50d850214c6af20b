-- ===== src/Container/LinkList/Links.antt =====
-- What one write of a link in container_link_list.h does to the runs of nodes.
use comm_libs.Common.{
  ℕ, ◌≡◌, ◌≢◌, sym, subst, none, some, [], ◌∷◌, ◌++◌, arith, if◌then◌else◌, ◌==◌,
}
use comm_libs.Container.LinkList.{Node, Store, with_prev, with_next}
use comm_libs.Container.LinkList.Segment.{
  Cells, first, last, Segment, Avoids, Distinct, Agree, Segment-Agree, Distinct-around,
}

module _ {T : Type 0} where
  Agree-Avoids :
      (s s' : Store T) (q : ℕ) (xs : Cells T)
      → ((p : ℕ) → p ≢ q → s' p ≡ s p)
      → Avoids q xs
      → Agree s s' xs
  Agree-Avoids s s' q [] same a = tt
  Agree-Avoids s s' q ((p, d) ∷ xs) same a = (same p a.0, Agree-Avoids s s' q xs same a.1)

  -- A run that avoids the address stays as it is.
  pub frame :
      (s s' : Store T) (before after q : ℕ) (xs : Cells T)
      → ((p : ℕ) → p ≢ q → s' p ≡ s p)
      → Avoids q xs
      → Segment s before xs after
      → Segment s' before xs after
  frame s s' before after q xs same a seg =
      Segment-Agree s s' before after xs (Agree-Avoids s s' q xs same a) seg

  pub frame_next :
      (s : Store T) (before after q v : ℕ) (xs : Cells T)
      → Avoids q xs
      → Segment s before xs after
      → Segment (with_next q v s) before xs after
  frame_next s before after q v xs =
      frame s (with_next q v s) before after q xs (λ p h. ground arith)

  pub frame_prev :
      (s : Store T) (before after q v : ℕ) (xs : Cells T)
      → Avoids q xs
      → Segment s before xs after
      → Segment (with_prev q v s) before xs after
  frame_prev s before after q v xs =
      frame s (with_prev q v s) before after q xs (λ p h. ground arith)

  pub last_avoided : (before q : ℕ) (xs : Cells T) → before ≢ q → Avoids q xs → last before xs ≢ q
  last_avoided before q [] h a = h
  last_avoided before q ((p, d) ∷ xs) h a = last_avoided p q xs a.0 a.1

  pub last_nonnull : (x : ℕ × T) (xs : Cells T) → Distinct (x ∷ xs) → last 0 (x ∷ xs) ≢ 0
  last_nonnull (p, d) [] h = h.0
  last_nonnull (p, d) (x ∷ xs) h = last_nonnull x xs h.2

  -- The last of the left nodes is none of the right ones.
  pub last-Avoids :
      (x : ℕ × T) (xs ys : Cells T) → Distinct ((x ∷ xs) ++ ys) → Avoids (last 0 (x ∷ xs)) ys
  last-Avoids (p, d) [] ys h = h.1
  last-Avoids (p, d) (x ∷ xs) ys h = last-Avoids x xs ys h.2

  pub first-Avoids :
      (xs : Cells T) (q : ℕ) (f : T) (ys : Cells T) → Distinct (xs ++ (q, f) ∷ ys) → Avoids q xs
  first-Avoids xs q f ys h = (Distinct-around xs ys q f h).1

  pub last_next :
      (s : Store T) (before after v : ℕ) (xs : Cells T)
      → Distinct xs
      → Segment s before xs after
      → Segment (with_next (last before xs) v s) before xs v
  last_next s before after v [] h seg = tt
  last_next s before after v ((p, d) ∷ []) h seg = (ground (arith, seg.0), tt)
  last_next s before after v ((p, d) ∷ (q, e) ∷ xs) h seg = (
    ground (arith, seg.0, last_avoided q p xs h.1.0 h.1.1),
    last_next s p after v ((q, e) ∷ xs) h.2 seg.1,
  )

  pub first_prev :
      (s : Store T) (before after v otherwise : ℕ) (xs : Cells T)
      → Distinct xs
      → Segment s before xs after
      → Segment (with_prev (first xs otherwise) v s) v xs after
  first_prev s before after v otherwise [] h seg = tt
  first_prev s before after v otherwise ((p, d) ∷ xs) h seg =
      (ground (arith, seg.0), frame_prev s p after p v xs h.1 seg.1)

  -- A node that is not allocated is none of a run.
  pub Avoids-unused :
      (s : Store T) (before after q : ℕ) (xs : Cells T)
      → s q ≡ none
      → Segment s before xs after
      → Avoids q xs
  Avoids-unused s before after q [] free seg = tt
  Avoids-unused s before after q ((p, d) ∷ xs) free seg = (
    λ e. cc (seg.0, subst (λ k. s k ≡ none) (sym e) free),
    Avoids-unused s p after q xs free seg.1,
  )

  pub last_stored :
      (s : Store T) (before after : ℕ) (x : ℕ × T) (xs : Cells T)
      → Segment s before (x ∷ xs) after
      → (n : Node T) × (s (last before (x ∷ xs)) ≡ some n)
  last_stored s before after (p, d) [] seg = (_, seg.0)
  last_stored s before after (p, d) (x ∷ xs) seg = last_stored s p after x xs seg.1

  -- A run keeps its nodes when another one is freed.
  pub frame_free :
      (s : Store T) (before after q : ℕ) (xs : Cells T)
      → Avoids q xs
      → Segment s before xs after
      → Segment (λ p. if q == p then none else s p) before xs after
  frame_free s before after q xs =
      frame s (λ p. if q == p then none else s p) before after q xs (λ p h. ground arith)
