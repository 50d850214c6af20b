-- ===== src/Ipc/ShmList/Members.antt =====
-- The slots that a list of libipc/ipc_shm_list.h holds, and what the list stands for.
use comm_libs.Common.{
  ℕ, zero, suc, ◌+◌, ◌≤◌, ◌<◌, ◌≡◌, ◌≢◌, refl, Bool, true, false, ◌||◌, Option, none, some, [], ◌∷◌,
  ◌++◌, length, if◌then◌else◌, ◌==◌, arith, Bool-cases, inl, inr,
}
use comm_libs.Container.Bitmap.Bits.{bit_of}
use comm_libs.Container.LinkList.{Node}
use comm_libs.Container.LinkList.Segment.{Cells, first, last, Segment, Avoids, Distinct}
use comm_libs.Ipc.ShmList.{ShmList}
use comm_libs.Ipc.ShmList.Slots.{IsMemory}

module _ {T : Type 0} where
  -- The slot is one of a list's.
  abbrev pub holds : ℕ → Cells T → Bool
  holds p [] = false
  holds p ((q, d) ∷ xs) = q == p || holds p xs

  -- Every node of a list has the number of its slot, which is one of `n`.
  abbrev pub Numbered : ℕ → (ℕ → ℕ) → Cells T → Type 0
  Numbered n index [] = Unit
  Numbered n index ((p, d) ∷ xs) = (0 < p) × (p ≤ n) × (index p ≡ p) × Numbered n index xs

  abbrev pub is_stored : Option (Node T) → Bool
  is_stored none = false
  is_stored (some n) = true

  -- The list has the elements `xs` in order, each with its slot.
  pub record Represents (l : ShmList T) (xs : Cells T) : Type 0 where
    pub opened : l.has_info ≡ true
    pub linked : Segment l.shared.nodes 0 xs 0
    pub distinct : Distinct xs
    pub at_head : l.head ≡ first xs 0
    pub at_tail : l.tail ≡ last 0 xs
    pub head_shared : l.shared.head_index ≡ first xs 0
    pub tail_shared : l.shared.tail_index ≡ last 0 xs
    pub counted : l.shared.cur_num ≡ length xs
    pub room : length xs ≤ l.shared.max_num
    pub memory : IsMemory l.shared.max_num l.shared.bytes
    pub numbered : Numbered l.shared.max_num l.shared.index xs
    pub marked : (p : ℕ) → 0 < p → p ≤ l.shared.max_num → bit_of l.shared.bytes p ≡ holds p xs
    pub stored : (p : ℕ) → 0 < p → p ≤ l.shared.max_num → is_stored (l.shared.nodes p) ≡ true

  pub not_held-Avoids : (q : ℕ) (xs : Cells T) → holds q xs ≡ false → Avoids q xs
  not_held-Avoids q [] h = tt
  not_held-Avoids q ((p, d) ∷ xs) h = (ground arith, not_held-Avoids q xs (ground arith))

  pub holds-Avoids : (q : ℕ) (xs : Cells T) → Avoids q xs → holds q xs ≡ false
  holds-Avoids q [] a = refl
  holds-Avoids q ((p, d) ∷ xs) a = ground (arith, holds-Avoids q xs a.1, a.0)

  pub holds-insert :
      (j c : ℕ) (d : T) (xs ys : Cells T)
      → holds j (xs ++ (c, d) ∷ ys) ≡ (if c == j then true else holds j (xs ++ ys))
  holds-insert j c d [] ys = ground arith
  holds-insert j c d ((p, e) ∷ xs) ys = ground (arith, holds-insert j c d xs ys)

  pub Numbered-append :
      (n : ℕ) (index : ℕ → ℕ) (xs ys : Cells T)
      → Numbered n index xs
      → Numbered n index ys
      → Numbered n index (xs ++ ys)
  Numbered-append n index [] ys a b = b
  Numbered-append n index ((p, d) ∷ xs) ys a b =
      (a.0, a.1, a.2, Numbered-append n index xs ys a.3 b)

  pub Numbered-split :
      (n : ℕ) (index : ℕ → ℕ) (xs ys : Cells T)
      → Numbered n index (xs ++ ys)
      → Numbered n index xs × Numbered n index ys
  Numbered-split n index [] ys a = (tt, a)
  Numbered-split n index ((p, d) ∷ xs) ys a =
      let (l, r) = Numbered-split n index xs ys a.3 in ((a.0, a.1, a.2, l), r)

  pub index-last :
      (n : ℕ) (index : ℕ → ℕ) (x : ℕ × T) (xs : Cells T)
      → Numbered n index (x ∷ xs)
      → index (last 0 (x ∷ xs)) ≡ last 0 (x ∷ xs)
  index-last n index (p, d) [] a = a.2
  index-last n index (p, d) (x ∷ xs) a = index-last n index x xs a.3

  -- A list without one of its slots.
  without : ℕ → Cells T → Cells T
  without q [] = []
  without q ((p, d) ∷ xs) = let rest = without q xs in if p == q then xs else (p, d) ∷ rest

  without_lem :
      (q : ℕ) (xs : Cells T)
      → holds q xs ≡ true
      → (length xs ≡ length (without q xs) + 1)
        × ((j : ℕ) → j ≢ q → holds j xs ≡ true → holds j (without q xs) ≡ true)
  unfolding without
  without_lem q [] h = cc
  without_lem q ((p, d) ∷ xs) h = elim (Bool-cases (p == q)) [
    | inl e ↦ rw e (omega arith, λ j ne k. ground arith)
    | inr e ↦
        let (size, keeps) = without_lem q xs (ground arith) in
        rw e (omega (arith, size), λ j ne k. ground (arith, keeps j ne))
  ]

  -- A list that holds the slots 1 to `n` has at least `n` nodes.
  pub length_of_full :
      (n : ℕ) (xs : Cells T) → ((j : ℕ) → 0 < j → j ≤ n → holds j xs ≡ true) → n ≤ length xs
  length_of_full zero xs all = omega arith
  length_of_full (suc n) xs all =
      let (size, keeps) = without_lem (suc n) xs (all (suc n) (omega arith) (omega arith)) in
      omega (
        arith,
        size,
        length_of_full n (without (suc n) xs)
            (λ j l h. keeps j (omega arith) (all j l (omega arith))),
      )
