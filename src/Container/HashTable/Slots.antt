-- ===== src/Container/HashTable/Slots.antt =====
-- How many slots of container_hash_table.h hold an element.
use comm_libs.Common.{
  ℕ, zero, suc, ◌+◌, ◌≤◌, ◌<◌, ◌≡◌, refl, Bool, Option, none, some, List, [], ◌∷◌, length,
  get_elem?, set, replicate, arith, if◌then◌else◌,
}
use comm_libs.Container.HashTable.{is_present}

abbrev pub one_if : Bool → ℕ
one_if b = if b then 1 else 0

module _ {T : Type 0} (first_byte : T → ℕ) where
  abbrev pub occupied : List (Option T) → ℕ
  occupied [] = 0
  occupied (s ∷ ss) = one_if (is_present first_byte s) + occupied ss

  pub occupied-set :
      (ss : List (Option T)) (i : ℕ) (new : Option T) {old : Option T}
      → get_elem? ss i ≡ some old
      → occupied (set ss i new) + one_if (is_present first_byte old)
        ≡ occupied ss + one_if (is_present first_byte new)
  occupied-set [] i new e = absurd (ground arith)
  occupied-set (s ∷ ss) zero new {old} e = let q : s ≡ old = ground (arith, e) in rw q (omega arith)
  occupied-set (s ∷ ss) (suc i) new e = omega (arith, occupied-set ss i new e)

  pub occupied-le-length : (ss : List (Option T)) → occupied ss ≤ length ss
  occupied-le-length [] = omega arith
  occupied-le-length (s ∷ ss) = ground (arith, occupied-le-length ss)

  pub occupied-replicate : (n : ℕ) → occupied (replicate n none) ≡ 0
  occupied-replicate zero = refl
  occupied-replicate (suc n) = ground (arith, occupied-replicate n)

pub get_elem?-some :
    {A : Type 0} (xs : List A) (i : ℕ) → i < length xs → (x : A) × (get_elem? xs i ≡ some x)
get_elem?-some [] i h = absurd (omega arith)
get_elem?-some (x ∷ xs) zero h = (x, refl)
get_elem?-some (x ∷ xs) (suc i) h = get_elem?-some xs i (omega arith)
