-- ===== src/Thread/Role/Examples.antt =====
-- The theorems on libthread/thread_role.cc at a role over zeroed memory.
use comm_libs.Common.{
  ℕ, zero, suc, ◌≡◌, refl, true, none, List, [], ◌∷◌, length, length-replicate, replicate, arith,
}
use comm_libs.Container.Bitmap.Bits.{Bytes}
use comm_libs.Thread.Role.{
  parent, Role, add_role, delete_role, plus_role, minus_role, has_type, has_types, create_with,
}
use comm_libs.Thread.Role.Sets.{IsRole, has_types-create_with, whole_role_loops, create_with-IsRole}

abbrev zeros : ℕ → List ℕ
zeros k = replicate k 0

zeros-Bytes : (k : ℕ) → Bytes (zeros k)
zeros-Bytes zero = tt
zeros-Bytes (suc k) = (omega arith, zeros-Bytes k)

zeros_lem : (k : ℕ) → (length (zeros k) ≡ k) × Bytes (zeros k)
zeros_lem k = (length-replicate k 0, zeros-Bytes k)

abbrev parents : Role
parents = create_with zeros (parent ∷ [])

parents-IsRole : IsRole parents
parents-IsRole = create_with-IsRole zeros (parent ∷ []) zeros_lem

has_types-create_with_example : has_types (parent ∷ []) parents ≡ true
has_types-create_with_example =
    has_types-create_with zeros (parent ∷ []) (parent ∷ []) zeros_lem (refl, tt) (refl, tt)

has_parent : has_type parent parents ≡ true
unfolding has_types
has_parent = ground (arith, has_types-create_with_example)

whole_role_loops_example :
    (add_role 100 parents parents ≡ none)
    × (delete_role 100 parents parents ≡ none)
    × (plus_role 100 parents parents ≡ none)
    × (minus_role 100 parents parents ≡ none)
whole_role_loops_example =
    whole_role_loops 100 parent parents parents parents-IsRole parents-IsRole refl has_parent
