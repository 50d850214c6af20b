-- ===== src/Thread/Role.antt =====
-- libthread/thread_role.cc: the roles of a thread as a bitmap (libcontainer/container_bitmap.h). The
-- calls over another whole role run the bitmap's loops, which take fuel and are no result (`none`)
-- where they have not ended. libprocess/process_role.cc is the same code for processes.
pub mod Sets
mod Examples
use comm_libs.Common.{ℕ, Bool, true, false, Option, none, some, List, [], ◌∷◌, if◌then◌else◌}
use comm_libs.Container.Bitmap
use comm_libs.Container.Bitmap.{
  Bitmap, set_index, unset_index, isset, set_all, unset_all, isset_all,
}

pub data RoleType : Type 0 where
  enum_begin normal parent child pool_worker pool_keeper enum_end : RoleType

abbrev pub value : RoleType → ℕ
value enum_begin = 0
value normal = 1
value parent = 2
value child = 3
value pool_worker = 4
value pool_keeper = 5
value enum_end = 6

pub record Role : Type 0 where
  pub bitmap : Bitmap

-- The copy constructors and `operator=`.
unfoldable pub copy : Role → Role
copy other = record { bitmap = Bitmap.copy other.bitmap }

-- `RoleAdd` and `operator+=` of a type, `RoleDelete` and `operator-=`; what `Set` and `Unset` return is
-- not read.
unfoldable pub add_type : RoleType → Role → Role
add_type t r = record { bitmap = (set_index (value t) r.bitmap).1 }

unfoldable pub delete_type : RoleType → Role → Role
delete_type t r = record { bitmap = (unset_index (value t) r.bitmap).1 }

-- `operator+` and `operator-` of a type.
unfoldable pub plus_type : Role → RoleType → Role
plus_type r t = add_type t (copy r)

unfoldable pub minus_type : Role → RoleType → Role
minus_type r t = delete_type t (copy r)

abbrev pub with_bitmap : Option (Bitmap.Return × Bitmap) → Option Role
with_bitmap none = none
with_bitmap (some (ret, b)) = some (record { bitmap = b })

-- `RoleAdd` and `operator+=` of a role, `RoleDelete` and `operator-=`.
unfoldable pub add_role : ℕ → (other r : Role) → Option Role
add_role fuel other r = with_bitmap (set_all fuel other.bitmap r.bitmap)

unfoldable pub delete_role : ℕ → (other r : Role) → Option Role
delete_role fuel other r = with_bitmap (unset_all fuel other.bitmap r.bitmap)

-- `operator+` and `operator-` of a role.
unfoldable pub plus_role : ℕ → (r other : Role) → Option Role
plus_role fuel r other = add_role fuel other (copy r)

unfoldable pub minus_role : ℕ → (r other : Role) → Option Role
minus_role fuel r other = delete_role fuel other (copy r)

-- `Has` of a type, of a role and of several types.
unfoldable pub has_type : RoleType → Role → Bool
has_type t r = isset (value t) r.bitmap

unfoldable pub has_role : ℕ → (other r : Role) → Option Bool
has_role fuel other r = isset_all fuel other.bitmap r.bitmap

unfoldable pub has_types : List RoleType → Role → Bool
has_types [] r = true
has_types (t ∷ ts) r = let rest = has_types ts r in if has_type t r then rest else false

-- The constructors; `fresh` is what the memory from `malloc` holds.
unfoldable pub create : (fresh : ℕ → List ℕ) → Role
create fresh = record { bitmap = Bitmap.create fresh (value enum_end) }

unfoldable pub add_types : List RoleType → Role → Role
add_types [] r = r
add_types (t ∷ ts) r = add_types ts (add_type t r)

unfoldable pub create_with : (fresh : ℕ → List ℕ) → List RoleType → Role
create_with fresh types = add_types types (create fresh)
