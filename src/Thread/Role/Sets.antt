-- ===== src/Thread/Role/Sets.antt =====
-- The roles of libthread/thread_role.cc as a set of types.
use comm_libs.Common.{
  ℕ, ◌≤◌, ◌<◌, ◌≡◌, ◌≢◌, refl, ap, ◌∙◌, Bool, true, false, ◌||◌, ◌&&◌, none, List, [], ◌∷◌, length,
  if◌then◌else◌, ◌==◌, arith,
}
use comm_libs.Container.Bitmap.{find1}
use comm_libs.Container.Bitmap.Bits.{
  Bytes, bit_of, HasMemory, isset-update, update-IsValid, update-size, create-IsValid, create-size,
  copy-eq,
}
use comm_libs.Container.Bitmap.Search.{find_lem}
use comm_libs.Container.Bitmap.Merge.{whole_bitmap_loops}
use comm_libs.Thread.Role.{
  RoleType, enum_begin, normal, parent, child, pool_worker, pool_keeper, enum_end, value, Role,
  copy, with_bitmap, add_type, delete_type, plus_type, minus_type, add_role, delete_role, plus_role,
  minus_role, has_type, has_types, create, add_types, create_with,
}

-- The bitmap of a role has memory and a bit for every type but the first.
pub record IsRole (r : Role) : Type 0 where
  pub memory : HasMemory r.bitmap
  pub size : r.bitmap.bit_max_size ≡ 6

-- The first value of the enumeration is no bit of the bitmap.
abbrev pub is_role : RoleType → Bool
is_role enum_begin = false
is_role _ = true

role_range : (t : RoleType) → is_role t ≡ true → (0 < value t) × (value t ≤ 6)
role_range enum_begin h = absurd (ground arith)
role_range normal h = omega arith
role_range parent h = omega arith
role_range child h = omega arith
role_range pool_worker h = omega arith
role_range pool_keeper h = omega arith
role_range enum_end h = omega arith

pub add_type-IsRole :
    (t : RoleType) (r : Role) → IsRole r → IsRole (add_type t r) × IsRole (delete_type t r)
unfolding add_type delete_type
add_type-IsRole t r v =
    let (a, b, _) = update-IsValid (value t) r.bitmap v.memory in
    let (p, q) = update-size (value t) r.bitmap v.memory.1.memory in
    (record { memory = a; size = p ∙ v.size }, record { memory = b; size = q ∙ v.size })

pub has_type-update :
    (t u : RoleType) (r : Role)
    → IsRole r
    → is_role t ≡ true
    → is_role u ≡ true
    → (has_type u (add_type t r) ≡ (if value t == value u then true else has_type u r))
      × (has_type u (delete_type t r) ≡ (if value t == value u then false else has_type u r))
unfolding has_type add_type delete_type
has_type-update t u r v ht hu =
    let (lo, hi) = role_range t ht in
    let (lo', hi') = role_range u hu in
    let (_, now, _, now') =
      isset-update (value t) (value u) r.bitmap v.memory.1 (lo, omega (arith, v.size))
        (lo', omega (arith, v.size)) in
    (now, now')

-- Whether a type is among the types.
abbrev pub among : RoleType → List RoleType → Bool
among u [] = false
among u (t ∷ ts) = value t == value u || among u ts

abbrev pub AreRoles : List RoleType → Type 0
AreRoles [] = Unit
AreRoles (t ∷ ts) = (is_role t ≡ true) × AreRoles ts

has_type-add_types :
    (ts : List RoleType) (u : RoleType) (r : Role)
    → IsRole r
    → AreRoles ts
    → is_role u ≡ true
    → has_type u (add_types ts r) ≡ (among u ts || has_type u r)
unfolding add_types
has_type-add_types [] u r v h hu = refl
has_type-add_types (t ∷ ts) u r v h hu =
    has_type-add_types ts u (add_type t r) (add_type-IsRole t r v).0 h.1 hu
    ∙ ground (arith, has_type-update t u r v h.0 hu)

add_types-IsRole : (ts : List RoleType) (r : Role) → IsRole r → IsRole (add_types ts r)
unfolding add_types
add_types-IsRole [] r v = v
add_types-IsRole (t ∷ ts) r v = add_types-IsRole ts (add_type t r) (add_type-IsRole t r v).0

pub create_with-IsRole :
    (fresh : ℕ → List ℕ) (ts : List RoleType)
    → ((k : ℕ) → (length (fresh k) ≡ k) × Bytes (fresh k))
    → IsRole (create_with fresh ts)
unfolding create_with create
create_with-IsRole fresh ts h =
    add_types-IsRole ts _
      (record { memory = (create-IsValid fresh 6 1 h (omega arith)).0; size = create-size fresh 6 })

copied : (r : Role) → copy r ≡ r
unfolding copy
copied r = ap (λ b. record { bitmap = b }) (copy-eq r.bitmap)

-- On a role with memory, for the types above the first value of the enumeration: `RoleAdd`, `+=` and
-- `+` of a type add that type and no other, and `RoleDelete`, `-=` and `-` take that type away and no
-- other.
pub has_type-operators :
    (t u : RoleType) (r : Role)
    → IsRole r
    → is_role t ≡ true
    → is_role u ≡ true
    → (has_type u (add_type t r) ≡ (value t == value u || has_type u r))
      × (has_type u (plus_type r t) ≡ (value t == value u || has_type u r))
      × (has_type u (delete_type t r) ≡ (if value t == value u then false else has_type u r))
      × (has_type u (minus_type r t) ≡ (if value t == value u then false else has_type u r))
unfolding plus_type minus_type
has_type-operators t u r v ht hu =
    let (added, deleted) = has_type-update t u r v ht hu in
    let added' : has_type u (add_type t r) ≡ (value t == value u || has_type u r) =
      added ∙ ground arith in
    (
      added',
      ap (λ k. has_type u (add_type t k)) (copied r) ∙ added',
      deleted,
      ap (λ k. has_type u (delete_type t k)) (copied r) ∙ deleted,
    )

abbrev every_among : (RoleType → Bool) → List RoleType → Bool
every_among p [] = true
every_among p (t ∷ ts) = p t && every_among p ts

-- For types above EnumBegin: a role from types has those types, and any other type exactly if the
-- memory from `malloc` happens to hold its bit; `Has` of several types is true exactly if each of them
-- is one of its types.
pub has_types-create_with :
    (fresh : ℕ → List ℕ) (ts us : List RoleType)
    → ((k : ℕ) → (length (fresh k) ≡ k) × Bytes (fresh k))
    → AreRoles ts
    → AreRoles us
    → has_types us (create_with fresh ts)
      ≡ every_among (λ u. among u ts || bit_of (fresh 1) (value u)) us
unfolding has_types create_with create
has_types-create_with fresh ts [] h hts hus = refl
has_types-create_with fresh ts (u ∷ us) h hts hus =
    let (memory, bits) = create-IsValid fresh 6 (value u) h (omega arith) in
    let size = create-size fresh 6 in
    let (lo, hi) = role_range u hus.0 in
    let start : has_type u (create fresh) ≡ bit_of (fresh 1) (value u) =
      unfold has_type in bits (lo, omega (arith, size)) in
    let one =
      has_type-add_types ts u (create fresh) (record { memory = memory; size = size }) hts hus.0 in
    ground (arith, one, start, has_types-create_with fresh ts us h hts hus.1)

-- Where a role with memory has some type, adding that role to another one with memory, or taking it
-- away, by any of the operators, does not return.
pub whole_role_loops :
    (fuel : ℕ) (u : RoleType) (other r : Role)
    → IsRole other
    → IsRole r
    → is_role u ≡ true
    → has_type u other ≡ true
    → (add_role fuel other r ≡ none)
      × (delete_role fuel other r ≡ none)
      × (plus_role fuel r other ≡ none)
      × (minus_role fuel r other ≡ none)
unfolding add_role delete_role plus_role minus_role has_type
whole_role_loops fuel u other r vo vr hu has =
    let (lo, hi) = role_range u hu in
    let (_, least, _) = find_lem other.bitmap vo.memory.1 in
    let found : find1 other.bitmap ≢ 0 =
      λ z. cc (least.0 z (value u) (lo, omega (arith, vo.size)), has) in
    let (adds, deletes, _, _) =
      whole_bitmap_loops fuel other.bitmap r.bitmap vr.memory.1.memory
        (omega (arith, vo.size, vr.size)) found in
    let added : add_role fuel other r ≡ none = ap with_bitmap adds in
    let deleted : delete_role fuel other r ≡ none = ap with_bitmap deletes in
    (
      added,
      deleted,
      ap (λ k. add_role fuel other k) (copied r) ∙ added,
      ap (λ k. delete_role fuel other k) (copied r) ∙ deleted,
    )
