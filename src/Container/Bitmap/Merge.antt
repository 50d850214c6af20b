-- ===== src/Container/Bitmap/Merge.antt =====
-- The operations of container_bitmap.h that take a second bitmap.
use comm_libs.Common.{
  ℕ, zero, suc, ◌≤◌, ◌≡◌, ◌≢◌, refl, true, false, none, some, arith, if◌then◌else◌, List,
}
use comm_libs.Container.Bitmap.{
  Bitmap, isset, set_index, unset_index, find1, set_loop, unset_loop, isset_loop, set_all,
  unset_all, isset_all, count_one_more, count_one_less,
}

set_loop_stuck : (fuel : ℕ) (other b : Bitmap) → find1 other ≢ 0 → set_loop fuel other b ≡ none
unfolding set_loop
set_loop_stuck zero other b h = refl
set_loop_stuck (suc fuel) other b h =
    ground (
      arith,
      set_loop_stuck fuel other (if isset 1 b then b else count_one_more (set_index 1 b).1) h,
    )

unset_loop_stuck : (fuel : ℕ) (other b : Bitmap) → find1 other ≢ 0 → unset_loop fuel other b ≡ none
unfolding unset_loop
unset_loop_stuck zero other b h = refl
unset_loop_stuck (suc fuel) other b h = ground (
  arith,
  unset_loop_stuck fuel other (if isset 1 b then count_one_less (unset_index 1 b).1 else b) h,
)

isset_loop_stuck :
    (fuel : ℕ) (other b : Bitmap)
    → find1 other ≢ 0
    → isset 1 b ≡ true
    → isset_loop fuel other b ≡ none
unfolding isset_loop
isset_loop_stuck zero other b h k = refl
isset_loop_stuck (suc fuel) other b h k = ground (arith, isset_loop_stuck fuel other b h k)

-- Where the other bitmap has a member, is no larger, and this one has memory, `Set` and `Unset` of it
-- never return, and neither does `Isset` of it if the number 1 is a member of this one; without it
-- `Isset` answers false, whatever the other members are.
pub whole_bitmap_loops :
    (fuel : ℕ) (other b : Bitmap) {ps : List ℕ}
    → b.pages ≡ some ps
    → other.bit_max_size ≤ b.bit_max_size
    → find1 other ≢ 0
    → (set_all fuel other b ≡ none)
      × (unset_all fuel other b ≡ none)
      × (isset 1 b ≡ true → isset_all fuel other b ≡ none)
      × (isset 1 b ≡ false → isset_all (suc fuel) other b ≡ some false)
unfolding set_all unset_all isset_all
whole_bitmap_loops fuel other b m l h = ground (
  arith,
  set_loop_stuck fuel other b h,
  unset_loop_stuck fuel other b h,
  isset_loop_stuck fuel other b h,
)
