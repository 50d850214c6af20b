-- ===== src/Container/Bitmap/Examples.antt =====
-- The numbers 1, 3 and 10 among 1 to 10.
use comm_libs.Common.{
  ℕ, ◌≡◌, refl, true, false, some, List, [], ◌∷◌, arith, ◌==◌, if◌then◌else◌, length, replicate,
  zero, suc, ◌↔◌,
}
use comm_libs.Container.Bitmap.{
  Bitmap, success, set_index, unset_index, isset, find0, find1, is_full, print, scan, print_pages,
}
use comm_libs.Container.Bitmap.Bits.{IsValid, InRange, Bytes, isset-update}
use comm_libs.Container.Bitmap.Byte.{bit_test}
use comm_libs.Container.Bitmap.Search.{IsLeast, find_lem}

abbrev three : Bitmap
three = record { pages = some (5 ∷ 2 ∷ []); page_num = 2; bit_max_size = 10; bit_cur_size = 3 }

abbrev three_pages : List ℕ
three_pages = 5 ∷ 2 ∷ []

three-IsValid : IsValid three three_pages
three-IsValid = record {
  memory = refl;
  pages = refl;
  page_count = refl;
  bytes = omega arith;
  small = omega arith;
}

searches : (find0 three ≡ 2) × (find1 three ≡ 1) × (is_full three ≡ false)
unfolding find0 find1 is_full scan bit_test
searches = (refl, refl, refl)

printed : print three ≡ b'1' ∷ b'0' ∷ b'1' ∷ b'0' ∷ b'0' ∷ b'0' ∷ b'0' ∷ b'0' ∷ b'0' ∷ b'1' ∷ []
unfolding print print_pages bit_test
printed = refl

isset-update_example :
    ((set_index 10 three).0 ≡ success)
    × (isset 2 (set_index 10 three).1 ≡ (if 10 == 2 then true else isset 2 three))
    × ((unset_index 10 three).0 ≡ success)
    × (isset 2 (unset_index 10 three).1 ≡ (if 10 == 2 then false else isset 2 three))
isset-update_example = isset-update 10 2 three three-IsValid (omega arith) (omega arith)

zeros : ℕ → List ℕ
zeros n = replicate n 0

zeros_lem : (k : ℕ) → (length (zeros k) ≡ k) × Bytes (zeros k)
unfolding zeros
zeros_lem zero = (refl, tt)
zeros_lem (suc k) = let (l, b) = zeros_lem k in (omega arith, (omega arith, b))

find_lem_example :
    IsLeast false three (find0 three)
    × IsLeast true three (find1 three)
    × (is_full three ≡ true ↔ ((j : ℕ) → InRange j three → isset j three ≡ true))
find_lem_example = find_lem three three-IsValid
