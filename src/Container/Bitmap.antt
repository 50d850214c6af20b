-- ===== src/Container/Bitmap.antt =====
-- libcontainer/container_bitmap.h: the numbers 1 to `bit_max_size_` as bits of an array of bytes. A
-- byte is its bit pattern below 256, whatever the sign of `char`; `size_t` wraps at 2^64.
pub mod Byte
pub mod Bits
pub mod Search
pub mod Merge
pub mod Listing
mod Examples
use comm_libs.Common.{
  ℕ, zero, suc, ◌+◌, ◌-◌, ◌*◌, ◌/◌, ◌%◌, ◌^◌, Bool, true, false, not, Option, none, some, List, [],
  ◌∷◌, ◌++◌, ◌==◌, ltb, ◌||◌, if◌then◌else◌, get_or, set,
}
use comm_libs.Container.Bitmap.Byte.{bit_set, bit_clear, bit_test}

pub data Return : Type 0 where
  success bitmap_init bitmap_eoutbound : Return

-- `pages` is `none` for a null `page_head_`.
pub record Bitmap : Type 0 where
  pub pages : Option (List ℕ)
  pub page_num : ℕ
  pub bit_max_size : ℕ
  pub bit_cur_size : ℕ

abbrev pub page_size : ℕ
page_size = 8

-- The constructor; `fresh` is what the memory from `malloc` holds, which the code does not clear.
pub create : (fresh : ℕ → List ℕ) → ℕ → Bitmap
create fresh bit_size =
    let n = (bit_size + (page_size - 1)) % 2 ^ 64 / page_size in
    record { pages = some (fresh n); page_num = n; bit_max_size = bit_size; bit_cur_size = 0 }

-- The copy constructor and `operator=` from another object: the memory is copied whole.
pub copy : Bitmap → Bitmap
copy other = record {
  pages = other.pages;
  page_num = other.page_num;
  bit_max_size = other.bit_max_size;
  bit_cur_size = other.bit_cur_size;
}

-- The index of a page and the offset in it, for an index from 1.
abbrev pub page_of : ℕ → ℕ
page_of index = (index + page_size - 1) % 2 ^ 64 / page_size - 1

abbrev pub offset_of : ℕ → ℕ
offset_of index = (index - 1) % page_size

abbrev outbound : ℕ → Bitmap → Bool
outbound index b = index == 0 || ltb b.bit_max_size index

write_page : List ℕ → ℕ → (ℕ → ℕ → ℕ) → List ℕ
write_page ps index f = set ps (page_of index) (f (get_or ps (page_of index) 0) (offset_of index))

pub set_bit : Option (List ℕ) → ℕ → Bitmap → Return × Bitmap
unfolding write_page
set_bit none index b = (bitmap_init, b)
set_bit (some ps) index b = if outbound index b then (bitmap_eoutbound, b) else (
  success,
  record b {
    pages = some (write_page ps index bit_set);
    bit_cur_size = (b.bit_cur_size + 1) % 2 ^ 64;
  },
)

-- `Set(size_t)`
pub set_index : ℕ → Bitmap → Return × Bitmap
unfolding set_bit
set_index index b = set_bit b.pages index b

pub unset_bit : Option (List ℕ) → ℕ → Bitmap → Return × Bitmap
unfolding write_page
unset_bit none index b = (bitmap_init, b)
unset_bit (some ps) index b = if outbound index b then (bitmap_eoutbound, b) else (
  success,
  record b {
    pages = some (write_page ps index bit_clear);
    bit_cur_size = (b.bit_cur_size + 2 ^ 64 - 1) % 2 ^ 64;
  },
)

-- `Unset(size_t)`
pub unset_index : ℕ → Bitmap → Return × Bitmap
unfolding unset_bit
unset_index index b = unset_bit b.pages index b

isset_in : Option (List ℕ) → ℕ → Bitmap → Bool
isset_in none index b = false
isset_in (some ps) index b =
    if outbound index b then false else bit_test (get_or ps (page_of index) 0) (offset_of index)

-- `Isset(size_t)`
pub isset : ℕ → Bitmap → Bool
unfolding isset_in
isset index b = isset_in b.pages index b

-- How the inner loop of `Find0` and `Find1` ends: with a return, or with what `tmp_max_bit` is then.
pub data Scan : Type 0 where
  found : ℕ → Scan
  rest : ℕ → Scan

abbrev pub hit : (want bit : Bool) → Bool
hit true bit = bit
hit false bit = not bit

-- The inner loop, from `page_offset` with `rounds` to go.
scan_page : (want : Bool) (rounds byte page_index page_offset tmp_max_bit : ℕ) → Scan
scan_page want zero byte page_index page_offset tmp_max_bit = rest tmp_max_bit
scan_page want (suc rounds) byte page_index page_offset zero = rest 0
scan_page want (suc rounds) byte page_index page_offset (suc tmp_max_bit) =
    let next = scan_page want rounds byte page_index (page_offset + 1) tmp_max_bit in
    if hit want (bit_test byte page_offset)
    then found (page_index * page_size + page_offset + 1)
    else next

-- The outer loop, over the pages from `page_index` on.
scan : (want : Bool) → List ℕ → (page_index tmp_max_bit : ℕ) → ℕ
unfolding scan_page
scan want [] page_index tmp_max_bit = 0
scan want (byte ∷ ps) page_index tmp_max_bit =
    elim (scan_page want page_size byte page_index 0 tmp_max_bit) [
      | found n ↦ n
      | rest zero ↦ 0
      | rest (suc m) ↦ scan want ps (page_index + 1) (suc m)
    ]

-- A null `page_head_` comes with no pages.
abbrev pub page_list : Bitmap → List ℕ
page_list b = elim b.pages [ none ↦ [] | some ps ↦ ps ]

pub find0 : Bitmap → ℕ
find0 b = scan false (page_list b) 0 b.bit_max_size

pub find1 : Bitmap → ℕ
find1 b = scan true (page_list b) 0 b.bit_max_size

pub is_full : Bitmap → Bool
is_full b = find0 b == 0

-- `while ((index = bitmap.Find1() != 0))`: `index` is the truth of the comparison, so 1, and the body
-- changes nothing of `bitmap`. `none` is a loop that has not ended within the fuel.
abbrev count_one_more : Bitmap → Bitmap
count_one_more b = record b { bit_cur_size = (b.bit_cur_size + 1) % 2 ^ 64 }

abbrev count_one_less : Bitmap → Bitmap
count_one_less b = record b { bit_cur_size = (b.bit_cur_size + 2 ^ 64 - 1) % 2 ^ 64 }

set_loop : ℕ → (other b : Bitmap) → Option Bitmap
set_loop zero other b = none
set_loop (suc fuel) other b =
    let next = set_loop fuel other (if isset 1 b then b else count_one_more (set_index 1 b).1) in
    if find1 other == 0 then some b else next

unset_loop : ℕ → (other b : Bitmap) → Option Bitmap
unset_loop zero other b = none
unset_loop (suc fuel) other b =
    let next =
      unset_loop fuel other (if isset 1 b then count_one_less (unset_index 1 b).1 else b) in
    if find1 other == 0 then some b else next

isset_loop : ℕ → (other b : Bitmap) → Option Bool
isset_loop zero other b = none
isset_loop (suc fuel) other b =
    let next = isset_loop fuel other b in
    if find1 other == 0 then some true else if isset 1 b then next else some false

abbrev has_pages : Bitmap → Bool
has_pages b = elim b.pages [ none ↦ false | some ps ↦ true ]

-- `Set(Bitmap&&)`
pub set_all : ℕ → (other b : Bitmap) → Option (Return × Bitmap)
unfolding set_loop
set_all fuel other b =
    if has_pages b
    then if ltb b.bit_max_size other.bit_max_size
      then some (bitmap_eoutbound, b)
      else elim (set_loop fuel other b) [ none ↦ none | some t ↦ some (success, t) ]
    else some (bitmap_init, b)

-- `Unset(Bitmap&&)`
pub unset_all : ℕ → (other b : Bitmap) → Option (Return × Bitmap)
unfolding unset_loop
unset_all fuel other b =
    if has_pages b
    then if ltb b.bit_max_size other.bit_max_size
      then some (bitmap_eoutbound, b)
      else elim (unset_loop fuel other b) [ none ↦ none | some t ↦ some (success, t) ]
    else some (bitmap_init, b)

-- `Isset(Bitmap&&)`
pub isset_all : ℕ → (other b : Bitmap) → Option Bool
unfolding isset_loop
isset_all fuel other b =
    if has_pages b
    then if ltb b.bit_max_size other.bit_max_size then some false else isset_loop fuel other b
    else some false

-- The inner loop of `Print`, `Print0` and `Print1`: the text that it appends, where `emit` gives what
-- one number adds, and `tmp_max_bit` after it.
print_page : (emit : ℕ → Bool → List ℕ) (rounds byte page offset max : ℕ) → List ℕ × ℕ
print_page emit zero byte page offset max = ([], max)
print_page emit (suc rounds) byte page offset zero = ([], 0)
print_page emit (suc rounds) byte page offset (suc max) =
    let (text, left) = print_page emit rounds byte page (offset + 1) max in
    (emit (page * page_size + offset + 1) (bit_test byte offset) ++ text, left)

print_pages : (emit : ℕ → Bool → List ℕ) → List ℕ → (page max : ℕ) → List ℕ
unfolding print_page
print_pages emit [] page max = []
print_pages emit (byte ∷ ps) page max =
    let (text, left) = print_page emit page_size byte page 0 max in
    let next = print_pages emit ps (page + 1) left in text ++ (if left == 0 then [] else next)

pub print : Bitmap → List ℕ
print b = print_pages (λ n bit. (if bit then b'1' else b'0') ∷ []) (page_list b) 0 b.bit_max_size

-- `to_string` is `std::to_string`.
pub print1 : (to_string : ℕ → List ℕ) → Bitmap → List ℕ
print1 to_string b =
    print_pages (λ n bit. if bit then to_string n ++ b' ' ∷ [] else []) (page_list b) 0
      b.bit_max_size

pub print0 : (to_string : ℕ → List ℕ) → Bitmap → List ℕ
print0 to_string b =
    print_pages (λ n bit. if bit then [] else to_string n ++ b' ' ∷ []) (page_list b) 0
      b.bit_max_size
