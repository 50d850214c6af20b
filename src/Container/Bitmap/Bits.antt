-- ===== src/Container/Bitmap/Bits.antt =====
-- `Set`, `Unset` and `Isset` of container_bitmap.h as a set of numbers from 1 to the size.
use comm_libs.Common.{
  ℕ, zero, suc, ◌+◌, ◌/◌, ◌%◌, ◌^◌, ◌≤◌, ◌<◌, ◌≡◌, refl, Bool, true, false, some, List, [], ◌∷◌,
  arith, ◌==◌, if◌then◌else◌, get_or, set, length, length-set, Bool-cases, inl, inr, ap,
}
use comm_libs.Container.Bitmap.Byte.{
  bit_set, bit_clear, bit_test, bit_test-bit_set, bit_test-bit_clear, bytes_bound,
}
use comm_libs.Container.Bitmap.{
  success, bitmap_eoutbound, Bitmap, page_of, offset_of, create, copy, set_index, unset_index,
  isset, write_page, outbound,
}

-- All entries are bytes.
abbrev pub Bytes : List ℕ → Type 0
Bytes [] = Unit {0}
Bytes (x ∷ xs) = (x < 256) × Bytes xs

Bytes-get_or : (xs : List ℕ) (i : ℕ) → Bytes xs → get_or xs i 0 < 256
Bytes-get_or [] i h = omega arith
Bytes-get_or (x ∷ xs) zero h = h.0
Bytes-get_or (x ∷ xs) (suc i) h = Bytes-get_or xs i h.1

Bytes-set : (xs : List ℕ) (i v : ℕ) → Bytes xs → v < 256 → Bytes (set xs i v)
Bytes-set [] i v h l = tt
Bytes-set (x ∷ xs) zero v h l = (l, h.1)
Bytes-set (x ∷ xs) (suc i) v h l = (h.0, Bytes-set xs i v h.1 l)

get_or-set :
    (xs : List ℕ) (i j v : ℕ)
    → i < length xs
    → get_or (set xs i v) j 0 ≡ (if i == j then v else get_or xs j 0)
get_or-set [] i j v h = absurd (omega arith)
get_or-set (x ∷ xs) zero zero v h = refl
get_or-set (x ∷ xs) zero (suc j) v h = ground arith
get_or-set (x ∷ xs) (suc i) zero v h = ground arith
get_or-set (x ∷ xs) (suc i) (suc j) v h = ground (arith, get_or-set xs i j v (omega arith))

-- A bitmap with memory of the right length, whose size is far from the end of `size_t`.
pub record IsValid (b : Bitmap) (ps : List ℕ) : Type 0 where
  pub memory : b.pages ≡ some ps
  pub pages : length ps ≡ b.page_num
  pub page_count : b.page_num ≡ (b.bit_max_size + 7) / 8
  pub bytes : Bytes ps
  pub small : b.bit_max_size < 2 ^ 63

-- The bit of the number `index`.
abbrev pub bit_of : List ℕ → ℕ → Bool
bit_of ps index = bit_test (get_or ps (page_of index) 0) (offset_of index)

module _ (ps : List ℕ) (i j : ℕ) (hb : Bytes ps) (hi : i < 2 ^ 63) (hj : j < 2 ^ 63) (pi : 0 < i)
    (pj : 0 < j) (room : page_of i < length ps) where
  write_set : bit_of (write_page ps i bit_set) j ≡ (if i == j then true else bit_of ps j)
  unfolding write_page
  write_set = ground (
    arith,
    get_or-set ps (page_of i) (page_of j) (bit_set (get_or ps (page_of i) 0) (offset_of i)),
    bit_test-bit_set (get_or ps (page_of i) 0) (offset_of i) (offset_of j),
    Bytes-get_or ps (page_of i) hb,
  )

  write_clear : bit_of (write_page ps i bit_clear) j ≡ (if i == j then false else bit_of ps j)
  unfolding write_page
  write_clear = ground (
    arith,
    get_or-set ps (page_of i) (page_of j) (bit_clear (get_or ps (page_of i) 0) (offset_of i)),
    bit_test-bit_clear (get_or ps (page_of i) 0) (offset_of i) (offset_of j),
    Bytes-get_or ps (page_of i) hb,
  )

abbrev pub InRange : ℕ → Bitmap → Type 0
InRange i b = (0 < i) × (i ≤ b.bit_max_size)

pub isset-some :
    (j : ℕ) (b : Bitmap) (ps : List ℕ) → b.pages ≡ some ps → InRange j b → isset j b ≡ bit_of ps j
unfolding isset
isset-some j b ps m r = ground arith

pub isset-set_index :
    (i j : ℕ) (b : Bitmap) {ps : List ℕ}
    → IsValid b ps
    → InRange i b
    → InRange j b
    → ((set_index i b).0 ≡ success)
      × (isset j (set_index i b).1 ≡ (if i == j then true else isset j b))
unfolding set_index isset
isset-set_index i j b {ps} v ri rj = ground (arith, write_set ps i j v.bytes)

pub isset-unset_index :
    (i j : ℕ) (b : Bitmap) {ps : List ℕ}
    → IsValid b ps
    → InRange i b
    → InRange j b
    → ((unset_index i b).0 ≡ success)
      × (isset j (unset_index i b).1 ≡ (if i == j then false else isset j b))
unfolding unset_index isset
isset-unset_index i j b {ps} v ri rj = ground (arith, write_clear ps i j v.bytes)

pub update-size :
    (i : ℕ) (b : Bitmap) {ps : List ℕ}
    → b.pages ≡ some ps
    → ((set_index i b).1.bit_max_size ≡ b.bit_max_size)
      × ((unset_index i b).1.bit_max_size ≡ b.bit_max_size)
unfolding set_index unset_index
update-size i b m = ground arith

-- On a valid bitmap `Set` of a number in range succeeds and makes that number a member, `Unset` of it
-- succeeds and takes it out, and both leave every other number in range as it was.
pub isset-update :
    (i j : ℕ) (b : Bitmap) {ps : List ℕ}
    → IsValid b ps
    → InRange i b
    → InRange j b
    → ((set_index i b).0 ≡ success)
      × (isset j (set_index i b).1 ≡ (if i == j then true else isset j b))
      × ((unset_index i b).0 ≡ success)
      × (isset j (unset_index i b).1 ≡ (if i == j then false else isset j b))
isset-update i j b v ri rj =
    let (ok, now) = isset-set_index i j b v ri rj in
    let (ok', now') = isset-unset_index i j b v ri rj in (ok, now, ok', now')

write_page-Bytes :
    (ps : List ℕ) (i : ℕ)
    → Bytes ps
    → Bytes (write_page ps i bit_set) × Bytes (write_page ps i bit_clear)
unfolding write_page
write_page-Bytes ps i h =
    let (s, c) =
      bytes_bound (get_or ps (page_of i) 0) (offset_of i) (Bytes-get_or ps (page_of i) h)
        (omega arith) in
    (Bytes-set ps (page_of i) _ h s, Bytes-set ps (page_of i) _ h c)

length-write_page : (ps : List ℕ) (i : ℕ) (f : ℕ → ℕ → ℕ) → length (write_page ps i f) ≡ length ps
unfolding write_page
length-write_page ps i f = length-set ps (page_of i) _

abbrev pub HasMemory : Bitmap → Type 0
HasMemory b = (ps : List ℕ) × IsValid b ps

-- `Set` and `Unset` keep the bitmap valid, refuse every index outside 1 to the size with the code for
-- it, and then change nothing.
pub update-IsValid :
    (i : ℕ) (b : Bitmap)
    → HasMemory b
    → HasMemory (set_index i b).1
      × HasMemory (unset_index i b).1
      × (¬ InRange i b
          → (set_index i b ≡ (bitmap_eoutbound, b)) × (unset_index i b ≡ (bitmap_eoutbound, b)))
unfolding set_index unset_index
update-IsValid i b (ps, v) = elim (Bool-cases (outbound i b)) [
  | inl e ↦ ((ps, ground arith), (ps, ground arith), λ n. ground arith)
  | inr e ↦ (
    (
      write_page ps i bit_set,
      ground (arith, write_page-Bytes ps i v.bytes, length-write_page ps i bit_set),
    ),
    (
      write_page ps i bit_clear,
      ground (arith, write_page-Bytes ps i v.bytes, length-write_page ps i bit_clear),
    ),
    λ n. absurd (n (ground arith)),
  )
]

-- If `malloc` gives the bytes it is asked for and the size is below 2 ^ 63, the constructor gives
-- a valid bitmap whose members are whatever the bits of that memory say: it does not clear the
-- memory.
pub create-IsValid :
    (fresh : ℕ → List ℕ) (n j : ℕ)
    → ((k : ℕ) → (length (fresh k) ≡ k) × Bytes (fresh k))
    → n < 2 ^ 63
    → HasMemory (create fresh n)
      × (InRange j (create fresh n) → isset j (create fresh n) ≡ bit_of (fresh ((n + 7) / 8)) j)
unfolding create isset
create-IsValid fresh n j h l =
    let k = (n + 7) % 2 ^ 64 / 8 in
    let e : k ≡ (n + 7) / 8 = omega arith in
    ((fresh k, ground (arith, h k)), λ r. ground (arith, ap fresh e))

pub create-size : (fresh : ℕ → List ℕ) (n : ℕ) → (create fresh n).bit_max_size ≡ n
unfolding create
create-size fresh n = refl

pub copy-eq : (b : Bitmap) → copy b ≡ b
unfolding copy
copy-eq b = refl

copy-IsValid : (b : Bitmap) → HasMemory b → HasMemory (copy b)
unfolding copy
copy-IsValid b h = h

set_index-sizes :
    (i : ℕ) (b : Bitmap) {ps : List ℕ}
    → b.pages ≡ some ps
    → InRange i b
    → ((set_index i b).1.bit_cur_size ≡ (b.bit_cur_size + 1) % 2 ^ 64)
      × ((set_index i b).1.bit_max_size ≡ b.bit_max_size)
unfolding set_index
set_index-sizes i b m r = ground arith

-- `bit_cur_size_` counts calls and not bits: a second `Set` of a number changes no bit and adds one
-- more.
pub set_twice-bit_cur_size :
    (i j : ℕ) (b : Bitmap) {ps : List ℕ}
    → IsValid b ps
    → InRange i b
    → InRange j b
    → let once = (set_index i b).1 in
      let twice = (set_index i once).1 in
      (isset j twice ≡ isset j once) × (twice.bit_cur_size ≡ (b.bit_cur_size + 2) % 2 ^ 64)
set_twice-bit_cur_size i j b {ps} v ri rj =
    let (qs, v') = (update-IsValid i b (ps, v)).0 in
    ground (
      arith,
      set_index-sizes i b v.memory,
      set_index-sizes i (set_index i b).1 v'.memory,
      isset-set_index i j b v,
      isset-set_index i j (set_index i b).1 v',
    )
