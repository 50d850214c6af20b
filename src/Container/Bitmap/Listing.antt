-- ===== src/Container/Bitmap/Listing.antt =====
-- The three `Print` functions of container_bitmap.h as lists of the members.
use comm_libs.Common.{
  ℕ, zero, suc, ◌+◌, ◌-◌, ◌*◌, ◌/◌, ◌%◌, ◌≤◌, ◌<◌, ◌≡◌, refl, Bool, none, some, List, [], ◌∷◌, ◌++◌,
  arith, ◌==◌, if◌then◌else◌, get_or, length, sym, ap, ◌∙◌,
}
use mathlib.Core.Path.{ap₂}
use mathlib.Core.List.{append_assoc}
use native.Mathlib.Nat.{add-zero}
use comm_libs.Container.Bitmap.Byte.{bit_test}
use comm_libs.Container.Bitmap.{
  Bitmap, isset, print_page, print_pages, page_list, print, print0, print1,
}
use comm_libs.Container.Bitmap.Bits.{IsValid, isset-some}

-- What the numbers from `i + 1` to `i + k` add, in order.
pub texts : (ℕ → Bool → List ℕ) → (ℕ → Bool) → ℕ → ℕ → List ℕ
texts emit p zero i = []
texts emit p (suc k) i = emit (i + 1) (p i) ++ texts emit p k (i + 1)

module _ (emit : ℕ → Bool → List ℕ) (p : ℕ → Bool) where
  print_page_lem :
      (rounds byte page offset max : ℕ)
      → offset + rounds ≡ 8
      → ((o : ℕ) → o < 8 → p (page * 8 + o) ≡ bit_test byte o)
      → (print_page emit rounds byte page offset max).0
          ++ texts emit p (print_page emit rounds byte page offset max).1 (page * 8 + 8)
        ≡ texts emit p max (page * 8 + offset)
  unfolding print_page texts
  print_page_lem zero byte page offset max e h = ap (texts emit p max) (omega arith)
  print_page_lem (suc rounds) byte page offset zero e h = refl
  print_page_lem (suc rounds) byte page offset (suc max) e h =
      append_assoc (emit (page * 8 + offset + 1) (bit_test byte offset)) _ _
      ∙ ap₂ ◌++◌ (ap (emit (page * 8 + offset + 1)) (sym (h offset (omega arith)))) (
          print_page_lem rounds byte page (offset + 1) max (omega arith) h
          ∙ ap (texts emit p max) (omega arith))

  print_page_left :
      (rounds byte page offset max : ℕ)
      → (print_page emit rounds byte page offset max).1 ≡ max - rounds
  unfolding print_page
  print_page_left zero byte page offset max = omega arith
  print_page_left (suc rounds) byte page offset zero = omega arith
  print_page_left (suc rounds) byte page offset (suc max) =
      omega (arith, print_page_left rounds byte page (offset + 1) max)

  texts_nil : (n i : ℕ) → n ≡ 0 → texts emit p n i ≡ []
  unfolding texts
  texts_nil zero i h = refl
  texts_nil (suc n) i h = absurd (omega arith)

  stop_lem : (n i : ℕ) → (if n == 0 then [] else texts emit p n i) ≡ texts emit p n i
  unfolding texts
  stop_lem zero i = refl
  stop_lem (suc n) i = ground arith

  print_pages_lem :
      (ps : List ℕ) (page max : ℕ)
      → max ≤ 8 * length ps
      → ((j o : ℕ) → o < 8 → p ((page + j) * 8 + o) ≡ bit_test (get_or ps j 0) o)
      → print_pages emit ps page max ≡ texts emit p max (page * 8)
  unfolding print_pages
  print_pages_lem [] page max l h = sym (texts_nil max (page * 8) (omega arith))
  print_pages_lem (byte ∷ ps) page max l h =
      ap
        (λ t.
          (print_page emit 8 byte page 0 max).0
          ++ (if (print_page emit 8 byte page 0 max).1 == 0 then [] else t))
        (print_pages_lem ps (page + 1) (print_page emit 8 byte page 0 max).1
            (omega (arith, print_page_left 8 byte page 0 max))
            (λ j o k. ap (λ n. p (n * 8 + o)) (omega arith) ∙ h (suc j) o k)
          ∙ ap (texts emit p (print_page emit 8 byte page 0 max).1) (omega arith))
      ∙ ap (λ t. (print_page emit 8 byte page 0 max).0 ++ t) (stop_lem _ (page * 8 + 8))
      ∙ print_page_lem 8 byte page 0 max (omega arith)
          (λ o k. ap (λ n. p (n * 8 + o)) (sym (add-zero page)) ∙ h 0 o k)
      ∙ ap (texts emit p max) (omega arith)

texts_congr :
    (emit : ℕ → Bool → List ℕ) (p q : ℕ → Bool) (k i : ℕ)
    → ((j : ℕ) → i ≤ j → j < i + k → p j ≡ q j)
    → texts emit p k i ≡ texts emit q k i
unfolding texts
texts_congr emit p q zero i h = refl
texts_congr emit p q (suc k) i h =
    ap₂ ◌++◌ (ap (emit (i + 1)) (h i (omega arith) (omega arith)))
      (texts_congr emit p q k (i + 1) (λ j a b. h j (omega arith) (omega arith)))

module _ (emit : ℕ → Bool → List ℕ) (b : Bitmap) (ps : List ℕ) (v : IsValid b ps) where
  bit_at : ℕ → Bool
  bit_at i = bit_test (get_or ps (i / 8) 0) (i % 8)

  print_pages-isset :
      print_pages emit (page_list b) 0 b.bit_max_size
      ≡ texts emit (λ i. isset (i + 1) b) b.bit_max_size 0
  print_pages-isset =
      ap (λ o. print_pages emit (elim o [ none ↦ [] | some qs ↦ qs ]) 0 b.bit_max_size) v.memory
      ∙ print_pages_lem emit bit_at ps 0 b.bit_max_size (omega (arith, v.pages, v.page_count))
          (λ j o k.
            unfold bit_at in ap₂ (λ x y. bit_test (get_or ps x 0) y) (omega arith) (omega arith))
      ∙ texts_congr emit bit_at (λ i. isset (i + 1) b) b.bit_max_size 0
          (λ j l r.
            unfold bit_at in
            ap₂ (λ x y. bit_test (get_or ps x 0) y) (omega (arith, v.small)) (omega arith)
            ∙ sym (isset-some (j + 1) b ps v.memory (omega arith)))

-- On a valid bitmap, `Print` writes one digit for each number from 1 to the size in order, 1 for a
-- member and 0 for any other; `Print1` writes the members and `Print0` the others, in order, each
-- with a space behind it.
pub print_lem :
    (to_string : ℕ → List ℕ) (b : Bitmap) {ps : List ℕ}
    → IsValid b ps
    → (print b
        ≡ texts (λ n c. (if c then b'1' else b'0') ∷ []) (λ i. isset (i + 1) b) b.bit_max_size 0)
      × (print1 to_string b
          ≡ texts
              (λ n c. if c then to_string n ++ b' ' ∷ [] else [])
              (λ i. isset (i + 1) b)
              b.bit_max_size
              0)
      × (print0 to_string b
          ≡ texts
              (λ n c. if c then [] else to_string n ++ b' ' ∷ [])
              (λ i. isset (i + 1) b)
              b.bit_max_size
              0)
unfolding print print0 print1
print_lem to_string b {ps} v =
    (print_pages-isset _ b ps v, print_pages-isset _ b ps v, print_pages-isset _ b ps v)
