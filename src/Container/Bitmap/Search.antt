-- ===== src/Container/Bitmap/Search.antt =====
-- `Find0`, `Find1` and `IsFull` of container_bitmap.h against the least number that has a bit.
use comm_libs.Common.{
  ℕ, zero, suc, ◌+◌, ◌-◌, ◌*◌, ◌/◌, ◌%◌, ◌≤◌, ◌<◌, ◌≡◌, ◌≢◌, refl, Bool, true, false, not, none,
  some, List, [], ◌∷◌, arith, if◌then◌else◌, get_or, length, Bool-cases, inl, inr, sym, ap, subst,
  ℕ_discrete, ◌∙◌, ◌↔◌, ◌⊎◌,
}
use mathlib.Core.Path.{ap₂}
use native.Mathlib.Nat.{add_assoc, add-zero}
use comm_libs.Container.Bitmap.Byte.{bit_test}
use comm_libs.Container.Bitmap.{
  Bitmap, isset, Scan, found, rest, hit, scan_page, scan, page_list, find0, find1, is_full,
}
use comm_libs.Container.Bitmap.Bits.{IsValid, InRange, isset-some}

-- The least number above `i` and at most `i + k` whose predecessor passes the test, or 0.
first : (ℕ → Bool) → ℕ → ℕ → ℕ
first p zero i = 0
first p (suc k) i = let next = first p k (i + 1) in if p i then i + 1 else next

from_next : (p : ℕ → Bool) (i j : ℕ) → p i ≡ false → (i + 1 ≤ j → p j ≡ false) → i ≤ j → p j ≡ false
from_next p i j z f h = elim (ℕ_discrete i j) [
  | yes e ↦ subst (λ k. p k ≡ false) e z
  | no n ↦ f (omega arith)
]

first_lem :
    (p : ℕ → Bool) (k i : ℕ)
    → ((first p k i ≡ 0) × ((j : ℕ) → i ≤ j → j < i + k → p j ≡ false))
      ⊎ ((i < first p k i)
          × (first p k i ≤ i + k)
          × (p (first p k i - 1) ≡ true)
          × ((j : ℕ) → i ≤ j → j + 1 < first p k i → p j ≡ false))
unfolding first
first_lem p zero i = inl (refl, λ j h l. absurd (omega arith))
first_lem p (suc k) i = elim (Bool-cases (p i)) [
  | inl here ↦
      rw here
        (inr (omega arith, omega arith, ap p (omega arith) ∙ here, λ j h l. absurd (omega arith)))
  | inr skip ↦ elim (first_lem p k (i + 1)) [
    | inl (z, all) ↦ rw skip (inl (z, λ j h l. from_next p i j skip (λ q. all j q (omega arith)) h))
    | inr (lo, hi, won, before) ↦
        rw skip
          (inr (omega arith, omega arith, won, λ j h l. from_next p i j skip (λ q. before j q l) h))
  ]
]

module _ (want : Bool) (p : ℕ → Bool) where
  abbrev resolve : ℕ → Scan → ℕ
  resolve page (found n) = n
  resolve page (rest m) = first p m (page * 8 + 8)

  scan_page_lem :
      (rounds byte page offset max : ℕ)
      → offset + rounds ≡ 8
      → ((o : ℕ) → o < 8 → p (page * 8 + o) ≡ hit want (bit_test byte o))
      → resolve page (scan_page want rounds byte page offset max) ≡ first p max (page * 8 + offset)
  unfolding scan_page first
  scan_page_lem zero byte page offset max e h = ap (first p max) (omega arith)
  scan_page_lem (suc rounds) byte page offset zero e h = refl
  scan_page_lem (suc rounds) byte page offset (suc max) e h = ground (
    arith,
    h offset,
    scan_page_lem rounds byte page (offset + 1) max (omega arith) h,
    ap (first p max) (add_assoc (page * 8) offset 1),
  )

  scan_page_rest :
      (rounds byte page offset max m : ℕ)
      → scan_page want rounds byte page offset max ≡ rest m
      → m ≡ max - rounds
  unfolding scan_page
  scan_page_rest zero byte page offset max m h = ground arith
  scan_page_rest (suc rounds) byte page offset zero m h = ground arith
  scan_page_rest (suc rounds) byte page offset (suc max) m h =
      ground (arith, scan_page_rest rounds byte page (offset + 1) max m)

  -- One round of the outer loop, from what the inner loop returned.
  scan_step :
      (byte : ℕ) (ps : List ℕ) (page max : ℕ) (s : Scan)
      → max ≤ 8 * length (byte ∷ ps)
      → scan_page want 8 byte page 0 max ≡ s
      → resolve page s ≡ first p max (page * 8 + 0)
      → ((m : ℕ) → m ≤ 8 * length ps → scan want ps (page + 1) m ≡ first p m ((page + 1) * 8))
      → scan want (byte ∷ ps) page max ≡ first p max (page * 8)
  unfolding scan
  scan_step byte ps page max (found n) l e one next = rw (e, ← add-zero (page * 8)) one
  scan_step byte ps page max (rest zero) l e one next =
      rw (e, ← add-zero (page * 8)) (unfold first in one)
  scan_step byte ps page max (rest (suc m)) l e one next =
      rw (e, ← add-zero (page * 8))
        (next (suc m) (omega (arith, scan_page_rest 8 byte page 0 max (suc m) e))
          ∙ ap (first p (suc m)) (omega arith)
          ∙ one)

  scan_lem :
      (ps : List ℕ) (page max : ℕ)
      → max ≤ 8 * length ps
      → ((j o : ℕ) → o < 8 → p ((page + j) * 8 + o) ≡ hit want (bit_test (get_or ps j 0) o))
      → scan want ps page max ≡ first p max (page * 8)
  unfolding first
  scan_lem [] page zero l h = unfold scan in refl
  scan_lem [] page (suc max) l h = absurd (omega arith)
  scan_lem (byte ∷ ps) page max l h =
      scan_step byte ps page max _ l refl
        (scan_page_lem 8 byte page 0 max (omega arith)
          (λ o k. ap (λ n. p (n * 8 + o)) (sym (add-zero page)) ∙ h 0 o k))
        (λ m q.
          scan_lem ps (page + 1) m q
            (λ j o k. ap (λ n. p (n * 8 + o)) (omega arith) ∙ h (suc j) o k))

-- `r` is the least number in range whose membership is `want`, or 0 where there is none.
abbrev pub IsLeast : Bool → Bitmap → ℕ → Type 0
IsLeast want b r =
    (r ≡ 0 → (j : ℕ) → InRange j b → isset j b ≡ not want)
    × (r ≢ 0 → InRange r b × (isset r b ≡ want) × ((j : ℕ) → 0 < j → j < r → isset j b ≡ not want))

module _ (want : Bool) (b : Bitmap) (ps : List ℕ) (v : IsValid b ps) where
  bit_hit : ℕ → Bool
  bit_hit i = hit want (bit_test (get_or ps (i / 8) 0) (i % 8))

  isset-bit_hit : (j : ℕ) → InRange j b → bit_hit (j - 1) ≡ hit want (isset j b)
  unfolding bit_hit
  isset-bit_hit j r =
      rw (isset-some j b ps v.memory r)
        (ap (λ k. hit want (bit_test (get_or ps k 0) ((j - 1) % 8))) (omega (arith, v.small)))

  unhit : (c : Bool) → hit want c ≡ false → c ≡ not want
  unhit c h = ground arith

  hit_eq : (c : Bool) → hit want c ≡ true → c ≡ want
  hit_eq c h = ground arith

  scan-first : scan want (page_list b) 0 b.bit_max_size ≡ first bit_hit b.bit_max_size 0
  scan-first =
      ap (λ o. scan want (elim o [ none ↦ [] | some qs ↦ qs ]) 0 b.bit_max_size) v.memory
      ∙ scan_lem want bit_hit ps 0 b.bit_max_size (omega (arith, v.pages, v.page_count)) (λ j o k.
        unfold bit_hit in
        ap₂ (λ x y. hit want (bit_test (get_or ps x 0) y)) (omega arith) (omega arith))

  scan-IsLeast : IsLeast want b (scan want (page_list b) 0 b.bit_max_size)
  scan-IsLeast = rw scan-first (elim (first_lem bit_hit b.bit_max_size 0) [
    | inl (z, all) ↦ (
      λ _ j r.
          unhit (isset j b) (sym (isset-bit_hit j r) ∙ all (j - 1) (omega arith) (omega arith)),
      λ ne. absurd (ne z),
    )
    | inr (lo, hi, won, before) ↦ (
      λ z. absurd (omega arith),
      λ ne. (
        (lo, omega arith),
        hit_eq (isset _ b) (sym (isset-bit_hit _ (lo, omega arith)) ∙ won),
        λ j q l. unhit (isset j b) (
            sym (isset-bit_hit j (omega arith, omega arith))
            ∙ before (j - 1) (omega arith) (omega arith)),
      ),
    )
  ])

-- On a valid bitmap, `Find0` returns the least number in range that is no member and `Find1` the
-- least that is one, each 0 if there is none; `IsFull` is true exactly when every number in range
-- is a member.
pub find_lem :
    (b : Bitmap) {ps : List ℕ}
    → IsValid b ps
    → IsLeast false b (find0 b)
      × IsLeast true b (find1 b)
      × (is_full b ≡ true ↔ ((j : ℕ) → InRange j b → isset j b ≡ true))
unfolding find0 find1 is_full
find_lem b {ps} v =
    let least = scan-IsLeast false b ps v in
    (
      least,
      scan-IsLeast true b ps v,
      (
        λ f. least.0 (ground arith),
        λ all. elim (ℕ_discrete (find0 b) 0) [
          | yes z ↦ ground arith
          | no n ↦ absurd (let (r, c, _) = least.1 n in ground (arith, all (find0 b) r))
        ],
      ),
    )
