-- ===== src/Ipc/ShmList/Slots.antt =====
-- The bitmap of the slots of libipc/ipc_shm_list.h, attached to its bytes anew at every call.
use comm_libs.Common.{
  ℕ, ◌+◌, ◌/◌, ◌^◌, ◌≤◌, ◌<◌, ◌≡◌, ◌≢◌, sym, ap, ◌∙◌, true, false, List, [], none, length, some,
  if◌then◌else◌, ◌==◌, arith,
}
use comm_libs.Container.Bitmap.{Bitmap, success, set_index, unset_index, isset, find0, page_list}
use comm_libs.Container.Bitmap.Bits.{
  Bytes, IsValid, InRange, bit_of, isset-some, isset-update, update-IsValid, update-size,
}
use comm_libs.Container.Bitmap.Search.{find_lem}

-- The memory of a bitmap of `n` slots.
pub record IsMemory (n : ℕ) (bytes : List ℕ) : Type 0 where
  pub small : n < 2 ^ 63
  pub pages : length bytes ≡ (n + 7) / 8
  pub all_bytes : Bytes bytes

-- A bitmap over given memory has that memory and the size that it is given.
pub record Attaches (attach : ℕ → List ℕ → Bitmap) : Type 0 where
  pub valid : (n : ℕ) (bytes : List ℕ) → IsMemory n bytes → IsValid (attach n bytes) bytes
  pub size : (n : ℕ) (bytes : List ℕ) → IsMemory n bytes → (attach n bytes).bit_max_size ≡ n

module _ (attach : ℕ → List ℕ → Bitmap) (w : Attaches attach) (n : ℕ) (bytes : List ℕ)
    (m : IsMemory n bytes) where
  isset-bit_of : (j : ℕ) → 0 < j → j ≤ n → isset j (attach n bytes) ≡ bit_of bytes j
  isset-bit_of j lo hi =
      isset-some j (attach n bytes) bytes (w.valid n bytes m).memory
        (omega (arith, w.size n bytes m))

  -- The memory of a bitmap after a call that keeps its size.
  module _ (b : Bitmap) {ps : List ℕ} (v : IsValid b ps) (same : b.bit_max_size ≡ n) where
    pages_of : page_list b ≡ ps
    pages_of = ap (λ o. elim o [ none ↦ [] | some qs ↦ qs ]) v.memory

    kept : IsMemory n (page_list b)
    kept = rw pages_of (record {
      small = m.small;
      pages = omega (arith, v.pages, v.page_count);
      all_bytes = v.bytes;
    })

    kept_bit : (j : ℕ) → 0 < j → j ≤ n → bit_of (page_list b) j ≡ isset j b
    kept_bit j lo hi = rw pages_of (sym (isset-some j b ps v.memory (omega arith)))

  module _ (i : ℕ) (lo : 0 < i) (hi : i ≤ n) where
    -- `Set` of a slot.
    pub set_slot :
        ((set_index i (attach n bytes)).0 ≡ success)
        × IsMemory n (page_list (set_index i (attach n bytes)).1)
        × ((j : ℕ)
            → 0 < j
            → j ≤ n
            → bit_of (page_list (set_index i (attach n bytes)).1) j
              ≡ (if i == j then true else bit_of bytes j))
    set_slot =
        let b = attach n bytes in
        let v = w.valid n bytes m in
        let size = w.size n bytes m in
        let ((ps, v'), _, _) = update-IsValid i b (bytes, v) in
        let same = (update-size i b v.memory).0 ∙ size in
        let inside : InRange i b = (lo, omega arith) in
        (
          (isset-update i i b v inside inside).0,
          kept (set_index i b).1 v' same,
          λ j l h.
              kept_bit (set_index i b).1 v' same j l h
              ∙ (isset-update i j b v inside (l, omega arith)).1
              ∙ rw (isset-bit_of j l h),
        )

    -- `Unset` of a slot.
    pub unset_slot :
        IsMemory n (page_list (unset_index i (attach n bytes)).1)
        × ((j : ℕ)
            → 0 < j
            → j ≤ n
            → bit_of (page_list (unset_index i (attach n bytes)).1) j
              ≡ (if i == j then false else bit_of bytes j))
    unset_slot =
        let b = attach n bytes in
        let v = w.valid n bytes m in
        let size = w.size n bytes m in
        let (_, (ps, v'), _) = update-IsValid i b (bytes, v) in
        let same = (update-size i b v.memory).1 ∙ size in
        let inside : InRange i b = (lo, omega arith) in
        (
          kept (unset_index i b).1 v' same,
          λ j l h.
              kept_bit (unset_index i b).1 v' same j l h
              ∙ (isset-update i j b v inside (l, omega arith)).3
              ∙ rw (isset-bit_of j l h),
        )

  -- `Find0` gives a free slot, or 0 where all are in use.
  pub free_slot :
      (find0 (attach n bytes) ≢ 0
        → (0 < find0 (attach n bytes))
          × (find0 (attach n bytes) ≤ n)
          × (bit_of bytes (find0 (attach n bytes)) ≡ false))
      × (find0 (attach n bytes) ≡ 0 → (j : ℕ) → 0 < j → j ≤ n → bit_of bytes j ≡ true)
  free_slot =
      let (least, _, _) = find_lem (attach n bytes) (w.valid n bytes m) in
      (
        λ ne.
            let (r, c, _) = least.1 ne in
            (
              r.0,
              omega (arith, w.size n bytes m),
              sym (isset-bit_of _ r.0 (omega (arith, w.size n bytes m))) ∙ c,
            ),
        λ z j l h. sym (isset-bit_of j l h) ∙ least.0 z j (omega (arith, w.size n bytes m)),
      )
