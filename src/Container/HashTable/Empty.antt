-- ===== src/Container/HashTable/Empty.antt =====
-- container_hash_table.h: `empty`, and indices that no slot has.
use comm_libs.Common.{
  ℕ, zero, suc, ◌+◌, ◌≤◌, ◌<◌, ◌≡◌, refl, ap, ◌∙◌, Option, none, some, List, [], ◌∷◌, length,
  get_elem?, arith, if◌then◌else◌, ◌==◌, inl, inr, Bool-cases, ltb, ltb→lt, ltb_false→le,
}
use comm_libs.Common.Access.{done, outside}
use comm_libs.Container.HashTable.{
  ehashindex, Table, set_ret, is_present, insert_at, remove_at, find_at, destruct, empty_loop,
  empty,
}
use comm_libs.Container.HashTable.Slots.{occupied, get_elem?-some}
use comm_libs.Container.HashTable.Content.{
  IsValid, slot_value, look, Content, put, Refines, destruct-Refines,
}

module _ {T : Type 0} (first_byte : T → ℕ) where
  empty_loop-Refines :
      (rounds loop : ℕ) (t : Table T) (m : Content T) {n : ℕ}
      → Refines first_byte n t m
      → loop + rounds ≡ n
      → ((j : ℕ) → j < loop → m j ≡ none)
      → (t' : Table T) × (m' : Content T) × (empty_loop first_byte rounds loop t ≡ done t')
        × Refines first_byte n t' m'
        × ((j : ℕ) → j < n → m' j ≡ none)
  unfolding empty_loop
  empty_loop-Refines zero loop t m r h gone = (t, m, refl, r, λ j k. gone j (omega arith))
  empty_loop-Refines (suc rounds) loop t m r h gone =
      let in_range : loop < length t.memblock = omega (arith, r.sized, r.valid.slots) in
      let (old, e) = get_elem?-some t.memblock loop in_range in
      let next = destruct-Refines first_byte loop t m r (omega arith) e in
      rw (e, empty_loop)
        (empty_loop-Refines rounds (loop + 1)
          (destruct first_byte (is_present first_byte old) loop t) (put loop none m) next
          (omega arith) (λ j k. ground (arith, gone j)))

  nothing_behind : (ss : List (Option T)) (j : ℕ) → length ss ≤ j → get_elem? ss j ≡ none
  nothing_behind [] j h = refl
  nothing_behind (s ∷ ss) zero h = absurd (omega arith)
  nothing_behind (s ∷ ss) (suc j) h = nothing_behind ss j (omega arith)

  occupied-none :
      (ss : List (Option T))
      → ((j : ℕ) → slot_value first_byte (get_elem? ss j) ≡ none)
      → occupied first_byte ss ≡ 0
  occupied-none [] h = refl
  occupied-none (none ∷ ss) h = ground (arith, occupied-none ss (λ j. h (suc j)))
  occupied-none (some element ∷ ss) h = ground (arith, h 0, occupied-none ss (λ j. h (suc j)))

  cleared :
      (t : Table T) (m : Content T) {n : ℕ}
      → Refines first_byte n t m
      → ((j : ℕ) → j < n → m j ≡ none)
      → Refines first_byte n t (λ j. none) × (t.count ≡ 0) × (t.freesize ≡ n)
  cleared t m {n} r gone =
      let all : (j : ℕ) → look first_byte t j ≡ none = λ j. elim (Bool-cases (ltb j n)) [
        | inl k ↦ r.same j ∙ gone j (ltb→lt j n k)
        | inr k ↦ ap (slot_value first_byte) (
            nothing_behind t.memblock j (omega (arith, ltb_false→le j n k, r.valid.slots, r.sized)))
      ] in
      let zero_left = occupied-none t.memblock all in
      (
        record { sized = r.sized; valid = r.valid; same = all },
        omega (arith, zero_left, r.valid.counted),
        omega (arith, zero_left, r.valid.counted, r.valid.free, r.sized),
      )

  -- `empty` on a table that holds a partial map ends without leaving the slots, and the table is then
  -- valid, holds the empty map, counts 0 elements and has all its slots free.
  pub empty-Refines :
      (t : Table T) (m : Content T) {n : ℕ}
      → Refines first_byte n t m
      → (t' : Table T) × (empty first_byte t ≡ done t')
        × Refines first_byte n t' (λ j. none)
        × (t'.count ≡ 0)
        × (t'.freesize ≡ n)
  unfolding empty
  empty-Refines t m {n} r =
      let (t', m', e, s, gone) =
        empty_loop-Refines n 0 t m r (omega arith) (λ j k. absurd (omega arith)) in
      let c = cleared t' m' s gone in
      (t', ap (λ k. empty_loop first_byte k 0 t) r.sized ∙ e, c.0, c.1, c.2)

  -- For an index that no slot of a valid table has, that is, the number of slots or more: the calls
  -- of `insert`, `remove` and `find` with the index reach memory behind the slots where it is the
  -- number of slots, and where it is greater they refuse it, find nothing and change the last return
  -- value only.
  pub index_beyond :
      (element : T) (i : ℕ) (t : Table T)
      → IsValid first_byte t
      → t.size ≤ i
      → (insert_at first_byte element i t
          ≡ (if i == t.size then outside else done (none, set_ret ehashindex t)))
        × (remove_at first_byte i t
            ≡ (if i == t.size then outside else done (set_ret ehashindex t)))
        × (find_at first_byte i t
            ≡ (if i == t.size then outside else done (none, set_ret ehashindex t)))
  unfolding insert_at remove_at find_at
  index_beyond element i t v h =
      let nothing = nothing_behind t.memblock i (omega (arith, v.slots)) in
      rw nothing (ground arith, ground arith, ground arith)
