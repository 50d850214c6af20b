-- ===== src/Container/HashTable/Content.antt =====
-- The table of container_hash_table.h as a partial map from indices.
use comm_libs.Common.{
  ℕ, ◌+◌, ◌^◌, ◌<◌, ◌≡◌, ◌≢◌, refl, sym, ap, ◌∙◌, Bool, true, false, Option, none, some, List,
  length, get_elem?, set, arith, if◌then◌else◌, ◌==◌, length-set, get_elem?-set_self,
  get_elem?-set_ne, inl, inr, Bool-cases, ==_iff, subst,
}
use comm_libs.Common.Access.{done}
use comm_libs.Container.HashTable.{
  Table, is_present, construct, insert_at, destruct, remove_at, if_present, find_at,
}
use comm_libs.Container.HashTable.Slots.{occupied, occupied-set, occupied-le-length, get_elem?-some}

-- What a table promises: a partial map from indices to elements.
abbrev pub Content : Type 0 → Type 0
Content T = ℕ → Option T

abbrev pub put : {T : Type 0} → ℕ → Option T → Content T → Content T
put i v m j = if i == j then v else m j

module _ {T : Type 0} (first_byte : T → ℕ) where
  -- The counters count the slots that hold an element and those that do not.
  pub record IsValid (t : Table T) : Type 0 where
    pub slots : length t.memblock ≡ t.size
    pub counted : t.count ≡ occupied first_byte t.memblock
    pub free : t.freesize + t.count ≡ t.size
    pub small : t.size < 2 ^ 64

  abbrev pub slot_value : Option (Option T) → Option T
  slot_value none = none
  slot_value (some slot) = if_present first_byte slot

  -- The element at an index.
  abbrev pub look : Table T → ℕ → Option T
  look t j = slot_value (get_elem? t.memblock j)

  get_elem?-set :
      (ss : List (Option T)) (i j : ℕ) (v : Option T)
      → i < length ss
      → get_elem? (set ss i v) j ≡ (if i == j then some v else get_elem? ss j)
  get_elem?-set ss i j v h = elim (Bool-cases (i == j)) [
    | inl e ↦ rw e (
        subst (λ k. get_elem? (set ss i v) k ≡ some v) ((==_iff i j).0 e)
          (get_elem?-set_self ss i v h))
    | inr e ↦ rw e (get_elem?-set_ne ss v (λ q. ground (arith, q, e)))
  ]

  look-set :
      (ss : List (Option T)) (i j : ℕ) (v : Option T)
      → i < length ss
      → slot_value (get_elem? (set ss i v) j)
        ≡ (if i == j then if_present first_byte v else slot_value (get_elem? ss j))
  look-set ss i j v h = ground (arith, get_elem?-set ss i j v h)

  pub construct-IsValid :
      (element : T) (i : ℕ) (t : Table T) {old : Option T}
      → first_byte element ≢ 0
      → IsValid t
      → get_elem? t.memblock i ≡ some old
      → IsValid (construct first_byte (is_present first_byte old) element i t)
  construct-IsValid element i t {old} shown v e =
      let new = set t.memblock i (some element) in
      let same = length-set t.memblock i (some element) in
      let one = occupied-set first_byte t.memblock i (some element) e in
      let bound = occupied-le-length first_byte new in
      elim (Bool-cases (is_present first_byte old)) [
        | inl q ↦ rw q (ground (arith, same, one, bound, shown, q))
        | inr q ↦ rw q (ground (arith, same, one, bound, shown, q))
      ]

  pub destruct-IsValid :
      (i : ℕ) (t : Table T) {old : Option T}
      → IsValid t
      → get_elem? t.memblock i ≡ some old
      → IsValid (destruct first_byte (is_present first_byte old) i t)
  destruct-IsValid i t {old} v e =
      let same = length-set t.memblock i none in
      let one = occupied-set first_byte t.memblock i none e in
      let bound = occupied-le-length first_byte t.memblock in
      elim (Bool-cases (is_present first_byte old)) [
        | inl q ↦ rw q (ground (arith, same, one, bound, q))
        | inr q ↦ rw q v
      ]

  construct_memblock :
      (element : T) (i : ℕ) (t : Table T) (b : Bool)
      → (construct first_byte b element i t).memblock ≡ set t.memblock i (some element)
  construct_memblock element i t true = refl
  construct_memblock element i t false = refl

  construct_size :
      (element : T) (i : ℕ) (t : Table T) (b : Bool)
      → (construct first_byte b element i t).size ≡ t.size
  construct_size element i t true = refl
  construct_size element i t false = refl

  destruct_size : (i : ℕ) (t : Table T) (b : Bool) → (destruct first_byte b i t).size ≡ t.size
  destruct_size i t true = refl
  destruct_size i t false = refl

  absent-if_present :
      (s : Option T) → is_present first_byte s ≡ false → if_present first_byte s ≡ none
  absent-if_present none e = refl
  absent-if_present (some element) e = ground (arith, e)

  pub destruct-look :
      (i j : ℕ) (t : Table T) {old : Option T}
      → i < length t.memblock
      → get_elem? t.memblock i ≡ some old
      → look (destruct first_byte (is_present first_byte old) i t) j
        ≡ (if i == j then none else look t j)
  destruct-look i j t {old} h e = elim (Bool-cases (is_present first_byte old)) [
    | inl q ↦ rw q (look-set t.memblock i j none h)
    | inr q ↦ rw q (elim (Bool-cases (i == j)) [
      | inl same ↦ rw same (
          subst (λ k. look t k ≡ none) ((==_iff i j).0 same)
            (ap slot_value e ∙ absent-if_present old q))
      | inr other ↦ rw other
    ])
  ]

  pub record Refines (n : ℕ) (t : Table T) (m : Content T) : Type 0 where
    pub sized : t.size ≡ n
    pub valid : IsValid t
    pub same : (j : ℕ) → look t j ≡ m j

  pub insert_at-Refines :
      (element : T) (i : ℕ) (t : Table T) (m : Content T) {n : ℕ}
      → first_byte element ≢ 0
      → Refines n t m
      → i < n
      → (t' : Table T) × (insert_at first_byte element i t ≡ done (some i, t'))
        × Refines n t' (put i (some element) m)
  unfolding insert_at
  insert_at-Refines element i t m shown r h =
      let in_range : i < length t.memblock = omega (arith, r.sized, r.valid.slots) in
      let (old, e) = get_elem?-some t.memblock i in_range in
      let block = construct_memblock element i t (is_present first_byte old) in
      (
        construct first_byte (is_present first_byte old) element i t,
        ground (arith, e),
        record {
          sized = construct_size element i t (is_present first_byte old) ∙ r.sized;
          valid = construct-IsValid element i t shown r.valid e;
          same = λ j.
              rw block (ground (arith, look-set t.memblock i j (some element) in_range, r.same j));
        },
      )

  pub destruct-Refines :
      (i : ℕ) (t : Table T) (m : Content T) {n : ℕ} {old : Option T}
      → Refines n t m
      → i < n
      → get_elem? t.memblock i ≡ some old
      → Refines n (destruct first_byte (is_present first_byte old) i t) (put i none m)
  destruct-Refines i t m {old} r h e = record {
    sized = destruct_size i t (is_present first_byte old) ∙ r.sized;
    valid = destruct-IsValid i t r.valid e;
    same = λ j.
        destruct-look i j t (omega (arith, r.sized, r.valid.slots)) e ∙ ground (arith, r.same j);
  }

  pub remove_at-Refines :
      (i : ℕ) (t : Table T) (m : Content T) {n : ℕ}
      → Refines n t m
      → i < n
      → (t' : Table T) × (remove_at first_byte i t ≡ done t') × Refines n t' (put i none m)
  unfolding remove_at
  remove_at-Refines i t m r h =
      let in_range : i < length t.memblock = omega (arith, r.sized, r.valid.slots) in
      let (old, e) = get_elem?-some t.memblock i in_range in
      (
        destruct first_byte (is_present first_byte old) i t,
        ground (arith, e),
        destruct-Refines i t m r h e,
      )

  pub find_at_slot :
      (i : ℕ) (t : Table T) {old : Option T}
      → i < t.size
      → get_elem? t.memblock i ≡ some old
      → find_at first_byte i t ≡ done (if_present first_byte old, t)
  unfolding find_at
  find_at_slot i t {old} h e = ground (arith, e)

  pub find_at-Refines :
      (i : ℕ) (t : Table T) (m : Content T) {n : ℕ}
      → Refines n t m
      → i < n
      → find_at first_byte i t ≡ done (m i, t)
  find_at-Refines i t m r h =
      let (old, e) = get_elem?-some t.memblock i (omega (arith, r.sized, r.valid.slots)) in
      find_at_slot i t (omega (arith, r.sized)) e
      ∙ ap (λ x. done (x, t)) (sym (ap slot_value e) ∙ r.same i)
