-- ===== src/Container/HashTable/Refinement.antt =====
-- container_hash_table.h: the operations by key against a partial map from indices.
use comm_libs.Common.{
  ℕ, zero, suc, ◌%◌, ◌^◌, ◌<◌, ◌≡◌, ◌≢◌, refl, sym, subst, ◌∙◌, false, Option, none, some, List, [],
  ◌∷◌, get_elem?, arith, if◌then◌else◌, ◌==◌, replicate, length-replicate,
}
use comm_libs.Common.Access.{Access, done, outside}
use comm_libs.Container.HashTable.{
  Ret, Table, create, insert_at, remove_at, find_at, with_hash, insert, remove, find,
}
use comm_libs.Container.HashTable.Slots.{occupied-replicate}
use comm_libs.Container.HashTable.Content.{
  slot_value, Content, put, Refines, insert_at-Refines, remove_at-Refines, find_at-Refines,
}

-- Calls by key, in the order they are made.
pub data Command (T K : Type 0) : Type 0 where
  inserted : T → K → Command T K
  removed : K → Command T K

-- The partial map that the calls stand for, over `size` indices.
abbrev pub effect : {T K : Type 0} → (K → ℕ) → ℕ → List (Command T K) → Content T → Content T
effect hashcode size [] m = m
effect hashcode size (inserted element key ∷ cs) m =
    effect hashcode size cs (put (hashcode key % size) (some element) m)
effect hashcode size (removed key ∷ cs) m =
    effect hashcode size cs (put (hashcode key % size) none m)

positive : (n : ℕ) → 0 < n → (n == 0) ≡ false
positive n h = ground arith

module _ {T : Type 0} (first_byte : T → ℕ) where
  module _ {K : Type 0} (hashcode : K → ℕ) where
    pub run : List (Command T K) → Table T → Access (Table T)
    run [] t = done t
    run (inserted element key ∷ cs) t = elim (insert first_byte hashcode element key t) [
      | done (slot, t') ↦ run cs t'
      | outside ↦ outside
    ]
    run (removed key ∷ cs) t = elim (remove first_byte hashcode key t) [
      | done t' ↦ run cs t'
      | outside ↦ outside
    ]

    abbrev pub AllShown : List (Command T K) → Type 0
    AllShown [] = Unit
    AllShown (inserted element key ∷ cs) = (first_byte element ≢ 0) × AllShown cs
    AllShown (removed key ∷ cs) = AllShown cs

    with_hash_lem :
        {A : Type 0} (key : K) (t : Table T) (act : ℕ → Access A) {n : ℕ}
        → t.size ≡ n
        → 0 < n
        → with_hash first_byte hashcode key t act ≡ act (hashcode key % n)
    with_hash_lem key t act {n} e h =
        subst (λ s. (if s == 0 then outside else act (hashcode key % s)) ≡ act (hashcode key % n))
          (sym e) (rw (positive n h))

    insert-Refines :
        (element : T) (key : K) (t : Table T) (m : Content T) {n : ℕ}
        → first_byte element ≢ 0
        → Refines first_byte n t m
        → 0 < n
        → (t' : Table T) × (insert first_byte hashcode element key t
            ≡ done (some (hashcode key % n), t'))
          × Refines first_byte n t' (put (hashcode key % n) (some element) m)
    unfolding insert
    insert-Refines element key t m {n} shown r h =
        rw (with_hash_lem key t (λ hash. insert_at first_byte element hash t) r.sized h)
          (insert_at-Refines first_byte element (hashcode key % n) t m shown r (omega arith))

    remove-Refines :
        (key : K) (t : Table T) (m : Content T) {n : ℕ}
        → Refines first_byte n t m
        → 0 < n
        → (t' : Table T) × (remove first_byte hashcode key t ≡ done t')
          × Refines first_byte n t' (put (hashcode key % n) none m)
    unfolding remove
    remove-Refines key t m {n} r h =
        rw (with_hash_lem key t (λ hash. remove_at first_byte hash t) r.sized h)
          (remove_at-Refines first_byte (hashcode key % n) t m r (omega arith))

    find-Refines :
        (key : K) (t : Table T) (m : Content T) {n : ℕ}
        → Refines first_byte n t m
        → 0 < n
        → find first_byte hashcode key t ≡ done (m (hashcode key % n), t)
    unfolding find
    find-Refines key t m {n} r h =
        with_hash_lem key t (λ hash. find_at first_byte hash t) r.sized h
        ∙ find_at-Refines first_byte (hashcode key % n) t m r (omega arith)

    run-Refines :
        (cs : List (Command T K)) (t : Table T) (m : Content T) {n : ℕ}
        → AllShown cs
        → Refines first_byte n t m
        → 0 < n
        → (t' : Table T) × (run cs t ≡ done t') × Refines first_byte n t' (effect hashcode n cs m)
    unfolding run
    run-Refines [] t m all r h = (t, refl, r)
    run-Refines (inserted element key ∷ cs) t m all r h =
        let (u, e, s) = insert-Refines element key t m all.0 r h in
        rw (e, run) (run-Refines cs u (put _ _ m) all.1 s h)
    run-Refines (removed key ∷ cs) t m all r h =
        let (u, e, s) = remove-Refines key t m r h in
        rw (e, run) (run-Refines cs u (put _ _ m) all s h)

    -- After any calls of `insert` and `remove` by key on a table that holds a partial map, where no
    -- inserted element has the first byte 0 and there is a slot: no call leaves the slots, the table
    -- is valid and holds the map that the calls make, in which a key stands for its hash modulo the
    -- number of slots, and `find` gives what that map has for a key and changes nothing.
    pub calls-find :
        (cs : List (Command T K)) (key : K) (t : Table T) (m : Content T) {n : ℕ}
        → AllShown cs
        → Refines first_byte n t m
        → 0 < n
        → (t' : Table T) × (run cs t ≡ done t')
          × Refines first_byte n t' (effect hashcode n cs m)
          × (find first_byte hashcode key t' ≡ done (effect hashcode n cs m (hashcode key % n), t'))
    calls-find cs key t m all r h =
        let (t', e, s) = run-Refines cs t m all r h in
        (t', e, s, find-Refines key t' (effect hashcode _ cs m) s h)

  nothing_there : (n j : ℕ) → slot_value first_byte (get_elem? (replicate n none) j) ≡ none
  nothing_there zero j = refl
  nothing_there (suc n) zero = refl
  nothing_there (suc n) (suc j) = nothing_there n j

  -- A new table of fewer than 2^64 slots is valid and holds the empty map.
  pub create-Refines :
      (garbage : Ret) (n : ℕ) → n < 2 ^ 64 → Refines first_byte n (create garbage n) (λ j. none)
  unfolding create
  create-Refines garbage n h = record {
    sized = refl;
    valid = ground (arith, length-replicate {A = Option T} n none, occupied-replicate first_byte n);
    same = λ j. nothing_there n j;
  }
