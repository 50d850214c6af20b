-- ===== src/StdMap.antt =====
-- `std::map` as the code uses it: one value to a key. The order of the keys is left out, since no
-- function of the code depends on it.
use comm_libs.Common.{◌≡◌, ◌≢◌, refl, Bool, false, ◌||◌, Option, none, some, List, [], ◌∷◌, arith}
use mathlib.Core.Logic.{ite}

abbrev pub Map {ℓ} : Type ℓ → Type ℓ → Type ℓ
Map K V = List (K × V)

-- Whether some entry has a key that passes a test: the loops over a map that look for one.
unfoldable pub any_key {ℓ} : {K V : Type ℓ} → (K → Bool) → Map K V → Bool
any_key p [] = false
any_key p ((k, v) ∷ m) = p k || any_key p m

module _ {ℓ} {K V : Type ℓ} (same : Discrete K) where
  unfoldable pub find : K → Map K V → Option V
  find k [] = none
  find k ((j, v) ∷ m) = ite (same j k) (some v) (find k m)

  -- `insert` of a new key and `it->second = v` at one that is there.
  unfoldable pub assign : K → V → Map K V → Map K V
  assign k v [] = (k, v) ∷ []
  assign k v ((j, w) ∷ m) = ite (same j k) ((j, v) ∷ m) ((j, w) ∷ assign k v m)

  -- The list may hold a key twice only if a caller built it so; all entries of the key go.
  unfoldable pub erase : K → Map K V → Map K V
  erase k [] = []
  erase k ((j, w) ∷ m) = ite (same j k) (erase k m) ((j, w) ∷ erase k m)

  pub find-assign :
      (j k : K) (v : V) (m : Map K V) → find j (assign k v m) ≡ ite (same k j) (some v) (find j m)
  unfolding find assign
  find-assign j k v [] = refl
  find-assign j k v ((i, w) ∷ m) = ground (arith, find-assign j k v m)

  pub find-erase : (j k : K) (m : Map K V) → find j (erase k m) ≡ ite (same k j) none (find j m)
  unfolding find erase
  find-erase j k [] = ground arith
  find-erase j k ((i, w) ∷ m) = ground (arith, find-erase j k m)

  -- A key that some entry has passes no test that all keys fail.
  pub find-any_key :
      (p : K → Bool) (k : K) (v : V) (m : Map K V)
      → find k m ≡ some v
      → any_key p m ≡ false
      → p k ≡ false
  unfolding find any_key
  find-any_key p k v [] e h = ground arith
  find-any_key p k v ((j, w) ∷ m) e h = ground (arith, find-any_key p k v m)

  pub find-erase_ne : (k j : K) (m : Map K V) → k ≢ j → find j m ≢ none → find j (erase k m) ≢ none
  find-erase_ne k j m ne h z = ground (arith, find-erase j k m)

  pub find-assign_some :
      (k j : K) (v : V) (m : Map K V) → find j m ≢ none → find j (assign k v m) ≢ none
  find-assign_some k j v m h z = ground (arith, find-assign j k v m)
