-- ===== src/Container/Bitmap/Byte.antt =====
-- One byte of container_bitmap.h, and what the three bit expressions do to its eight bits.
use comm_libs.Common.{
  ℕ, zero, suc, ◌-◌, ◌^◌, ◌<◌, ◌≡◌, refl, Bool, true, false, not, ◌&&◌, arith, ◌==◌, ltb,
  if◌then◌else◌, ◌≤◌, Bool-cases, inl, inr,
}
use Prim.Native.Nat.{bit_and, bit_or}

-- `b | (1 << o)`
unfoldable pub bit_set : ℕ → ℕ → ℕ
bit_set b o = bit_or b (2 ^ o)

-- `b & ~(1 << o)`
unfoldable pub bit_clear : ℕ → ℕ → ℕ
bit_clear b o = bit_and b (255 - 2 ^ o)

-- `b & (1 << o)`
unfoldable pub bit_test : ℕ → ℕ → Bool
bit_test b o = not (bit_and b (2 ^ o) == 0)

-- Whether a test holds of every number from 0 to `top`.
holds_to : ℕ → (ℕ → Bool) → Bool
holds_to zero test = test 0
holds_to (suc top) test = if test (suc top) then holds_to top test else false

holds_to_lem : (top i : ℕ) (test : ℕ → Bool) → i ≤ top → holds_to top test ≡ true → test i ≡ true
unfolding holds_to
holds_to_lem zero i test le holds = ground arith
holds_to_lem (suc top) i test le holds = elim (Bool-cases (i == suc top)) [
  | inl e ↦ ground arith
  | inr e ↦ holds_to_lem top i test (ground arith) (ground arith)
]

same : Bool → Bool → Bool
same true b = b
same false b = not b

same_lem : (a b : Bool) → same a b ≡ true → a ≡ b
unfolding same
same_lem a b h = ground arith

-- A test of a byte and two offsets, at all of them.
table : ((b o k : ℕ) → Bool) → Bool
unfolding holds_to
table p = holds_to 255 (λ b. holds_to 7 (λ o. holds_to 7 (p b o)))

table_lem :
    (p : (b o k : ℕ) → Bool) (b o k : ℕ) → table p ≡ true → b < 256 → o < 8 → k < 8 → p b o k ≡ true
unfolding table
table_lem p b o k t hb ho hk =
    let at_byte = holds_to_lem 255 b (λ b. holds_to 7 (λ o. holds_to 7 (p b o))) (omega arith) t in
    let at_offset = holds_to_lem 7 o (λ o. holds_to 7 (p b o)) (omega arith) at_byte in
    holds_to_lem 7 k (p b o) (omega arith) at_offset

set_table :
    table (λ b o k. same (bit_test (bit_set b o) k) (if o == k then true else bit_test b k)) ≡ true
unfolding table bit_test bit_set same
set_table = refl

clear_table :
    table (λ b o k. same (bit_test (bit_clear b o) k) (if o == k then false else bit_test b k))
    ≡ true
unfolding table bit_test bit_clear same
clear_table = refl

byte_table : table (λ b o k. ltb (bit_set b o) 256 && ltb (bit_clear b o) 256) ≡ true
unfolding table bit_set bit_clear
byte_table = refl

module _ (b o k : ℕ) (hb : b < 256) (ho : o < 8) (hk : k < 8) where
  pub bit_test-bit_set : bit_test (bit_set b o) k ≡ (if o == k then true else bit_test b k)
  bit_test-bit_set = same_lem _ _ (table_lem _ b o k set_table hb ho hk)

  pub bit_test-bit_clear : bit_test (bit_clear b o) k ≡ (if o == k then false else bit_test b k)
  bit_test-bit_clear = same_lem _ _ (table_lem _ b o k clear_table hb ho hk)

pub bytes_bound : (b o : ℕ) → b < 256 → o < 8 → (bit_set b o < 256) × (bit_clear b o < 256)
bytes_bound b o hb ho = ground (
  arith,
  table_lem (λ b o k. ltb (bit_set b o) 256 && ltb (bit_clear b o) 256) b o o byte_table hb ho ho,
)
