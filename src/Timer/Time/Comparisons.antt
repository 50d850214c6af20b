-- ===== src/Timer/Time/Comparisons.antt =====
-- The comparisons of timer_time.h against the order of what the times stand for.
use comm_libs.Common.{
  ℕ, ◌+◌, ◌<◌, ◌≡◌, ◌≢◌, refl, Bool, true, false, arith, ◌∙◌, Bool-cases, inl, inr, ltb, dec_lt,
  sym, ◌&&◌, ap,
}
use mathlib.Core.Path.{ap₂}
use comm_libs.Integer.{pos, pos_part, neg_part, ◌+ℤ◌, ltb_ℤ, eqb_ℤ, times, long_laws, eqb_ℤ_lem}
use comm_libs.Timer.Time.{Time, billion, equal, equal_ns, less, assign_ns, is_positive}
use comm_libs.Timer.Time.Arithmetic.{total, IsNormal, total_parts, total-assign_ns}

ltb_congr : (a b c d : ℕ) → (a < b → c < d) → (c < d → a < b) → ltb a b ≡ ltb c d
ltb_congr a b c d f g = ground arith

Bool-ext : (x y : Bool) → (x ≡ true → y ≡ true) → (y ≡ true → x ≡ true) → x ≡ y
Bool-ext true y f g = sym (f refl)
Bool-ext false true f g = g refl
Bool-ext false false f g = refl

and_true : (x y : Bool) → x && y ≡ true → (x ≡ true) × (y ≡ true)
and_true x y h = ground arith

equal-total : (a b : Time) → IsNormal a → IsNormal b → equal a b ≡ eqb_ℤ (total a) (total b)
unfolding equal
equal-total a b h k =
    Bool-ext _ _
      (λ e.
        let (p, q) = and_true (eqb_ℤ a.second b.second) (eqb_ℤ a.nanosecond b.nanosecond) e in
        (eqb_ℤ_lem _ _).1
          (ap₂ (λ s n. times billion s +ℤ n) ((eqb_ℤ_lem _ _).0 p) ((eqb_ℤ_lem _ _).0 q)))
      (λ e.
        let t = (eqb_ℤ_lem (total a) (total b)).0 e in
        let p : a.second ≡ b.second = omega (long_laws, ap pos_part t, ap neg_part t) in
        let q : a.nanosecond ≡ b.nanosecond = omega (long_laws, ap pos_part t, ap neg_part t) in
        rw ((eqb_ℤ_lem a.second b.second).1 p) ((eqb_ℤ_lem a.nanosecond b.nanosecond).1 q))

absurd_bool : {A : Type 0} {x : Bool} → x ≡ true → x ≡ false → A
absurd_bool p q = cc

second_lt :
    (a b : Time)
    → IsNormal a
    → IsNormal b
    → a.second ≢ b.second
    → pos_part (total a) + neg_part (total b) < pos_part (total b) + neg_part (total a)
    → pos_part a.second + neg_part b.second < pos_part b.second + neg_part a.second
second_lt a b h k n l =
    elim (dec_lt (pos_part a.second + neg_part b.second) (pos_part b.second + neg_part a.second)) [
      | yes p ↦ p
      | no q ↦ absurd (n (omega (long_laws, total_parts a, total_parts b)))
    ]

less-total : (a b : Time) → IsNormal a → IsNormal b → less a b ≡ ltb_ℤ (total a) (total b)
unfolding less
less-total a b h k = elim (Bool-cases (eqb_ℤ a.second b.second)) [
  | inl e ↦
      let p = (eqb_ℤ_lem a.second b.second).0 e in
      rw e (
        ltb_congr _ _ _ _ (λ l. omega (long_laws, ap pos_part p, ap neg_part p))
          (λ l. omega (long_laws, ap pos_part p, ap neg_part p)))
  | inr e ↦
      let n : a.second ≢ b.second = λ p. absurd_bool ((eqb_ℤ_lem a.second b.second).1 p) e in
      rw e (ltb_congr _ _ _ _ (λ l. omega long_laws) (λ l. second_lt a b h k n l))
]

-- On times whose nanoseconds are in range the comparisons are those of what the times stand for.
pub comparisons_lem :
    (a b : Time) (n : ℕ)
    → IsNormal a
    → IsNormal b
    → (less a b ≡ ltb_ℤ (total a) (total b))
      × (equal a b ≡ eqb_ℤ (total a) (total b))
      × (equal_ns a (pos n) ≡ eqb_ℤ (total a) (pos n))
unfolding equal_ns equal assign_ns
comparisons_lem a b n h k = (
  less-total a b h k,
  equal-total a b h k,
  equal-total a (assign_ns (pos n)) h (omega long_laws)
      ∙ ap (eqb_ℤ (total a)) (total-assign_ns (pos n)),
)

-- `IsPositive` is true of every time whose nanoseconds are in range, those before the epoch too.
pub is_positive-IsNormal : (t : Time) → IsNormal t → is_positive t ≡ true
unfolding is_positive
is_positive-IsNormal t h = ground arith
