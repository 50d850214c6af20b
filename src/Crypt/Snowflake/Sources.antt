-- ===== src/Crypt/Snowflake/Sources.antt =====
-- When a call of `ID` of crypt_snowflake.h fails, and what it leaves.
use comm_libs.Common.{
  ℕ, ◌≡◌, ◌≢◌, ◌↔◌, refl, sym, subst, ◌∙◌, Bool, true, false, not, ◌&&◌, ◌||◌, Option, none, some,
  [], ◌∷◌, if◌then◌else◌, Bool-cases, Option-cases, inl, inr,
}
use comm_libs.Crypt.Snowflake.{
  Component, begin, time, time_back, mac, ipv4, ipv6, serial, Composition, Snowflake, Machine,
  invalid_id, gen_time, gen_mac, gen_ipv4, gen_ipv6, gather_value, is_gathered, gather, derive,
  next_id, put_curr, finish, id_of,
}

abbrev pub is_given : Option ℕ → Bool
is_given none = false
is_given (some value) = true

-- Every source of the composition gives a value in the state of the call.
abbrev pub all_given : Composition → Snowflake → Machine → Bool
all_given [] s m = true
all_given ((c, bit) ∷ cs) s m =
    (not (is_gathered c) || is_given (gather_value c bit s m)) && all_given cs s m

gather_value-put_curr :
    (c d : Component) (bit value : ℕ) (s : Snowflake) (m : Machine)
    → gather_value c bit (put_curr d value s) m ≡ gather_value c bit s m
unfolding gen_time gen_mac gen_ipv4 gen_ipv6
gather_value-put_curr begin d bit value s m = refl
gather_value-put_curr time d bit value s m = refl
gather_value-put_curr time_back d bit value s m = refl
gather_value-put_curr mac d bit value s m = refl
gather_value-put_curr ipv4 d bit value s m = refl
gather_value-put_curr ipv6 d bit value s m = refl
gather_value-put_curr serial d bit value s m = refl

all_given-put_curr :
    (cs : Composition) (d : Component) (value : ℕ) (s : Snowflake) (m : Machine)
    → all_given cs (put_curr d value s) m ≡ all_given cs s m
all_given-put_curr [] d value s m = refl
all_given-put_curr ((c, bit) ∷ cs) d value s m =
    rw (gather_value-put_curr c d bit value s m, all_given-put_curr cs d value s m)

-- What the first loop ends with.
record Gathered (result : Bool × Snowflake) (success : Bool) (s : Snowflake) : Type 0 where
  succeeds : result.0 ≡ success
  same_last : result.1.last ≡ s.last
  same_composition : result.1.composition ≡ s.composition

gather-none :
    (c : Component) (bit : ℕ) (cs : Composition) (m : Machine) (s : Snowflake)
    → is_gathered c ≡ true
    → gather_value c bit s m ≡ none
    → gather ((c, bit) ∷ cs) m s ≡ (false, s)
unfolding gather
gather-none c bit cs m s h e = rw (h, gather, e)

gather-some :
    (c : Component) (bit : ℕ) (cs : Composition) (m : Machine) (s : Snowflake) {value : ℕ}
    → is_gathered c ≡ true
    → gather_value c bit s m ≡ some value
    → gather ((c, bit) ∷ cs) m s ≡ gather cs m (put_curr c value s)
unfolding gather
gather-some c bit cs m s h e = rw (h, gather, e)

gather_skip :
    (c : Component) (bit : ℕ) (cs : Composition) (m : Machine) (s : Snowflake)
    → is_gathered c ≡ false
    → gather ((c, bit) ∷ cs) m s ≡ gather cs m s
unfolding gather
gather_skip c bit cs m s h = rw h

gathered :
    (cs : Composition) (m : Machine) (s : Snowflake) → Gathered (gather cs m s) (all_given cs s m) s
unfolding gather
gathered [] m s = record { succeeds = refl; same_last = refl; same_composition = refl }
gathered ((c, bit) ∷ cs) m s = elim (Bool-cases (is_gathered c)) [
  | inl found ↦ elim (Option-cases (gather_value c bit s m)) [
    | inl e ↦
        subst (λ r. Gathered r (all_given ((c, bit) ∷ cs) s m) s)
          (sym (gather-none c bit cs m s found e))
          (record { succeeds = rw (found, e); same_last = refl; same_composition = refl })
    | inr (value, e) ↦
        let rest = gathered cs m (put_curr c value s) in
        subst (λ r. Gathered r (all_given ((c, bit) ∷ cs) s m) s)
          (sym (gather-some c bit cs m s found e))
          (record {
            succeeds = rest.succeeds ∙ all_given-put_curr cs c value s m ∙ rw (found, e);
            same_last = rest.same_last;
            same_composition = rest.same_composition;
          })
  ]
  | inr other ↦
      subst (λ r. Gathered r (all_given ((c, bit) ∷ cs) s m) s)
        (sym (gather_skip c bit cs m s other))
        (let rest = gathered cs m s in
          record {
            succeeds = rest.succeeds ∙ rw other;
            same_last = rest.same_last;
            same_composition = rest.same_composition;
          })
]

id_of-ne-invalid : (o : Option ℕ) → id_of o ≢ invalid_id
id_of-ne-invalid none e = cc
id_of-ne-invalid (some value) e = cc

after_gather :
    (r : Bool × Snowflake) {b : Bool} (s : Snowflake)
    → Gathered r b s
    → let result = (if r.0 then finish (derive r.1.composition r.1) else (invalid_id, r.1)) in
      (result.0 ≡ invalid_id)
      ↔ ((b ≡ false) × (result.1.last ≡ s.last) × (result.1.composition ≡ s.composition))
after_gather (true, s') s g =
    ((λ e. absurd (id_of-ne-invalid _ e)), (λ h. absurd (cc (g.succeeds, h.0))))
after_gather (false, s') s g =
    ((λ e. (sym g.succeeds, g.same_last, g.same_composition)), (λ h. refl))

-- A call returns INVALID_ID exactly when a source of its composition gives no value, and then it
-- leaves the values of the last identifier and the composition as they were.
pub next_id-invalid :
    (m : Machine) (s : Snowflake)
    → ((next_id m s).0 ≡ invalid_id) ↔ (
        (all_given s.composition s m ≡ false)
        × ((next_id m s).1.last ≡ s.last)
        × ((next_id m s).1.composition ≡ s.composition))
unfolding next_id
next_id-invalid m s = after_gather (gather s.composition m s) s (gathered s.composition m s)
