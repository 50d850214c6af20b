-- ===== src/Crypt/Snowflake/Layout.antt =====
-- The bits of an identifier of crypt_snowflake.h: what `_assemble` puts together can be read back.
use comm_libs.Common.{
  ℕ, ◌+◌, ◌-◌, ◌*◌, ◌/◌, ◌%◌, ◌^◌, ◌≤◌, ◌<◌, ◌≡◌, ◌≢◌, ◌↔◌, refl, subst, ◌∙◌, false, none, some,
  List, [], ◌∷◌, arith, ltb, Bool-cases, ltb→lt, ltb_false→le, inl, inr,
}
use Prim.Native.Nat.{bit_or}
use comm_libs.Common.Bits.{bit_or-disjoint, pow_add, pow_pos, digits_above, digits_below}
use comm_libs.Crypt.Snowflake.{
  Component, Values, Composition, assemble_from, assemble, mode_composition, distribute,
}

abbrev pub total_bits : Composition → ℕ
total_bits [] = 0
total_bits ((c, bit) ∷ cs) = bit + total_bits cs

-- Every value fits in the bits of its component.
abbrev pub AllFit : Composition → Values → Type 0
AllFit [] values = Unit
AllFit ((c, bit) ∷ cs) values = (values c < 2 ^ bit) × AllFit cs values

abbrev pub values_of : Composition → Values → List ℕ
values_of [] values = []
values_of ((c, bit) ∷ cs) values = values c ∷ values_of cs values

-- The fields of an identifier, the first from the highest of `offset` bits.
abbrev pub fields : Composition → (offset id : ℕ) → List ℕ
fields [] offset id = []
fields ((c, bit) ∷ cs) offset id = id / 2 ^ (offset - bit) % 2 ^ bit ∷ fields cs (offset - bit) id

-- What `bit_offset` and the value have become after one component.
one_field :
    (high value bit below : ℕ)
    → value < 2 ^ bit
    → bit_or (high * 2 ^ (bit + below)) (value * 2 ^ below) ≡ (high * 2 ^ bit + value) * 2 ^ below
one_field high value bit below h =
    let p = pow_add bit below in
    let fits : value * 2 ^ below < 2 ^ (bit + below) = rw p (grind (arith, pow_pos below)) in
    bit_or-disjoint (bit + below) high (value * 2 ^ below) fits ∙ rw p (grind arith)

record Assembled (cs : Composition) (values : Values) (offset high : ℕ) : Type 0 where
  id : ℕ
  low : ℕ
  result : assemble_from cs values offset (high * 2 ^ offset) ≡ some id
  parts : id ≡ high * 2 ^ offset + low
  bound : low < 2 ^ offset
  readable : fields cs offset id ≡ values_of cs values

Assembled-cons :
    (c : Component) (bit : ℕ) (cs : Composition) (values : Values) (below high : ℕ)
    → values c < 2 ^ bit
    → Assembled cs values below (high * 2 ^ bit + values c)
    → Assembled ((c, bit) ∷ cs) values (bit + below) high
unfolding assemble_from
Assembled-cons c bit cs values below high fit rest =
    let here = one_field high (values c) bit below fit in
    let open_test : ltb (bit + below) bit ≡ false = ground arith in
    let back : bit + below - bit ≡ below = omega arith in
    let split = pow_add bit below in
    let top : rest.id / 2 ^ below ≡ high * 2 ^ bit + values c =
      rw rest.parts (digits_above (high * 2 ^ bit + values c) rest.low below rest.bound) in
    let field : rest.id / 2 ^ below % 2 ^ bit ≡ values c =
      rw top (digits_below high (values c) bit fit) in
    record {
      id = rest.id;
      low = values c * 2 ^ below + rest.low;
      result = rw (open_test, back, here) rest.result;
      parts = rw (rest.parts, split) (grind arith);
      bound = rw split (grind (arith, rest.bound));
      readable = rw back (cc (field, rest.readable));
    }

assembled :
    (cs : Composition) (values : Values) (offset high : ℕ)
    → total_bits cs ≤ offset
    → AllFit cs values
    → Assembled cs values offset high
unfolding assemble_from
assembled [] values offset high h fit = record {
  id = high * 2 ^ offset;
  low = 0;
  result = refl;
  parts = omega arith;
  bound = pow_pos offset;
  readable = refl;
}
assembled ((c, bit) ∷ cs) values offset high h fit =
    let whole : bit + (offset - bit) ≡ offset = omega arith in
    let rest = assembled cs values (offset - bit) (high * 2 ^ bit + values c) (omega arith) fit.1 in
    subst (λ k. Assembled ((c, bit) ∷ cs) values k high) whole
      (Assembled-cons c bit cs values (offset - bit) high fit.0 rest)

-- In a composition of at most 63 bits, where each value fits in the bits of its component, the
-- identifier is below 2^63 and every value is read back from its bits.
pub fields-assemble :
    (cs : Composition) (values : Values)
    → total_bits cs ≤ 63
    → AllFit cs values
    → (id : ℕ) × (assemble cs values ≡ some id)
      × (id < 2 ^ 63)
      × (fields cs 63 id ≡ values_of cs values)
unfolding assemble
fields-assemble cs values h fit =
    let a = assembled cs values 63 0 h fit in
    (a.id, a.result, omega (arith, a.parts, a.bound), a.readable)

assemble_from-none :
    (cs : Composition) (values : Values) (offset value : ℕ)
    → offset < total_bits cs
    → assemble_from cs values offset value ≡ none
unfolding assemble_from
assemble_from-none [] values offset value h = absurd (omega arith)
assemble_from-none ((c, bit) ∷ cs) values offset value h = ground (
  arith,
  assemble_from-none cs values (offset - bit) (bit_or value (values c * 2 ^ (offset - bit))),
)

assemble_from-ne-none :
    (cs : Composition) (values : Values) (offset value : ℕ)
    → total_bits cs ≤ offset
    → assemble_from cs values offset value ≢ none
unfolding assemble_from
assemble_from-ne-none [] values offset value h e = cc
assemble_from-ne-none ((c, bit) ∷ cs) values offset value h e = ground (
  arith,
  assemble_from-ne-none cs values (offset - bit) (bit_or value (values c * 2 ^ (offset - bit))),
)

-- Whatever the values, putting an identifier together shifts by a negative number exactly when the
-- composition has more than 63 bits, and the composition of the mode `Distribute` has.
pub assemble-none :
    (cs : Composition) (values : Values)
    → ((assemble cs values ≡ none) ↔ (63 < total_bits cs))
      × (assemble (mode_composition distribute) values ≡ none)
unfolding assemble
assemble-none cs values = (
  (
    (λ e. elim (Bool-cases (ltb 63 (total_bits cs))) [
      | inl more ↦ ltb→lt 63 (total_bits cs) more
      | inr less ↦
          absurd (assemble_from-ne-none cs values 63 0 (ltb_false→le 63 (total_bits cs) less) e)
    ]),
    assemble_from-none cs values 63 0,
  ),
  assemble_from-none (mode_composition distribute) values 63 0 (omega arith),
)
