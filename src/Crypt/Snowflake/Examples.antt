-- ===== src/Crypt/Snowflake/Examples.antt =====
-- Runs of crypt_snowflake.h: a clock that stands at 5 or 6 seconds, and a hardware address.
use comm_libs.Common.{ℕ, ◌^◌, ◌<◌, ◌≡◌, ◌↔◌, refl, false, none, some, List, [], ◌∷◌, arith, inl}
use comm_libs.Crypt.Snowflake.{
  Values, Snowflake, Machine, valid_id, invalid_id, gen_time, gen_mac, next_id, default_mode,
  mode_composition, assemble,
}
use comm_libs.Crypt.Snowflake.Layout.{fields-assemble, fields}
use comm_libs.Crypt.Snowflake.Sources.{next_id-invalid, all_given}
use comm_libs.Crypt.Snowflake.Order.{in_default, ids_increase, number}

abbrev at_second : ℕ → Machine
at_second sec = record {
  clock = some (sec, 7000000);
  hardware = some (2 ∷ 66 ∷ 172 ∷ 17 ∷ 0 ∷ 2 ∷ []);
  address = none;
  interfaces = [];
}

abbrev name : List ℕ
name = b'e' ∷ b'0' ∷ []

abbrev zeros : Values
zeros c = 0

abbrev some_values : Values
some_values c = 1000

fields-assemble_example :
    (id : ℕ) × (assemble (mode_composition default_mode) some_values ≡ some id)
    × (id < 2 ^ 63)
    × (fields (mode_composition default_mode) 63 id ≡ 1000 ∷ 1000 ∷ 1000 ∷ [])
fields-assemble_example =
    fields-assemble (mode_composition default_mode) some_values (omega arith) (omega arith)

next_id-invalid_example : ((next_id (at_second 5) (in_default 0 [] zeros zeros)).0 ≡ invalid_id) ↔ (
    (all_given (mode_composition default_mode) (in_default 0 [] zeros zeros) (at_second 5) ≡ false)
    × ((next_id (at_second 5) (in_default 0 [] zeros zeros)).1.last ≡ zeros)
    × ((next_id (at_second 5) (in_default 0 [] zeros zeros)).1.composition
        ≡ mode_composition default_mode))
next_id-invalid_example = next_id-invalid (at_second 5) (in_default 0 [] zeros zeros)

first_id : (next_id (at_second 5) (in_default 0 name zeros zeros)).0 ≡ valid_id (number 5007 2 0)
unfolding next_id gen_time gen_mac
first_id = refl

ids_increase_example :
    (first second : ℕ) × (s1 s2 : Snowflake) × (next_id
        (at_second 5)
        (in_default 0 name zeros zeros)
      ≡ (valid_id first, s1))
    × (next_id (at_second 6) s1 ≡ (valid_id second, s2))
    × (first < second)
unfolding gen_time gen_mac
ids_increase_example =
    ids_increase 0 name zeros zeros (at_second 5) (at_second 6) 5007 6007 2 refl refl refl refl
      (inl (omega arith))
