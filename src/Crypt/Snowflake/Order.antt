-- ===== src/Crypt/Snowflake/Order.antt =====
-- Identifiers of crypt_snowflake.h in the mode `Default`, one after another.
use comm_libs.Common.{
  ℕ, ◌+◌, ◌*◌, ◌^◌, ◌<◌, ◌≡◌, ◌≢◌, ◌⊎◌, sym, ap, ◌∙◌, ◌&&◌, some, List, arith, if◌then◌else◌, ◌==◌,
  inl, inr,
}
use Prim.Native.Nat.{bit_or}
use comm_libs.Common.Bits.{bit_or-disjoint, zero-bit_or}
use comm_libs.Crypt.Snowflake.{
  time, mac, serial, Values, Snowflake, Machine, valid_id, default_mode, mode_composition, write,
  gen_time, gen_mac, gen_serial, has_change, gather, derive, next_id, mask, put_curr,
}

-- A generator in the mode `Default`.
abbrev pub in_default : ℕ → List ℕ → (curr last : Values) → Snowflake
in_default actime ifname curr last = record {
  actime = actime;
  ifname = ifname;
  composition = mode_composition default_mode;
  curr = curr;
  last = last;
}

abbrev pub number : (t k n : ℕ) → ℕ
number t k n = t * 2 ^ 22 + k * 2 ^ 12 + n

three_fields :
    (t k n : ℕ)
    → k < 2 ^ 10
    → n < 2 ^ 12
    → bit_or (bit_or (bit_or 0 (t * 2 ^ 22)) (k * 2 ^ 12)) (n * 1) ≡ number t k n
three_fields t k n hk hn =
    let both : t * 2 ^ 22 + k * 2 ^ 12 ≡ (t * 2 ^ 10 + k) * 2 ^ 12 = omega arith in
    let one : n * 1 ≡ n = omega arith in
    rw (zero-bit_or (t * 2 ^ 22), bit_or-disjoint 22 t (k * 2 ^ 12) (omega arith), both, one)
      (bit_or-disjoint 12 (t * 2 ^ 10 + k) n hn ∙ omega arith)

-- The serial number that follows.
abbrev pub next_serial : Values → (t k : ℕ) → ℕ
next_serial last t k =
    mask (if t == last time && k == last mac then last serial + 1 else last serial) 12

abbrev pub next_values : Values → Values → (t k : ℕ) → Values
next_values curr last t k = write serial (next_serial last t k) (write mac k (write time t curr))

gen_serial_default :
    (actime : ℕ) (ifname : List ℕ) (curr last : Values) (t k : ℕ)
    → gen_serial (put_curr mac k (put_curr time t (in_default actime ifname curr last))) 12
      ≡ next_serial last t k
unfolding gen_serial has_change
gen_serial_default actime ifname curr last t k = ground arith

gen_mac_bound : (s : Snowflake) (m : Machine) {k : ℕ} → gen_mac s m 10 ≡ some k → k < 2 ^ 10
unfolding gen_mac
gen_mac_bound s m {k} e = ground arith

-- In the mode `Default` a call whose sources give a time and a hardware address makes the number of
-- these and of a serial number, which counts up where neither is new and is kept where one is, and
-- the state keeps the three for the next call.
pub next_id_lem :
    (actime : ℕ) (ifname : List ℕ) (curr last : Values) (m : Machine) (t k : ℕ)
    → gen_time (in_default actime ifname curr last) m 41 ≡ some t
    → gen_mac (in_default actime ifname (write time t curr) last) m 10 ≡ some k
    → next_id m (in_default actime ifname curr last) ≡ (
      valid_id (number t k (next_serial last t k)),
      in_default actime ifname last (next_values curr last t k),
    )
unfolding next_id gather derive
next_id_lem actime ifname curr last m t k et ek =
    let bound = gen_mac_bound (in_default actime ifname (write time t curr) last) m ek in
    let n = gen_serial_default actime ifname curr last t k in
    rw (et, gather, ek, n) (rw (three_fields t k (next_serial last t k) bound (omega arith)))

same_time : (k n : ℕ) (u : ℕ) → n < 4095 → mask (if u == u && k == k then n + 1 else n) 12 ≡ n + 1
same_time k n u h = ground arith

new_time : (t u k n : ℕ) → t ≢ u → n < 4096 → mask (if u == t && k == k then n + 1 else n) 12 ≡ n
new_time t u k n h bound = ground arith

later :
    (t u k n : ℕ)
    → k < 2 ^ 10
    → n < 2 ^ 12
    → (t < u) ⊎ ((t ≡ u) × (n < 4095))
    → number t k n < number u k (mask (if u == t && k == k then n + 1 else n) 12)
later t u k n bound serial_bound (inl more) = omega arith
later t u k n bound serial_bound (inr (same, room)) = rw (same, same_time k n u room) (omega arith)

-- Two calls in the mode `Default`, from any state, whose sources give the times `t` and `u` and the
-- same hardware address `k`: both make identifiers, and the second is the greater if the time is
-- greater, or if the time is the same and the first call's serial number was not yet 4095.
pub ids_increase :
    (actime : ℕ) (ifname : List ℕ) (curr last : Values) (m m' : Machine) (t u k : ℕ)
    → gen_time (in_default actime ifname curr last) m 41 ≡ some t
    → gen_mac (in_default actime ifname (write time t curr) last) m 10 ≡ some k
    → gen_time (in_default actime ifname last (next_values curr last t k)) m' 41 ≡ some u
    → gen_mac (in_default actime ifname (write time u last) (next_values curr last t k)) m' 10
      ≡ some k
    → (t < u) ⊎ ((t ≡ u) × (next_serial last t k < 4095))
    → (first second : ℕ) × (s' s'' : Snowflake) × (next_id m (in_default actime ifname curr last)
        ≡ (valid_id first, s'))
      × (next_id m' s' ≡ (valid_id second, s''))
      × (first < second)
ids_increase actime ifname curr last m m' t u k et ek eu ek' order =
    let bound = gen_mac_bound (in_default actime ifname (write time t curr) last) m ek in
    (
      _,
      _,
      _,
      _,
      next_id_lem actime ifname curr last m t k et ek,
      next_id_lem actime ifname last (next_values curr last t k) m' u k eu ek',
      later t u k (next_serial last t k) bound (omega arith) order,
    )

-- Three calls in the mode `Default` with the same hardware address at the times `t`, `u` and again
-- `t`, where `u` is another time than `t`: the third makes the identifier that the first made.
pub ids_repeat :
    (actime : ℕ) (ifname : List ℕ) (curr last : Values) (m m1 m2 : Machine) (t u k : ℕ)
    → t ≢ u
    → gen_time (in_default actime ifname curr last) m 41 ≡ some t
    → gen_mac (in_default actime ifname (write time t curr) last) m 10 ≡ some k
    → gen_time (in_default actime ifname last (next_values curr last t k)) m1 41 ≡ some u
    → gen_mac (in_default actime ifname (write time u last) (next_values curr last t k)) m1 10
      ≡ some k
    → gen_time
        (in_default actime ifname
          (next_values curr last t k)
          (next_values last (next_values curr last t k) u k))
        m2
        41
      ≡ some t
    → gen_mac
        (in_default actime ifname
          (write time t (next_values curr last t k))
          (next_values last (next_values curr last t k) u k))
        m2
        10
      ≡ some k
    → (id id1 : ℕ) × (s s1 s2 : Snowflake) × (next_id m (in_default actime ifname curr last)
        ≡ (valid_id id, s))
      × (next_id m1 s ≡ (valid_id id1, s1))
      × (next_id m2 s1 ≡ (valid_id id, s2))
ids_repeat actime ifname curr last m m1 m2 t u k other et ek et1 ek1 et2 ek2 =
    let values = next_values curr last t k in
    let values1 = next_values last values u k in
    let kept : next_serial values u k ≡ next_serial last t k =
      new_time t u k (next_serial last t k) other (omega arith) in
    let kept1 : next_serial values1 t k ≡ next_serial values u k =
      new_time u t k (next_serial values u k) (λ e. other (sym e)) (omega arith) in
    (
      _,
      _,
      _,
      _,
      _,
      next_id_lem actime ifname curr last m t k et ek,
      next_id_lem actime ifname last values m1 u k et1 ek1,
      next_id_lem actime ifname values values1 m2 t k et2 ek2
          ∙ ap
              (λ n. (
                valid_id (number t k n),
                in_default actime ifname values1 (next_values values values1 t k),
              ))
              (kept1 ∙ kept),
    )
