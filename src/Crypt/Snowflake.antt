-- ===== src/Crypt/Snowflake.antt =====
-- libcrypt/crypt_snowflake.h: identifiers of at most 63 bits from the clock, the machine and a serial
-- number. What the system answers is a parameter (`Machine`). A value of a component is a `long` that
-- is not negative; a negative one, which `ID` takes for an error, is `none`. The functions that may
-- replace a source are never set, and have no model.
pub mod Layout
pub mod Sources
pub mod Order
mod Examples
use comm_libs.Common.{
  ℕ, zero, suc, ◌+◌, ◌-◌, ◌*◌, ◌/◌, ◌%◌, ◌^◌, Bool, true, false, not, ◌&&◌, ◌||◌, Option, none,
  some, List, [], ◌∷◌, if◌then◌else◌, ◌==◌, ltb, get_or,
}
use Prim.Native.Nat.{bit_or}

pub data Component : Type 0 where
  begin time time_back mac ipv4 ipv6 serial : Component

-- The index of a component in the arrays of values.
abbrev pub position : Component → ℕ
position begin = 0
position time = 1
position time_back = 2
position mac = 3
position ipv4 = 4
position ipv6 = 5
position serial = 6

abbrev pub Values : Type 0
Values = Component → ℕ

abbrev pub write : Component → ℕ → Values → Values
write c value values d = if position c == position d then value else values d

abbrev pub Composition : Type 0
Composition = List (Component × ℕ)

pub data Mode : Type 0 where
  default_mode single_node distribute : Mode

-- `ModeComposition`
abbrev pub mode_composition : Mode → Composition
mode_composition default_mode = (time, 41) ∷ (mac, 10) ∷ (serial, 12) ∷ []
mode_composition single_node = (time, 45) ∷ (time_back, 2) ∷ (serial, 16) ∷ []
mode_composition distribute = (time, 41) ∷ (time_back, 2) ∷ (mac, 10) ∷ (serial, 12) ∷ []

pub record Snowflake : Type 0 where
  pub actime : ℕ
  pub ifname : List ℕ
  pub composition : Composition
  pub curr : Values
  pub last : Values

-- Seconds and nanoseconds as milliseconds.
abbrev pub milliseconds : ℕ × ℕ → ℕ
milliseconds (sec, nsec) = sec * 1000 + nsec / 1000000

abbrev pub actime_of : Option (ℕ × ℕ) → ℕ
actime_of none = 0
actime_of (some actime) = milliseconds actime

-- The constructor with a composition; the other takes that of its mode.
unfoldable pub create : Option (ℕ × ℕ) → List ℕ → Composition → Snowflake
create actime ifname composition = record {
  actime = actime_of actime;
  ifname = ifname;
  composition = composition;
  curr = λ c. 0;
  last = λ c. 0;
}

unfoldable pub create_mode : Option (ℕ × ℕ) → List ℕ → Mode → Snowflake
create_mode actime ifname mode = create actime ifname (mode_composition mode)

-- An address of an interface, as `getifaddrs` lists it. The bytes are the sixteen that the code reads
-- as the address: those from `sin_addr` of a `sockaddr_in` on, which stands four bytes before the
-- address of a `sockaddr_in6`.
pub record Interface : Type 0 where
  pub is_ipv6 : Bool
  pub matches : Bool
  pub bytes : List ℕ

-- What the system answers during one call: the clock, `ioctl` for the hardware address and for the
-- address, each with the socket it needs, and the interfaces; whether one has the name is `matches`.
pub record Machine : Type 0 where
  pub clock : Option (ℕ × ℕ)
  pub hardware : Option (List ℕ)
  pub address : Option ℕ
  pub interfaces : List Interface

-- `value & ((1l << bit) - 1)`
abbrev pub mask : ℕ → ℕ → ℕ
mask value bit = value % 2 ^ bit

abbrev pub is_empty : List ℕ → Bool
is_empty [] = true
is_empty (c ∷ cs) = false

pub gen_time : Snowflake → Machine → ℕ → Option ℕ
gen_time s m bit = elim m.clock [
  | none ↦ none
  | some now ↦
      if ltb (milliseconds now) s.actime
      then none
      else some (mask (milliseconds now - s.actime) bit)
]

-- The loop over the six bytes of a hardware address, the first highest.
abbrev pub mac_from : List ℕ → (rounds : ℕ) → ℕ → ℕ
mac_from bytes zero value = value
mac_from bytes (suc rounds) value =
    mac_from bytes rounds (bit_or value (get_or bytes (5 - rounds) 0 * 2 ^ (rounds * 8)))

pub gen_mac : Snowflake → Machine → ℕ → Option ℕ
gen_mac s m bit =
    if is_empty s.ifname
    then none
    else elim m.hardware [ none ↦ none | some bytes ↦ some (mask (mac_from bytes 6 0) bit) ]

pub gen_ipv4 : Snowflake → Machine → ℕ → Option ℕ
gen_ipv4 s m bit =
    if is_empty s.ifname
    then none
    else elim m.address [ none ↦ none | some address ↦ some (mask address bit) ]

-- The last eight of the bytes that are read, the last one lowest.
abbrev pub ipv6_from : List ℕ → (rounds : ℕ) → ℕ
ipv6_from bytes zero = 0
ipv6_from bytes (suc rounds) =
    bit_or (ipv6_from bytes rounds) (get_or bytes (15 - rounds) 0 * 2 ^ (8 * rounds))

pub find_ipv6 : List Interface → Option ℕ
find_ipv6 [] = none
find_ipv6 (i ∷ is) = if i.is_ipv6 && i.matches then some (ipv6_from i.bytes 8) else find_ipv6 is

pub gen_ipv6 : Snowflake → Machine → ℕ → Option ℕ
unfolding find_ipv6
gen_ipv6 s m bit =
    if is_empty s.ifname
    then none
    else elim (find_ipv6 m.interfaces) [ none ↦ none | some value ↦ some (mask value bit) ]

-- The loop of `_gen_serial_bit`: whether a component other than these two has a new value.
abbrev pub is_source : Component → Bool
is_source time_back = false
is_source serial = false
is_source c = true

pub has_change : Composition → (curr last : Values) → Bool
has_change [] curr last = false
has_change ((c, bit) ∷ cs) curr last =
    (not (curr c == last c) && is_source c) || has_change cs curr last

-- After a change the mask is `(1 << bit) - 1` of an `int`, which is undefined from 31 bits on; it is
-- taken as the one of a `long` that follows.
pub gen_serial : Snowflake → ℕ → ℕ
unfolding has_change
gen_serial s bit =
    mask (if has_change s.composition s.curr s.last then s.last serial else s.last serial + 1) bit

pub gen_time_back : Snowflake → ℕ → ℕ
gen_time_back s bit =
    mask (if ltb (s.curr time) (s.last time) then s.last time_back + 1 else s.last time_back) bit

abbrev pub put_curr : Component → ℕ → Snowflake → Snowflake
put_curr c value s = record s { curr = write c value s.curr }

-- One round of the first loop of `ID`; `none` returns INVALID_ID.
abbrev pub gather_value : Component → ℕ → Snowflake → Machine → Option ℕ
gather_value time bit s m = gen_time s m bit
gather_value mac bit s m = gen_mac s m bit
gather_value ipv4 bit s m = gen_ipv4 s m bit
gather_value ipv6 bit s m = gen_ipv6 s m bit
gather_value c bit s m = some 0

abbrev pub is_gathered : Component → Bool
is_gathered time = true
is_gathered mac = true
is_gathered ipv4 = true
is_gathered ipv6 = true
is_gathered c = false

-- The first loop: the state after it, and whether every source gave a value.
pub gather : Composition → Machine → Snowflake → Bool × Snowflake
gather [] m s = (true, s)
gather ((c, bit) ∷ cs) m s =
    let skip = gather cs m s in
    if is_gathered c
    then elim (gather_value c bit s m) [
      | none ↦ (false, s)
      | some value ↦ gather cs m (put_curr c value s)
    ]
    else skip

-- The second loop.
abbrev pub derive_one : Component → ℕ → Snowflake → Snowflake
derive_one serial bit s = put_curr serial (gen_serial s bit) s
derive_one time_back bit s = put_curr time_back (gen_time_back s bit) s
derive_one c bit s = s

pub derive : Composition → Snowflake → Snowflake
unfolding gen_serial gen_time_back
derive [] s = s
derive ((c, bit) ∷ cs) s = derive cs (derive_one c bit s)

-- `_assemble` from `bit_offset`; `none` is a shift by a negative number.
pub assemble_from : Composition → Values → (offset value : ℕ) → Option ℕ
assemble_from [] values offset value = some value
assemble_from ((c, bit) ∷ cs) values offset value =
    let rest =
      assemble_from cs values (offset - bit) (bit_or value (values c * 2 ^ (offset - bit))) in
    if ltb offset bit then none else rest

pub assemble : Composition → Values → Option ℕ
unfolding assemble_from
assemble composition values = assemble_from composition values 63 0

pub data Outcome : Type 0 where
  valid_id : ℕ → Outcome
  invalid_id : Outcome
  undefined_id : Outcome

abbrev pub id_of : Option ℕ → Outcome
id_of none = undefined_id
id_of (some value) = valid_id value

abbrev pub swap_values : Snowflake → Snowflake
swap_values s = record s { curr = s.last; last = s.curr }

abbrev pub finish : Snowflake → Outcome × Snowflake
finish s = (id_of (assemble s.composition s.curr), swap_values s)

-- `ID`
pub next_id : Machine → Snowflake → Outcome × Snowflake
unfolding gather derive assemble
next_id m s =
    let (gathered, s') = gather s.composition m s in
    if gathered then finish (derive s'.composition s') else (invalid_id, s')
