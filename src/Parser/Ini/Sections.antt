-- ===== src/Parser/Ini/Sections.antt =====
-- The sections of parser_ini.cc and their addresses: what one write to a section changes.
use comm_libs.Common.{
  ℕ, ◌≡◌, ◌≢◌, refl, ◌∙◌, Bool, true, false, Option, none, some, [], ◌∷◌, ◌==◌, if◌then◌else◌,
  arith, ℕ_discrete, Option-cases, inl, inr, not,
}
use mathlib.Core.Logic.{ite}
use comm_libs.StdMap
use comm_libs.Parser.Ini.{
  Text, Section, Store, ParserIni, text_discrete, insert, insert_at, write, value_or_empty, item_of,
  get_from, get_config,
}

-- Every section of the tree has its own items: its address is in use, and no other section has it.
pub record IsValid (c : ParserIni) : Type 0 where
  pub stored :
      (s : Text) (p : ℕ) → StdMap.find text_discrete s c.conftree ≡ some p → c.store p ≢ none
  pub apart :
      (s t : Text) (p : ℕ)
      → StdMap.find text_discrete s c.conftree ≡ some p
      → StdMap.find text_discrete t c.conftree ≡ some p
      → s ≡ t

-- The pool gives an address that is not null and not in use.
pub record IsFresh (malloc : Store → ℕ) (s : Store) : Type 0 where
  pub nonnull : malloc s ≢ 0
  pub unused : s (malloc s) ≡ none

pub find-insert :
    {V : Type 0} (j k : Text) (v : V) (m : StdMap.Map Text V)
    → StdMap.find text_discrete k m ≡ none
    → StdMap.find text_discrete j (insert k v m)
      ≡ ite (text_discrete k j) (some v) (StdMap.find text_discrete j m)
unfolding insert insert_at
find-insert j k v m h = rw h (StdMap.find-assign text_discrete j k v m)

pub insert_present :
    {V : Type 0} (k : Text) (v w : V) (m : StdMap.Map Text V)
    → StdMap.find text_discrete k m ≡ some w
    → insert k v m ≡ m
unfolding insert insert_at
insert_present k v w m h = rw h refl

pub get_one :
    (i j v : Text)
    → value_or_empty (StdMap.find text_discrete j ((i, v) ∷ [])) ≡ ite (text_discrete i j) v []
unfolding value_or_empty StdMap.find
get_one i j v = ground arith

-- Items written at an address are the ones read there, the others stay.
pub get_from-write :
    (item : Text) (p : ℕ) (items : Section) (store : Store) (q : ℕ)
    → get_from item (write p items store) (some q) ≡ (
        if p == q
        then some (value_or_empty (StdMap.find text_discrete item items))
        else get_from item store (some q))
unfolding get_from write item_of
get_from-write item p items store q = ground arith

abbrev pub items_at : Option ℕ → Store → Option Section
items_at none store = none
items_at (some p) store = store p

abbrev is_some : {A : Type 0} → Option A → Bool
is_some none = false
is_some (some a) = true

-- Whether a section's items hold a key, and whether they are there without it.
abbrev pub holds : Text → Option Section → Bool
holds item none = false
holds item (some items) = is_some (StdMap.find text_discrete item items)

abbrev pub lacks : Text → Option Section → Bool
lacks item none = false
lacks item (some items) = not (is_some (StdMap.find text_discrete item items))

abbrev pub section_of : Text → ParserIni → Option Section
section_of section c = items_at (StdMap.find text_discrete section c.conftree) c.store

-- What `setConfig` is to do: the value is at its section and item, and nothing else changes.
abbrev pub Sets : Text → Text → Text → ParserIni → ParserIni → Type 0
Sets section item value c c' =
    (s i : Text)
    → get_config s i c'
      ≡ ite (text_discrete section s) (ite (text_discrete item i) (some value) (get_config s i c))
          (get_config s i c)

other_section :
    (section s i : Text) (c : ParserIni) (p : ℕ) (items : Section)
    → IsValid c
    → StdMap.find text_discrete section c.conftree ≡ some p
    → section ≢ s
    → get_from i (write p items c.store) (StdMap.find text_discrete s c.conftree)
      ≡ get_from i c.store (StdMap.find text_discrete s c.conftree)
unfolding get_from write
other_section section s i c p items v at_section ne =
    elim (Option-cases (StdMap.find text_discrete s c.conftree)) [
      | inl e ↦ rw e refl
      | inr (q, e) ↦ elim (ℕ_discrete p q) [
        | yes same ↦ absurd (ne (v.apart section s p at_section (rw same e)))
        | no h ↦ rw e (get_from-write i p items c.store q ∙ (ground arith))
      ]
    ]

same_section :
    (section item value i : Text) (c : ParserIni) (p : ℕ) (items : Section)
    → StdMap.find text_discrete section c.conftree ≡ some p
    → c.store p ≡ some items
    → get_from i
        (write p (StdMap.assign text_discrete item value items) c.store)
        (StdMap.find text_discrete section c.conftree)
      ≡ ite
          (text_discrete item i)
          (some value)
          (get_from i c.store (StdMap.find text_discrete section c.conftree))
unfolding get_from item_of write value_or_empty
same_section section item value i c p items at_section here =
    rw at_section (ground (arith, here, StdMap.find-assign text_discrete i item value items))

pub replace_Sets :
    (section item value : Text) (c : ParserIni) (p : ℕ) (items : Section)
    → IsValid c
    → StdMap.find text_discrete section c.conftree ≡ some p
    → c.store p ≡ some items
    → Sets section item value c
        (record c { store = write p (StdMap.assign text_discrete item value items) c.store })
unfolding get_config
replace_Sets section item value c p items v at_section here s i = elim (text_discrete section s) [
  | yes same ↦ ground (arith, same, same_section section item value i c p items at_section here)
  | no ne ↦ ground (
    arith,
    ne,
    other_section section s i c p (StdMap.assign text_discrete item value items) v at_section ne,
  )
]

pub replace_valid :
    (c : ParserIni) (p : ℕ) (items : Section)
    → IsValid c
    → IsValid (record c { store = write p items c.store })
unfolding write
replace_valid c p items v = record {
  stored = λ s q h e. ground (arith, v.stored s q h);
  apart = v.apart;
}
