-- ===== src/Parser/Ini/Setting.antt =====
-- getConfig and setConfig of parser_ini.cc, one after the other.
use comm_libs.Common.{
  ℕ, ◌≡◌, refl, sym, ap, ◌∙◌, none, some, [], ◌∷◌, if◌then◌else◌, arith, ℕ_discrete, Option-cases,
  inl, inr,
}
use mathlib.Core.Logic.{ite}
use comm_libs.StdMap
use comm_libs.Parser.Ini.{
  Text, Section, Store, success, enotfound, ParserIni, text_discrete, insert, write, item_of,
  get_from, get_config, add_item, set_item, set_at, set_from, set_config,
}
use comm_libs.Parser.Ini.Sections.{
  IsValid, IsFresh, find-insert, insert_present, get_one, get_from-write, holds, lacks, section_of,
  Sets, replace_Sets, replace_valid,
}

module _ (malloc : Store → ℕ) (c : ParserIni) (fresh : IsFresh malloc c.store) (v : IsValid c) where
  -- The new items stand at an address that no section of the tree has.
  unused_keeps :
      (section i : Text) (items : Section)
      → get_from i
          (write (malloc c.store) items c.store)
          (StdMap.find text_discrete section c.conftree)
        ≡ get_from i c.store (StdMap.find text_discrete section c.conftree)
  unfolding get_from write
  unused_keeps section i items =
      elim (Option-cases (StdMap.find text_discrete section c.conftree)) [
        | inl e ↦ rw e refl
        | inr (q, e) ↦ elim (ℕ_discrete (malloc c.store) q) [
          | yes same ↦ absurd (v.stored section q e (ap c.store (sym same) ∙ fresh.unused))
          | no h ↦ rw e (get_from-write i (malloc c.store) items c.store q ∙ ground arith)
        ]
      ]

  read_new_section :
      (section i item value : Text)
      → StdMap.find text_discrete section c.conftree ≡ none
      → get_from i
          (write (malloc c.store) ((item, value) ∷ []) c.store)
          (StdMap.find text_discrete section (insert section (malloc c.store) c.conftree))
        ≡ ite
            (text_discrete item i)
            (some value)
            (get_from i c.store (StdMap.find text_discrete section c.conftree))
  unfolding get_from item_of write
  read_new_section section i item value absent =
      rw (find-insert section section (malloc c.store) c.conftree absent, absent)
        (ground (arith, get_one item i value))

  absent_Sets :
      (section item value : Text)
      → StdMap.find text_discrete section c.conftree ≡ none
      → Sets section item value c (record c {
        conftree = insert section (malloc c.store) c.conftree;
        store = write (malloc c.store) ((item, value) ∷ []) c.store;
      })
  unfolding get_config
  absent_Sets section item value absent s i = elim (text_discrete section s) [
    | yes same ↦ ground (arith, same, absent, read_new_section section i item value absent)
    | no ne ↦ ground (
      arith,
      ne,
      unused_keeps s i ((item, value) ∷ []),
      find-insert s section (malloc c.store) c.conftree absent,
    )
  ]

  absent_valid :
      (section : Text) (items : Section)
      → StdMap.find text_discrete section c.conftree ≡ none
      → IsValid (record c {
        conftree = insert section (malloc c.store) c.conftree;
        store = write (malloc c.store) items c.store;
      })
  unfolding write
  absent_valid section items absent = record {
    stored = λ s q h e.
        ground (arith, v.stored s q, find-insert s section (malloc c.store) c.conftree absent);
    apart = λ s t q a b. ground (
      arith,
      v.stored s q,
      v.stored t q,
      v.apart s t q,
      fresh.unused,
      find-insert s section (malloc c.store) c.conftree absent,
      find-insert t section (malloc c.store) c.conftree absent,
    );
  }

  present_lost :
      (section item value : Text) (p : ℕ)
      → StdMap.find text_discrete section c.conftree ≡ some p
      → (c' : ParserIni) × (add_item malloc section item value c ≡ some (enotfound, c'))
        × IsValid c'
        × ((s i : Text) → get_config s i c' ≡ get_config s i c)
  unfolding add_item get_config
  present_lost section item value p at_section =
      rw (insert_present section (malloc c.store) p c.conftree at_section) (
        record c { store = write (malloc c.store) ((item, value) ∷ []) c.store },
        ground (arith, fresh.nonnull),
        replace_valid c (malloc c.store) ((item, value) ∷ []) v,
        (λ s i. unused_keeps s i ((item, value) ∷ [])),
      )

  new_section_added :
      (section item value : Text)
      → StdMap.find text_discrete section c.conftree ≡ none
      → (c' : ParserIni) × (add_item malloc section item value c ≡ some (enotfound, c'))
        × IsValid c'
        × Sets section item value c c'
  unfolding add_item
  new_section_added section item value absent = (
    record c {
      conftree = insert section (malloc c.store) c.conftree;
      store = write (malloc c.store) ((item, value) ∷ []) c.store;
    },
    ground (arith, fresh.nonnull),
    absent_valid section ((item, value) ∷ []) absent,
    absent_Sets section item value absent,
  )

  -- Over a valid configuration and a pool with a fresh address, `setConfig` returns and the
  -- configuration stays valid. It answers SUCCESS if the section holds the item already, and
  -- ENOTFOUND if not. `getConfig` gives the value at its section and item and every other value as
  -- before, save that where the section is there without the item the value is lost and nothing
  -- changes.
  pub get_config-set_config :
      (section item value : Text)
      → (c' : ParserIni) × (set_config malloc section item value c
          ≡ some ((if holds item (section_of section c) then success else enotfound), c'))
        × IsValid c'
        × ((s i : Text)
            → get_config s i c' ≡ (
                if lacks item (section_of section c)
                then get_config s i c
                else ite
                    (text_discrete section s)
                    (ite (text_discrete item i) (some value) (get_config s i c))
                    (get_config s i c)))
  unfolding set_config set_from set_at set_item
  get_config-set_config section item value =
      elim (Option-cases (StdMap.find text_discrete section c.conftree)) [
        | inl absent ↦ rw absent (new_section_added section item value absent)
        | inr (p, at_section) ↦ elim (Option-cases (c.store p)) [
          | inl e ↦ absurd (v.stored section p at_section e)
          | inr (items, here) ↦ elim (Option-cases (StdMap.find text_discrete item items)) [
            | inl missing ↦
                rw (at_section, here, missing) (present_lost section item value p at_section)
            | inr (old, found) ↦
                rw (at_section, here, found)
                  (
                    record c {
                      store = write p (StdMap.assign text_discrete item value items) c.store;
                    },
                    refl,
                    replace_valid c p (StdMap.assign text_discrete item value items) v,
                    replace_Sets section item value c p items v at_section here,
                  )
          ]
        ]
      ]
