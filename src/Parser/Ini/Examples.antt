-- ===== src/Parser/Ini/Examples.antt =====
-- The configurations of parser_ini.cc on concrete texts.
use comm_libs.Common.{ℕ, ◌≡◌, refl, true, none, some, [], ◌∷◌, if◌then◌else◌, arith}
use mathlib.Core.Option
use mathlib.Core.Logic.{ite}
use comm_libs.StdMap
use comm_libs.Parser.Ini.{
  Text, Store, success, enotfound, ParserIni, text_discrete, write, get_config, set_config, Loading,
  load_lines, load_file, read_lines, push_byte, storage_section, str_chr, value_or_empty, item_of,
  get_from, insert, insert_at, load_line, is_skipped, starts_section, load_section, load_item,
  put_item, new_section, load_error, free_tree,
}
use comm_libs.Parser.Ini.Sections.{IsValid, IsFresh, holds, lacks, section_of}
use comm_libs.Parser.Ini.Setting.{get_config-set_config}
use comm_libs.Parser.Ini.Lines.{tabbed}
use comm_libs.Parser.Ini.RoundTrip.{load_file-storage_section}

abbrev malloc : Store → ℕ
malloc s = elim (s 1) [ none ↦ 1 | some x ↦ 2 ]

abbrev empty : ParserIni
empty = record { init_flag = true; conftree = []; store = λ p. none }

abbrev start : Loading
start = record { pcursection = 0; config = empty }

empty-IsValid : IsValid empty
unfolding StdMap.find
empty-IsValid = record { stored = λ s p h. ground arith; apart = λ s t p h k. ground arith }

empty-IsFresh : IsFresh malloc empty.store
empty-IsFresh = record { nonnull = ground arith; unused = refl }

-- A new section with an item is found.
get_config-set_config_example :
    (c' : ParserIni) × (set_config malloc (115 ∷ []) (107 ∷ []) (118 ∷ []) empty
      ≡ some ((if holds (107 ∷ []) (section_of (115 ∷ []) empty) then success else enotfound), c'))
    × IsValid c'
    × ((s i : Text)
        → get_config s i c' ≡ (
            if lacks (107 ∷ []) (section_of (115 ∷ []) empty)
            then get_config s i empty
            else ite
                (text_discrete (115 ∷ []) s)
                (ite (text_discrete (107 ∷ []) i) (some (118 ∷ [])) (get_config s i empty))
                (get_config s i empty)))
get_config-set_config_example =
    get_config-set_config malloc empty empty-IsFresh empty-IsValid (115 ∷ []) (107 ∷ []) (118 ∷ [])

load_file-storage_section_example :
    (c' : ParserIni) × (load_file malloc 7
        (some (storage_section (115 ∷ []) ((107 ∷ [], 118 ∷ []) ∷ [])))
        empty
      ≡ some (success, c'))
    × ((key : Text)
        → get_config (115 ∷ []) key c'
          ≡ some (value_or_empty (tabbed key ((107 ∷ [], 118 ∷ []) ∷ []))))
unfolding StdMap.find str_chr
load_file-storage_section_example =
    load_file-storage_section malloc 7 (115 ∷ []) ((107 ∷ [], 118 ∷ []) ∷ []) empty empty-IsFresh
      refl refl (refl, refl, omega arith) ((refl, (refl, refl, omega arith)), tt)

-- With room for four bytes a line of six is read in two parts, and one of four whole.
split_line :
    read_lines 4 (97 ∷ 98 ∷ 99 ∷ 100 ∷ 101 ∷ 10 ∷ [])
    ≡ (97 ∷ 98 ∷ 99 ∷ 100 ∷ []) ∷ (101 ∷ 10 ∷ []) ∷ []
unfolding read_lines push_byte
split_line = refl

-- A file whose last line has no newline loses the last byte of its value.
last_byte_lost :
    Option.map
      (λ r. r.1.store 1)
      (load_lines malloc ((91 ∷ 115 ∷ 93 ∷ 10 ∷ []) ∷ (107 ∷ 61 ∷ 118 ∷ 119 ∷ []) ∷ []) start)
    ≡ some (some ((107 ∷ [], 118 ∷ []) ∷ []))
unfolding load_lines load_line is_skipped starts_section load_section load_item put_item new_section
    str_chr StdMap.find StdMap.assign insert insert_at write get_config get_from item_of
    value_or_empty
last_byte_lost = refl

-- Where `=` is its last byte, the copy of the value has a length below 0.
no_value : load_lines malloc ((91 ∷ 115 ∷ 93 ∷ 10 ∷ []) ∷ (107 ∷ 61 ∷ []) ∷ []) start ≡ none
unfolding load_lines load_line is_skipped starts_section load_section load_item put_item new_section
    str_chr
no_value = refl

-- An error after a section makes the loader free the tree, which reads what it has erased.
free_after_error : load_lines malloc ((91 ∷ 115 ∷ 93 ∷ 10 ∷ []) ∷ (91 ∷ 10 ∷ []) ∷ []) start ≡ none
unfolding load_lines load_line is_skipped starts_section load_section load_error free_tree
    new_section str_chr StdMap.find StdMap.assign insert insert_at
free_after_error = refl
