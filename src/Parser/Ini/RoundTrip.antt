-- ===== src/Parser/Ini/RoundTrip.antt =====
-- _load of parser_ini.cc on the lines that Storage writes for a section.
use comm_libs.Common.{
  ℕ, suc, ◌-◌, ◌≡◌, refl, ap, ◌∙◌, none, some, List, [], ◌∷◌, ◌++◌, map, length, take, ◌≢◌, arith,
}
use comm_libs.StdMap
use comm_libs.Parser.Ini.{
  Text, Section, Store, success, ParserIni, text_discrete, insert, write, value_or_empty, item_of,
  get_from, get_config, Loading, str_chr, is_skipped, starts_section, new_section, load_section,
  put_item, load_line, load_lines, load_file, item_line, storage_section,
}
use comm_libs.Parser.Ini.Sections.{find-insert, IsFresh}
use comm_libs.Parser.Ini.Lines.{
  IsLine, IsPlain, str_chr-append, take-append, stored, load_one, tabbed, find-stored,
}
use comm_libs.Parser.Ini.Reading.{lines_of-storage_section}

blank_line :
    (malloc : Store → ℕ) (l : Loading)
    → load_lines malloc ((10 ∷ []) ∷ []) l ≡ some (success, l.config)
unfolding load_lines load_line is_skipped
blank_line malloc l = refl

next_line :
    (malloc : Store → ℕ) (line : Text) (rest : List Text) (l l' : Loading)
    → load_line malloc line l ≡ some (success, l')
    → load_lines malloc (line ∷ rest) l ≡ load_lines malloc rest l'
unfolding load_lines
next_line malloc line rest l l' h = rw (h, load_lines) refl

-- The section after an item.
abbrev with_item : Text → Text → Section → Loading → Loading
with_item k v acc l = record l {
  config = record l.config { store = write l.pcursection (insert (9 ∷ k) v acc) l.config.store };
}

with_item_here :
    (k v : Text) (acc : Section) (l : Loading)
    → (with_item k v acc l).config.store l.pcursection ≡ some (insert (9 ∷ k) v acc)
unfolding write
with_item_here k v acc l = ground arith

load_item_line :
    (malloc : Store → ℕ) (k v : Text) (acc : Section) (l : Loading)
    → str_chr 61 k ≡ none
    → l.pcursection ≢ 0
    → l.config.store l.pcursection ≡ some acc
    → load_line malloc (item_line (k, v)) l ≡ some (success, with_item k v acc l)
unfolding put_item
load_item_line malloc k v acc l h p here = load_one malloc k v l h p ∙ (rw here refl)

load_items :
    (malloc : Store → ℕ) (items acc : Section) (l : Loading)
    → IsPlain items
    → l.pcursection ≢ 0
    → l.config.store l.pcursection ≡ some acc
    → (c : ParserIni) × (load_lines malloc (map item_line items ++ ((10 ∷ []) ∷ [])) l
        ≡ some (success, c))
      × (c.conftree ≡ l.config.conftree)
      × (c.store l.pcursection ≡ some (stored items acc))
load_items malloc [] acc l plain p here = (l.config, blank_line malloc l, refl, here)
load_items malloc ((k, v) ∷ items) acc l plain p here =
    let (c, run, tree, there) =
      load_items malloc items (insert (9 ∷ k) v acc) (with_item k v acc l) plain.1 p
        (with_item_here k v acc l) in
    let step = load_item_line malloc k v acc l plain.0.0 p here in
    (
      c,
      next_line malloc (item_line (k, v)) (map item_line items ++ ((10 ∷ []) ∷ [])) l
            (with_item k v acc l) step
          ∙ run,
      tree,
      there,
    )

bracket_first : (name : Text) → str_chr 93 name ≡ none → str_chr 93 (91 ∷ name) ≡ none
unfolding str_chr
bracket_first name h = ground (arith, h)

-- The state after a section's line.
abbrev in_section : (Store → ℕ) → Text → Loading → Loading
in_section malloc name l = record {
  pcursection = malloc l.config.store;
  config = record l.config {
    conftree = insert name (malloc l.config.store) l.config.conftree;
    store = write (malloc l.config.store) [] l.config.store;
  };
}

section_starts :
    (malloc : Store → ℕ) (name : Text) (l : Loading)
    → IsFresh malloc l.config.store
    → new_section malloc name l ≡ some (success, in_section malloc name l)
unfolding new_section
section_starts malloc name l fresh = ground (arith, fresh.nonnull)

section_empty :
    (malloc : Store → ℕ) (name : Text) (l : Loading)
    → (in_section malloc name l).config.store (malloc l.config.store) ≡ some []
unfolding write
section_empty malloc name l = ground arith

get_stored :
    (name key : Text) (items : Section) (c : ParserIni) (p : ℕ)
    → StdMap.find text_discrete name c.conftree ≡ some p
    → c.store p ≡ some (stored items [])
    → get_config name key c ≡ some (value_or_empty (tabbed key items))
unfolding get_config get_from item_of StdMap.find
get_stored name key items c p at_section here = rw (at_section, here, find-stored key items []) refl

cut_name : (name : Text) (n : ℕ) → n ≡ length name → take n (name ++ (93 ∷ 10 ∷ [])) ≡ name
cut_name name n e = rw e (take-append name (93 ∷ 10 ∷ []))

load_header :
    (malloc : Store → ℕ) (name : Text) (l : Loading)
    → str_chr 93 name ≡ none
    → load_line malloc (91 ∷ (name ++ (93 ∷ 10 ∷ []))) l ≡ new_section malloc name l
unfolding load_line is_skipped starts_section load_section
load_header malloc name l h =
    rw (str_chr-append 93 (91 ∷ name) (10 ∷ []) (bracket_first name h))
      (ap (λ n. new_section malloc n l) (cut_name name (suc (length name) - 1) (omega arith)))

load_section_lines :
    (malloc : Store → ℕ) (name : Text) (items : Section) (l : Loading)
    → IsFresh malloc l.config.store
    → StdMap.find text_discrete name l.config.conftree ≡ none
    → str_chr 93 name ≡ none
    → IsPlain items
    → (c : ParserIni) × (load_lines malloc
          ((91 ∷ (name ++ (93 ∷ 10 ∷ []))) ∷ (map item_line items ++ ((10 ∷ []) ∷ [])))
          l
        ≡ some (success, c))
      × ((key : Text) → get_config name key c ≡ some (value_or_empty (tabbed key items)))
load_section_lines malloc name items l fresh absent h plain =
    let l' = in_section malloc name l in
    let (c, run, tree, there) =
      load_items malloc items [] l' plain (fresh.nonnull) (section_empty malloc name l) in
    let found : StdMap.find text_discrete name l'.config.conftree ≡ some l'.pcursection =
      find-insert name name l'.pcursection l.config.conftree absent ∙ (ground arith) in
    (
      c,
      next_line malloc (91 ∷ (name ++ (93 ∷ 10 ∷ []))) (map item_line items ++ ((10 ∷ []) ∷ [])) l
            l' (load_header malloc name l h ∙ section_starts malloc name l fresh)
          ∙ run,
      (λ key.
          get_stored name key items c l'.pcursection
            (ap (StdMap.find text_discrete name) tree ∙ found) there),
    )

-- The bytes that `Storage` writes for a section are loaded into a configuration without that section,
-- by a pool with a fresh address, whatever an uninitialised `pcursection` holds. If each line fits
-- into the buffer of `fgets` with its newline, at most 255 bytes, if the name, the keys and the values
-- hold neither a newline nor a null byte, the name no `]` and no key `=`, then `_load` returns
-- SUCCESS, and `getConfig` gives each item under its key with a tab before it, and nothing under any
-- other key.
pub load_file-storage_section :
    (malloc : Store → ℕ) (garbage : ℕ) (name : Text) (items : Section) (c : ParserIni)
    → IsFresh malloc c.store
    → StdMap.find text_discrete name c.conftree ≡ none
    → str_chr 93 name ≡ none
    → IsLine (91 ∷ (name ++ (93 ∷ [])))
    → IsPlain items
    → (c' : ParserIni) × (load_file malloc garbage (some (storage_section name items)) c
        ≡ some (success, c'))
      × ((key : Text) → get_config name key c' ≡ some (value_or_empty (tabbed key items)))
unfolding load_file
load_file-storage_section malloc garbage name items c fresh absent h line plain =
    rw (lines_of-storage_section name items line plain) (
      load_section_lines malloc name items (record { pcursection = garbage; config = c }) fresh
        absent h plain)
