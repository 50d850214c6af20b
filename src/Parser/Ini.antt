-- ===== src/Parser/Ini.antt =====
-- libparser/parser_ini.cc: the configuration that ParserIni keeps, a map from the names of sections
-- to the addresses of their items. Texts are the bytes before the null byte, an address is a number,
-- 0 for a null pointer, and `none` is a read or write of memory that is not the code's own. The
-- addresses of new sections, which the memory pool gives, are a parameter.
pub mod Sections
pub mod Setting
pub mod Lines
pub mod Reading
pub mod RoundTrip
mod Examples
use comm_libs.Common.{
  ℕ, ◌+◌, ◌-◌, Bool, true, false, not, ◌||◌, Option, none, some, List, [], ◌∷◌, ◌++◌, map, suc,
  length, take, drop, if◌then◌else◌, ◌==◌, ltb, ℕ_discrete,
}
use mathlib.Core.Option
use mathlib.Core.List.{List-discrete}
use comm_libs.StdMap
use comm_libs.StdMap.{Map}

abbrev pub Text : Type 0
Text = List ℕ

abbrev pub text_discrete : Discrete Text
text_discrete = List-discrete ℕ_discrete

abbrev pub Section : Type 0
Section = Map Text Text

abbrev pub Store : Type 0
Store = ℕ → Option Section

pub data ParserRet : Type 0 where
  success einit ebadargs error enotfound : ParserRet

pub record ParserIni : Type 0 where
  pub init_flag : Bool
  pub conftree : Map Text ℕ
  pub store : Store

unfoldable pub write : ℕ → Section → Store → Store
write p section store q = if p == q then some section else store q

-- `insert` of a `std::map`, which leaves a key that is there.
unfoldable pub insert_at : {V : Type 0} → Option V → Text → V → Map Text V → Map Text V
insert_at none k v m = StdMap.assign text_discrete k v m
insert_at (some w) k v m = m

unfoldable pub insert : {V : Type 0} → Text → V → Map Text V → Map Text V
insert k v m = insert_at (StdMap.find text_discrete k m) k v m

unfoldable pub value_or_empty : Option Text → Text
value_or_empty none = []
value_or_empty (some v) = v

unfoldable pub item_of : Text → Option Section → Option Text
item_of item none = none
item_of item (some items) = some (value_or_empty (StdMap.find text_discrete item items))

unfoldable pub get_from : Text → Store → Option ℕ → Option Text
get_from item store none = some []
get_from item store (some p) = item_of item (store p)

unfoldable pub get_config : Text → Text → ParserIni → Option Text
get_config section item c = get_from item c.store (StdMap.find text_discrete section c.conftree)

module _ (malloc : Store → ℕ) where
  -- What `setConfig` does after its loops.
  unfoldable pub add_item : Text → Text → Text → ParserIni → Option (ParserRet × ParserIni)
  add_item section item value c =
      let p = malloc c.store in
      if p == 0
      then none
      else some (
        enotfound,
        record c {
          conftree = insert section p c.conftree;
          store = write p ((item, value) ∷ []) c.store;
        },
      )

  unfoldable pub set_item :
      Option Text → ℕ → Section → Text → Text → Text → ParserIni → Option (ParserRet × ParserIni)
  set_item none p items section item value c = add_item section item value c
  set_item (some old) p items section item value c =
      some (
        success,
        record c { store = write p (StdMap.assign text_discrete item value items) c.store },
      )

  unfoldable pub set_at :
      ℕ → Option Section → Text → Text → Text → ParserIni → Option (ParserRet × ParserIni)
  set_at p none section item value c = none
  set_at p (some items) section item value c =
      set_item (StdMap.find text_discrete item items) p items section item value c

  unfoldable pub set_from :
      Option ℕ → Text → Text → Text → ParserIni → Option (ParserRet × ParserIni)
  set_from none section item value c = add_item section item value c
  set_from (some p) section item value c = set_at p (c.store p) section item value c

  unfoldable pub set_config : Text → Text → Text → ParserIni → Option (ParserRet × ParserIni)
  set_config section item value c =
      set_from (StdMap.find text_discrete section c.conftree) section item value c

-- `strchr`: the number of bytes before the first one of a kind.
unfoldable pub str_chr : ℕ → Text → Option ℕ
str_chr c [] = none
str_chr c (x ∷ xs) = if x == c then some 0 else Option.map suc (str_chr c xs)

-- `_free` erases the first section of the tree and then reads what it has erased.
unfoldable pub free_tree : Map Text ℕ → ParserIni → Option (ParserRet × ParserIni)
free_tree [] c = some (success, c)
free_tree (section ∷ rest) c = none

pub record Loading : Type 0 where
  pub pcursection : ℕ
  pub config : ParserIni

-- An error of `_load`, which frees the tree first.
unfoldable pub load_error : Loading → Option (ParserRet × Loading)
load_error l =
    Option.map (λ c. (error, record l { config = c.1 })) (free_tree l.config.conftree l.config)

-- The lines that `_load` skips: empty ones and those that start with a newline or `#`.
unfoldable pub is_skipped : Text → Bool
is_skipped [] = true
is_skipped (x ∷ line) = x == 10 || x == 35

unfoldable pub starts_section : Text → Bool
starts_section [] = false
starts_section (x ∷ line) = x == 91

module _ (malloc : Store → ℕ) where
  unfoldable pub new_section : Text → Loading → Option (ParserRet × Loading)
  new_section name l =
      let p = malloc l.config.store in
      if p == 0
      then load_error l
      else some (
        success,
        record {
          pcursection = p;
          config = record l.config {
            conftree = insert name p l.config.conftree;
            store = write p [] l.config.store;
          };
        },
      )

  unfoldable pub load_section : Text → Option ℕ → Loading → Option (ParserRet × Loading)
  load_section line none l = load_error l
  load_section line (some n) l = new_section (take (n - 1) (drop 1 line)) l

-- `pcursection->insert`.
unfoldable pub put_item : Text → Text → Option Section → Loading → Option (ParserRet × Loading)
put_item key value none l = none
put_item key value (some items) l = some (
  success,
  record l {
    config = record l.config {
      store = write l.pcursection (insert key value items) l.config.store;
    };
  },
)

-- The value leaves out the last byte of the line. Where `=` is the last one the length of its copy
-- is below 0.
unfoldable pub load_item : Text → Option ℕ → Loading → Option (ParserRet × Loading)
load_item line none l = some (success, l)
load_item line (some n) l =
    if ltb (length line) (n + 2)
    then none
    else put_item (take n line) (take (length line - n - 2) (drop (n + 1) line))
        (l.config.store l.pcursection) l

-- PARSERINI_LINE_MAX_LEN without the null byte: what one `fgets` reads at most.
abbrev pub line_max : ℕ
line_max = 255

unfoldable pub push_byte : ℕ → List Text → List Text
push_byte x [] = (x ∷ []) ∷ []
push_byte x (line ∷ rest) = (x ∷ line) ∷ rest

-- What one `fgets` after the other reads of a file, up to and with a newline or as many bytes as the
-- buffer takes; the number is the room left in the buffer.
unfoldable pub read_lines : ℕ → Text → List Text
read_lines room [] = []
read_lines room (x ∷ file) =
    let ends = x == 10 || room == 1 in
    let rest = read_lines (if ends then line_max else room - 1) file in
    if ends then (x ∷ []) ∷ rest else push_byte x rest

-- A line as the C library's functions on strings see it.
unfoldable pub c_string : Text → Text
c_string [] = []
c_string (x ∷ line) = if x == 0 then [] else x ∷ c_string line

unfoldable pub lines_of : Text → List Text
lines_of file = map c_string (read_lines line_max file)

module _ (malloc : Store → ℕ) where
  unfoldable pub load_line : Text → Loading → Option (ParserRet × Loading)
  load_line line l =
      if is_skipped line
      then some (success, l)
      else if starts_section line
      then load_section malloc line (str_chr 93 line) l
      else if l.pcursection == 0
      then some (success, l)
      else load_item line (str_chr 61 line) l

  -- The loop of `_load` over the lines that `fgets` gives.
  unfoldable pub load_lines : List Text → Loading → Option (ParserRet × ParserIni)
  load_lines [] l = some (success, l.config)
  load_lines (line ∷ rest) l = elim (load_line line l) [
    | none ↦ none
    | some (success, l') ↦ load_lines rest l'
    | some (ret, l') ↦ some (ret, l'.config)
  ]

  -- `_load`, from the bytes of the file, if it opens, and the value that `pcursection` happens to have.
  unfoldable pub load_file : ℕ → Option Text → ParserIni → Option (ParserRet × ParserIni)
  load_file garbage none c = some (error, c)
  load_file garbage (some file) c =
      load_lines (lines_of file) (record { pcursection = garbage; config = c })

  unfoldable pub load : ℕ → Option Text → ParserIni → Option (ParserRet × ParserIni)
  load garbage file c = if not c.init_flag then some (einit, c) else load_file garbage file c

  unfoldable pub load_freed :
      ℕ → Option Text → Option (ParserRet × ParserIni) → Option (ParserRet × ParserIni)
  load_freed garbage file none = none
  load_freed garbage file (some (ret, c)) = load_file garbage file c

  -- `Reload`, from whether the file can be accessed.
  unfoldable pub reload : Bool → ℕ → Option Text → ParserIni → Option (ParserRet × ParserIni)
  reload accessible garbage file c =
      if not c.init_flag
      then some (einit, c)
      else if not accessible
      then some (ebadargs, c)
      else load_freed garbage file (free_tree c.conftree c)

-- `Free`.
unfoldable pub free : ParserIni → Option (ParserRet × ParserIni)
free c = Option.map (λ r. (r.0, record r.1 { init_flag = false })) (free_tree c.conftree c)

-- The bytes that `Storage` writes for an item and for a section.
unfoldable pub item_line : Text × Text → Text
item_line (key, value) = 9 ∷ (key ++ (61 ∷ (value ++ (10 ∷ []))))

unfoldable pub storage_items : Section → Text
storage_items [] = 10 ∷ []
storage_items (item ∷ rest) = item_line item ++ storage_items rest

unfoldable pub storage_section : Text → Section → Text
storage_section name items = 91 ∷ (name ++ (93 ∷ 10 ∷ storage_items items))
