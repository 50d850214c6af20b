-- ===== src/Parser/Json/Values.antt =====
-- libparser/parser_json.cc: the type, the reading and the writing of a single value.
use comm_libs.Common.{
  ℕ, Bool, true, none, some, Option, List, [], ◌∷◌, ◌++◌, map, ltb, if◌then◌else◌, length, drop,
  ℕ_discrete,
}
use mathlib.Core.List.{List-discrete}
use comm_libs.Integer.{ℤ}
use comm_libs.StdMap
use comm_libs.StdMap.{Map}
use comm_libs.Parser.Json.{
  Ret, success, ebadargs, Rapidjson, Answers, ParserJson, JsonObject, Outcome, make_object,
  ask_type, fetch, replace,
}

-- `insert` of a `std::map`, which leaves a key that is there.
abbrev pub put_member :
    Option JsonObject → List ℕ → JsonObject → Map (List ℕ) JsonObject → Map (List ℕ) JsonObject
put_member (some old) name o m = m
put_member none name o m = StdMap.assign (List-discrete ℕ_discrete) name o m

unfoldable pub put_members : List (List ℕ × ℕ) → Map (List ℕ) JsonObject → Map (List ℕ) JsonObject
put_members [] m = m
put_members ((name, address) ∷ rest) m =
    put_members rest
      (put_member (StdMap.find (List-discrete ℕ_discrete) name m) name (make_object true address) m)

module _ (api : Rapidjson) where
  open api use {
    Document, Double, is_string, is_int, is_int64, is_double, is_null, is_bool, is_array, is_object,
    get_string, get_int, get_int64, get_double, get_bool, elements, members, set_string, set_int,
    set_int64, set_double, set_null, set_bool, set_array, set_object,
  }

  -- `getString` with a cache of `cache_size` bytes; `cache` is what they hold before.
  unfoldable pub string_of :
      (cache : List ℕ) (cache_size : ℕ)
      → Answers
      → ParserJson Document
      → JsonObject
      → Outcome Document (Ret × List ℕ)
  string_of cache cache_size a c o =
      let text = get_string c.document o.value in
      fetch (is_string c.document o.value)
        (if ltb (length text) cache_size
          then (success, text ++ drop (length text) cache)
          else (ebadargs, cache))
        cache a c o

  unfoldable pub int_of :
      ℤ → Answers → ParserJson Document → JsonObject → Outcome Document (Ret × ℤ)
  int_of cache a c o =
      fetch (is_int c.document o.value) (success, get_int c.document o.value) cache a c o

  unfoldable pub long_of :
      ℤ → Answers → ParserJson Document → JsonObject → Outcome Document (Ret × ℤ)
  long_of cache a c o =
      fetch (is_int64 c.document o.value) (success, get_int64 c.document o.value) cache a c o

  unfoldable pub double_of :
      Double → Answers → ParserJson Document → JsonObject → Outcome Document (Ret × Double)
  double_of cache a c o =
      fetch (is_double c.document o.value) (success, get_double c.document o.value) cache a c o

  unfoldable pub bool_of :
      Bool → Answers → ParserJson Document → JsonObject → Outcome Document (Ret × Bool)
  bool_of cache a c o =
      fetch (is_bool c.document o.value) (success, get_bool c.document o.value) cache a c o

  -- `getArray`: the elements' objects go to the end of the vector.
  unfoldable pub array_of :
      List JsonObject
      → Answers
      → ParserJson Document
      → JsonObject
      → Outcome Document (Ret × List JsonObject)
  array_of cache a c o =
      fetch (is_array c.document o.value)
        (success, cache ++ map (make_object true) (elements c.document o.value)) cache a c o

  -- `getObject`
  unfoldable pub object_of :
      Map (List ℕ) JsonObject
      → Answers
      → ParserJson Document
      → JsonObject
      → Outcome Document (Ret × Map (List ℕ) JsonObject)
  object_of cache a c o =
      fetch (is_object c.document o.value) (success, put_members (members c.document o.value) cache)
        cache a c o

  -- `setString` and the other setters.
  unfoldable pub string_set :
      List ℕ → Answers → ParserJson Document → JsonObject → Outcome Document JsonObject
  string_set text a c o = replace (set_string text o.value c.document) a c o

  unfoldable pub int_set :
      ℤ → Answers → ParserJson Document → JsonObject → Outcome Document JsonObject
  int_set v a c o = replace (set_int v o.value c.document) a c o

  unfoldable pub long_set :
      ℤ → Answers → ParserJson Document → JsonObject → Outcome Document JsonObject
  long_set v a c o = replace (set_int64 v o.value c.document) a c o

  unfoldable pub double_set :
      Double → Answers → ParserJson Document → JsonObject → Outcome Document JsonObject
  double_set v a c o = replace (set_double v o.value c.document) a c o

  unfoldable pub bool_set :
      Bool → Answers → ParserJson Document → JsonObject → Outcome Document JsonObject
  bool_set v a c o = replace (set_bool v o.value c.document) a c o

  unfoldable pub null_set : Answers → ParserJson Document → JsonObject → Outcome Document JsonObject
  null_set a c o = replace (set_null o.value c.document) a c o

  unfoldable pub array_set :
      Answers → ParserJson Document → JsonObject → Outcome Document JsonObject
  array_set a c o = replace (set_array o.value c.document) a c o

  unfoldable pub object_set :
      Answers → ParserJson Document → JsonObject → Outcome Document JsonObject
  object_set a c o = replace (set_object o.value c.document) a c o

  unfoldable pub ask_string :
      ParserJson Document → JsonObject → Outcome Document (Bool × JsonObject)
  ask_string c o = ask_type (is_string c.document o.value) c o

  unfoldable pub ask_int : ParserJson Document → JsonObject → Outcome Document (Bool × JsonObject)
  ask_int c o = ask_type (is_int c.document o.value) c o

  unfoldable pub ask_long : ParserJson Document → JsonObject → Outcome Document (Bool × JsonObject)
  ask_long c o = ask_type (is_int64 c.document o.value) c o

  unfoldable pub ask_double :
      ParserJson Document → JsonObject → Outcome Document (Bool × JsonObject)
  ask_double c o = ask_type (is_double c.document o.value) c o

  unfoldable pub ask_null : ParserJson Document → JsonObject → Outcome Document (Bool × JsonObject)
  ask_null c o = ask_type (is_null c.document o.value) c o

  unfoldable pub ask_bool : ParserJson Document → JsonObject → Outcome Document (Bool × JsonObject)
  ask_bool c o = ask_type (is_bool c.document o.value) c o

  unfoldable pub ask_array : ParserJson Document → JsonObject → Outcome Document (Bool × JsonObject)
  ask_array c o = ask_type (is_array c.document o.value) c o

  unfoldable pub ask_object :
      ParserJson Document → JsonObject → Outcome Document (Bool × JsonObject)
  ask_object c o = ask_type (is_object c.document o.value) c o
