-- ===== src/Parser/Json/Calls.antt =====
-- libparser/parser_json.cc: the calls of a ParserJsonObject, and several of them one after another
-- over the document that they share.
use comm_libs.Common.{ℕ, Bool, List, [], ◌∷◌, ◌++◌}
use comm_libs.Integer.{ℤ}
use comm_libs.StdMap.{Map}
use comm_libs.Parser.Json.{
  Ret, JsonType, Rapidjson, Event, Answers, ParserJson, JsonObject, Outcome,
}
use comm_libs.Parser.Json.Values.{
  array_of, array_set, ask_array, ask_bool, ask_double, ask_int, ask_long, ask_null, ask_object,
  ask_string, bool_of, bool_set, double_of, double_set, int_of, int_set, long_of, long_set,
  null_set, object_of, object_set, string_of, string_set,
}
use comm_libs.Parser.Json.Trees.{
  add_bool, add_bytes, add_double, add_int, add_long, add_text, add_tree, add_type, array_clear,
  array_pop, array_size, at_index, at_name, find_below, has_object, object_clear, object_delete,
  object_size, push_bool, push_bytes, push_double, push_int, push_long, push_text, push_tree,
  push_type,
}

-- `R` is the type of floating-point numbers.
pub data Call (D R : Type 0) : Type 0 where
  string_test : Call D R
  int_test : Call D R
  long_test : Call D R
  double_test : Call D R
  null_test : Call D R
  bool_test : Call D R
  array_test : Call D R
  object_test : Call D R
  string_read : (cache : List ℕ) (cache_size : ℕ) → Call D R
  int_read : (cache : ℤ) → Call D R
  long_read : (cache : ℤ) → Call D R
  double_read : (cache : R) → Call D R
  bool_read : (cache : Bool) → Call D R
  array_read : (cache : List JsonObject) → Call D R
  object_read : (cache : Map (List ℕ) JsonObject) → Call D R
  string_write : (text : List ℕ) → Call D R
  int_write : (v : ℤ) → Call D R
  long_write : (v : ℤ) → Call D R
  double_write : (v : R) → Call D R
  bool_write : (v : Bool) → Call D R
  null_write : Call D R
  array_write : Call D R
  object_write : Call D R
  array_count : (size : ℕ) → Call D R
  object_count : (size : ℕ) → Call D R
  text_push : (text : List ℕ) → Call D R
  bytes_push : (text : List ℕ) (len : ℕ) → Call D R
  int_push : (v : ℤ) → Call D R
  long_push : (v : ℤ) → Call D R
  double_push : (v : R) → Call D R
  bool_push : (v : Bool) → Call D R
  type_push : (type : JsonType) (count : ℕ) → Call D R
  tree_push : (from : D) (tree : JsonObject) → Call D R
  last_pop : Call D R
  elements_clear : Call D R
  member_test : (key : List ℕ) → Call D R
  text_add : (key text : List ℕ) → Call D R
  bytes_add : (key text : List ℕ) (len : ℕ) → Call D R
  int_add : (key : List ℕ) (v : ℤ) → Call D R
  long_add : (key : List ℕ) (v : ℤ) → Call D R
  double_add : (key : List ℕ) (v : R) → Call D R
  bool_add : (key : List ℕ) (v : Bool) → Call D R
  type_add : (key : List ℕ) (type : JsonType) → Call D R
  tree_add : (key : List ℕ) (from : D) (tree : JsonObject) → Call D R
  member_delete : (key : List ℕ) → Call D R
  members_clear : Call D R
  index_select : (index : ℤ) → Call D R
  name_select : (name : List ℕ) → Call D R
  path_find : (path : List ℕ) → Call D R

module _ {D : Type 0} where
  -- The return value of a call, or the return value that it leaves in its object, and the object.
  abbrev pub returned :
      {A : Type 0} → JsonObject → Outcome D (Ret × A) → Outcome D (Ret × JsonObject)
  returned o r = record { value = (r.value.0, o); document = r.document; events = r.events }

  abbrev pub self : Outcome D JsonObject → Outcome D (Ret × JsonObject)
  self r = record { value = (r.value.last_ret, r.value); document = r.document; events = r.events }

  abbrev pub flagged : Outcome D (Bool × JsonObject) → Outcome D (Ret × JsonObject)
  flagged r = record {
    value = (r.value.1.last_ret, r.value.1);
    document = r.document;
    events = r.events;
  }

  abbrev pub found : Outcome D (JsonObject × JsonObject) → Outcome D (Ret × JsonObject)
  found r = record {
    value = (r.value.1.last_ret, r.value.1);
    document = r.document;
    events = r.events;
  }

module _ (api : Rapidjson) where
  open api use {Document, Double}

  unfoldable pub perform :
      Call Document Double
      → Answers
      → ParserJson Document
      → JsonObject
      → Outcome Document (Ret × JsonObject)
  unfolding add_bool add_bytes add_double add_int add_long add_text add_tree add_type array_clear
      array_of array_pop array_set array_size ask_array ask_bool ask_double ask_int ask_long
      ask_null ask_object ask_string at_index at_name bool_of bool_set double_of double_set
      find_below has_object int_of int_set long_of long_set null_set object_clear object_delete
      object_of object_set object_size push_bool push_bytes push_double push_int push_long push_text
      push_tree push_type string_of string_set
  perform string_test a c o = flagged (ask_string api c o)
  perform int_test a c o = flagged (ask_int api c o)
  perform long_test a c o = flagged (ask_long api c o)
  perform double_test a c o = flagged (ask_double api c o)
  perform null_test a c o = flagged (ask_null api c o)
  perform bool_test a c o = flagged (ask_bool api c o)
  perform array_test a c o = flagged (ask_array api c o)
  perform object_test a c o = flagged (ask_object api c o)
  perform (string_read cache cache_size) a c o = returned o (string_of api cache cache_size a c o)
  perform (int_read cache) a c o = returned o (int_of api cache a c o)
  perform (long_read cache) a c o = returned o (long_of api cache a c o)
  perform (double_read cache) a c o = returned o (double_of api cache a c o)
  perform (bool_read cache) a c o = returned o (bool_of api cache a c o)
  perform (array_read cache) a c o = returned o (array_of api cache a c o)
  perform (object_read cache) a c o = returned o (object_of api cache a c o)
  perform (string_write text) a c o = self (string_set api text a c o)
  perform (int_write v) a c o = self (int_set api v a c o)
  perform (long_write v) a c o = self (long_set api v a c o)
  perform (double_write v) a c o = self (double_set api v a c o)
  perform (bool_write v) a c o = self (bool_set api v a c o)
  perform null_write a c o = self (null_set api a c o)
  perform array_write a c o = self (array_set api a c o)
  perform object_write a c o = self (object_set api a c o)
  perform (array_count size) a c o = returned o (array_size api size a c o)
  perform (object_count size) a c o = returned o (object_size api size a c o)
  perform (text_push text) a c o = self (push_text api text a c o)
  perform (bytes_push text len) a c o = self (push_bytes api text len a c o)
  perform (int_push v) a c o = self (push_int api v a c o)
  perform (long_push v) a c o = self (push_long api v a c o)
  perform (double_push v) a c o = self (push_double api v a c o)
  perform (bool_push v) a c o = self (push_bool api v a c o)
  perform (type_push type count) a c o = self (push_type api type count a c o)
  perform (tree_push from tree) a c o = self (push_tree api from tree a c o)
  perform last_pop a c o = self (array_pop api a c o)
  perform elements_clear a c o = self (array_clear api a c o)
  perform (member_test key) a c o = flagged (has_object api key a c o)
  perform (text_add key text) a c o = self (add_text api key text a c o)
  perform (bytes_add key text len) a c o = self (add_bytes api key text len a c o)
  perform (int_add key v) a c o = self (add_int api key v a c o)
  perform (long_add key v) a c o = self (add_long api key v a c o)
  perform (double_add key v) a c o = self (add_double api key v a c o)
  perform (bool_add key v) a c o = self (add_bool api key v a c o)
  perform (type_add key type) a c o = self (add_type api key type a c o)
  perform (tree_add key from tree) a c o = self (add_tree api key from tree a c o)
  perform (member_delete key) a c o = self (object_delete api key a c o)
  perform members_clear a c o = self (object_clear api a c o)
  perform (index_select index) a c o = found (at_index api index a c o)
  perform (name_select name) a c o = found (at_name api name a c o)
  perform (path_find path) a c o = found (find_below api path c o)

  pub record Request : Type 0 where
    pub call : Call Document Double
    pub answers : Answers
    pub object : JsonObject

  -- The requests of one thread after another; what the lock and the document saw.
  unfoldable pub serve : List Request → ParserJson Document → ParserJson Document × List Event
  serve [] c = (c, [])
  serve (r ∷ rest) c =
      let done = perform r.call r.answers c r.object in
      let (last, events) = serve rest (record c { document = done.document }) in
      (last, done.events ++ events)
