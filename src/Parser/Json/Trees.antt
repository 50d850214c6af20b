-- ===== src/Parser/Json/Trees.antt =====
-- libparser/parser_json.cc: the elements of arrays, the members of objects, and the search for a value.
use comm_libs.Common.{
  ℕ, zero, suc, Bool, true, false, Option, none, some, List, [], ◌∷◌, ◌++◌, ltb, if◌then◌else◌,
}
use comm_libs.Integer.{ℤ, pos, negsuc}
use comm_libs.Parser.Json.{
  Event, Ret, success, einit, ebadargs, enotfound, egetrlock, etype, JsonType, string, int, double,
  bool, array, object, null, Rapidjson, looked, Answers, ParserJson, JsonObject, Outcome,
  is_success, make_object, no_object, set_ret, r_lock, un_lock,
}
use comm_libs.Parser.Json.Changes.{change, change_typed, delete, measure, select}

module _ (api : Rapidjson) where
  open api use {
    Document, Item, Double, is_array, is_object, size, element, text_item, bytes_item, int_item,
    int64_item, double_item, bool_item, array_item, object_item, null_item, number_item, copy_item,
    push_back, pop_back, clear, member_count, find_member, add_member, erase_member,
    remove_all_members, at_path,
  }

  abbrev pub Action : Type 0
  Action = Answers → ParserJson Document → JsonObject → Outcome Document JsonObject

  -- The value that a type gives, `none` at the default of the switch.
  abbrev pub value_type : JsonType → Option Item
  value_type array = some array_item
  value_type object = some object_item
  value_type null = some null_item
  value_type int = some number_item
  value_type string = none
  value_type double = none
  value_type bool = none

  abbrev pub push_item : Item → Action
  push_item item a c o =
      change (is_array c.document o.value) (push_back item o.value c.document) a c o

  abbrev pub add_item : List ℕ → Item → Action
  add_item key item a c o =
      change (is_object c.document o.value) (add_member key item o.value c.document) a c o

  abbrev pub push_back_times : ℕ → Item → ℕ → Document → Document
  push_back_times zero item address d = d
  push_back_times (suc n) item address d = push_back_times n item address (push_back item address d)

  abbrev pub push_some : Option Item → ℕ → ℕ → Document → Option Document
  push_some none count address d = none
  push_some (some item) count address d = some (push_back_times count item address d)

  abbrev pub add_some : List ℕ → Option Item → ℕ → Document → Option Document
  add_some key none address d = none
  add_some key (some item) address d = some (add_member key item address d)

  -- The overloads of `arrayPush`.
  unfoldable pub push_text : List ℕ → Action
  push_text v = push_item (text_item v)

  unfoldable pub push_int : ℤ → Action
  push_int v = push_item (int_item v)

  unfoldable pub push_long : ℤ → Action
  push_long v = push_item (int64_item v)

  unfoldable pub push_double : Double → Action
  push_double v = push_item (double_item v)

  unfoldable pub push_bool : Bool → Action
  push_bool v = push_item (bool_item v)

  unfoldable pub push_bytes : List ℕ → ℕ → Action
  push_bytes v len = push_item (bytes_item v len)

  unfoldable pub push_type : JsonType → ℕ → Action
  push_type type count a c o =
      change_typed (is_array c.document o.value)
        (push_some (value_type type) count o.value c.document) a c o

  -- `tree` stands in the document that `from` is, which the other object may not share.
  unfoldable pub push_tree : (from : Document) → JsonObject → Action
  push_tree from tree = push_item (copy_item from tree.value)

  unfoldable pub array_pop : Action
  array_pop a c o = change (is_array c.document o.value) (pop_back o.value c.document) a c o

  unfoldable pub array_clear : Action
  array_clear a c o = change (is_array c.document o.value) (clear o.value c.document) a c o

  -- The overloads of `objectAdd`.
  unfoldable pub add_text : List ℕ → List ℕ → Action
  add_text key v = add_item key (text_item v)

  unfoldable pub add_int : List ℕ → ℤ → Action
  add_int key v = add_item key (int_item v)

  unfoldable pub add_long : List ℕ → ℤ → Action
  add_long key v = add_item key (int64_item v)

  unfoldable pub add_double : List ℕ → Double → Action
  add_double key v = add_item key (double_item v)

  unfoldable pub add_bool : List ℕ → Bool → Action
  add_bool key v = add_item key (bool_item v)

  unfoldable pub add_bytes : List ℕ → List ℕ → ℕ → Action
  add_bytes key v len = add_item key (bytes_item v len)

  unfoldable pub add_type : List ℕ → JsonType → Action
  add_type key type a c o =
      change_typed (is_object c.document o.value)
        (add_some key (value_type type) o.value c.document) a c o

  unfoldable pub add_tree : List ℕ → (from : Document) → JsonObject → Action
  add_tree key from tree = add_item key (copy_item from tree.value)

  unfoldable pub object_delete : List ℕ → Action
  object_delete key a c o =
      delete (is_object c.document o.value) (erase_member key o.value c.document) a c o

  unfoldable pub object_clear : Action
  object_clear a c o =
      change (is_object c.document o.value) (remove_all_members o.value c.document) a c o

  -- `arraySize` and `objectSize`.
  unfoldable pub array_size :
      ℕ → Answers → ParserJson Document → JsonObject → Outcome Document (Ret × ℕ)
  array_size cache a c o =
      measure (is_array c.document o.value) (size c.document o.value) cache a c o

  unfoldable pub object_size :
      ℕ → Answers → ParserJson Document → JsonObject → Outcome Document (Ret × ℕ)
  object_size cache a c o =
      measure (is_object c.document o.value) (member_count c.document o.value) cache a c o

  abbrev pub is_found : Option ℕ → Bool
  is_found none = false
  is_found (some address) = true

  -- `hasObject`
  unfoldable pub has_object :
      List ℕ → Answers → ParserJson Document → JsonObject → Outcome Document (Bool × JsonObject)
  has_object key a c o =
      if o.init_flag
      then if is_object c.document o.value
        then if is_success (r_lock c a).0
          then record {
            value = (is_found (find_member key c.document o.value), set_ret success o);
            document = c.document;
            events = looked ∷ (r_lock c a).1 ++ looked ∷ (un_lock c a).1;
          }
          else record {
            value = (false, set_ret egetrlock o);
            document = c.document;
            events = looked ∷ (r_lock c a).1;
          }
        else record {
          value = (false, set_ret etype o);
          document = c.document;
          events = looked ∷ [];
        }
      else record { value = (false, set_ret einit o); document = c.document; events = [] }

  -- What `operator[]` of an index and of a name finds.
  abbrev pub at_element : ℤ → Document → ℕ → Ret × JsonObject
  at_element (negsuc index) d address = (ebadargs, no_object)
  at_element (pos index) d address =
      if ltb (size d address) index
      then (ebadargs, no_object)
      else (success, make_object true (element d address index))

  abbrev pub at_member : Option ℕ → Ret × JsonObject
  at_member none = (enotfound, no_object)
  at_member (some address) = (success, make_object true address)

  -- With an index that is found, `(*rpj_value_)[index]` is evaluated after `UnLock`.
  abbrev pub late_look : Ret → List Event
  late_look success = looked ∷ []
  late_look _ = []

  unfoldable pub at_index :
      ℤ → Answers → ParserJson Document → JsonObject → Outcome Document (JsonObject × JsonObject)
  at_index index a c o =
      let found = at_element index c.document o.value in
      select (is_array c.document o.value) found (late_look found.0) a c o

  unfoldable pub at_name :
      List ℕ
      → Answers
      → ParserJson Document
      → JsonObject
      → Outcome Document (JsonObject × JsonObject)
  at_name name a c o =
      select (is_object c.document o.value) (at_member (find_member name c.document o.value)) [] a c
        o

  -- `Vfind`, which takes no lock; an object without a value is returned itself.
  abbrev pub follow : Option ℕ → JsonObject → JsonObject × JsonObject
  follow none o = (no_object, set_ret enotfound o)
  follow (some address) o = (make_object true address, set_ret success o)

  unfoldable pub find_below :
      List ℕ → ParserJson Document → JsonObject → Outcome Document (JsonObject × JsonObject)
  find_below path c o =
      if o.init_flag
      then record {
        value = follow (at_path path c.document o.value) o;
        document = c.document;
        events = looked ∷ [];
      }
      else record { value = (set_ret einit o, set_ret einit o); document = c.document; events = [] }
