-- ===== src/Parser/Json/Changes.antt =====
-- libparser/parser_json.cc: how the calls on arrays and objects take the lock and read the type, for
-- any document and any change.
use comm_libs.Common.{List, ℕ, Bool, Option, none, some, [], ◌∷◌, ◌++◌, if◌then◌else◌}
use comm_libs.Parser.Json.{
  Event, Ret, success, einit, enotfound, egetrlock, egetwlock, etype, looked, changed, Answers,
  ParserJson, JsonObject, Outcome, is_success, no_object, set_ret, r_lock, w_lock, un_lock,
}

module _ {D : Type 0} where
  -- A change of an array or an object: its type is read before the lock is taken. `document` is the
  -- document after rapidjson's call.
  unfoldable pub change :
      (right_type : Bool) (document : D)
      → Answers
      → ParserJson D
      → JsonObject
      → Outcome D JsonObject
  change right_type document a c o =
      if o.init_flag
      then if right_type
        then if is_success (w_lock c a).0
          then record {
            value = set_ret success o;
            document = document;
            events = looked ∷ (w_lock c a).1 ++ changed ∷ (un_lock c a).1;
          }
          else record {
            value = set_ret egetwlock o;
            document = c.document;
            events = looked ∷ (w_lock c a).1;
          }
        else record { value = set_ret etype o; document = c.document; events = looked ∷ [] }
      else record { value = set_ret einit o; document = c.document; events = [] }

  -- The same with a type to choose: at an unsupported one (`none`) the call returns with the lock.
  unfoldable pub change_typed :
      (right_type : Bool) (document : Option D)
      → Answers
      → ParserJson D
      → JsonObject
      → Outcome D JsonObject
  change_typed right_type (some document) a c o = change right_type document a c o
  change_typed right_type none a c o =
      if o.init_flag
      then if right_type
        then record {
          value = set_ret (if is_success (w_lock c a).0 then etype else egetwlock) o;
          document = c.document;
          events = looked ∷ (w_lock c a).1;
        }
        else record { value = set_ret etype o; document = c.document; events = looked ∷ [] }
      else record { value = set_ret einit o; document = c.document; events = [] }

  -- `objectDel`; `erased` is the document without the member, `none` where there is no such member.
  unfoldable pub delete :
      (right_type : Bool) (erased : Option D)
      → Answers
      → ParserJson D
      → JsonObject
      → Outcome D JsonObject
  delete right_type (some document) a c o = change right_type document a c o
  delete right_type none a c o =
      if o.init_flag
      then if right_type
        then if is_success (w_lock c a).0
          then record {
            value = set_ret enotfound o;
            document = c.document;
            events = looked ∷ (w_lock c a).1 ++ changed ∷ (un_lock c a).1;
          }
          else record {
            value = set_ret egetwlock o;
            document = c.document;
            events = looked ∷ (w_lock c a).1;
          }
        else record { value = set_ret etype o; document = c.document; events = looked ∷ [] }
      else record { value = set_ret einit o; document = c.document; events = [] }

  -- `arraySize` and `objectSize`: the number goes to `*size`.
  unfoldable pub measure :
      (right_type : Bool) (number size : ℕ)
      → Answers
      → ParserJson D
      → JsonObject
      → Outcome D (Ret × ℕ)
  measure right_type number size a c o =
      if o.init_flag
      then if right_type
        then if is_success (r_lock c a).0
          then record {
            value = (success, number);
            document = c.document;
            events = looked ∷ (r_lock c a).1 ++ looked ∷ (un_lock c a).1;
          }
          else record {
            value = (egetrlock, size);
            document = c.document;
            events = looked ∷ (r_lock c a).1;
          }
        else record { value = (etype, size); document = c.document; events = looked ∷ [] }
      else record { value = (einit, size); document = c.document; events = [] }

  -- `operator[]`: `found` is what the value holds at the index or name, or the error, and `late` what
  -- follows `UnLock`, which the code calls before it makes the object that it returns.
  unfoldable pub select :
      (right_type : Bool) (found : Ret × JsonObject) (late : List Event)
      → Answers
      → ParserJson D
      → JsonObject
      → Outcome D (JsonObject × JsonObject)
  select right_type (found, result) late a c o =
      if o.init_flag
      then if is_success (r_lock c a).0
        then record {
          value = if right_type then (result, set_ret found o) else (no_object, set_ret etype o);
          document = c.document;
          events =
              (r_lock c a).1 ++ (looked ∷ ((un_lock c a).1 ++ (if right_type then late else [])));
        }
        else record {
          value = (no_object, set_ret egetrlock o);
          document = c.document;
          events = (r_lock c a).1;
        }
      else record { value = (no_object, set_ret einit o); document = c.document; events = [] }
