-- ===== src/Parser/Json/Documents.antt =====
-- The document of libparser/parser_json.cc after calls that fail.
use comm_libs.Common.{ℕ, true, ◌<◌, ◌≤◌, ◌↔◌, ◌≡◌, ◌≢◌, arith}
use comm_libs.Integer.{pos, negsuc}
use comm_libs.Parser.Json.{
  success, ebadargs, make_object, string, int, double, bool, array, object, null, Rapidjson,
  Answers, ParserJson, JsonObject, ask_type, fetch, replace, r_lock, w_lock, un_lock,
}
use comm_libs.Parser.Json.Changes.{change, change_typed, delete, measure, select}
use comm_libs.Parser.Json.Trees.{at_index, has_object, find_below}
use comm_libs.Parser.Json.Calls.{Call, perform, member_delete, type_push, type_add}

module _ (api : Rapidjson) where
  open api use {Document, Double, is_array, size}

  -- A call that does not return or leave SUCCESS leaves the document as it is.
  pub failed_keeps :
      (call : Call Document Double) (a : Answers) (c : ParserJson Document) (o : JsonObject)
      → (perform api call a c o).value.0 ≢ success
      → (perform api call a c o).document ≡ c.document
  unfolding perform fetch replace change change_typed delete measure select ask_type has_object
      find_below r_lock w_lock un_lock
  failed_keeps (type_push string count) a c o h = ground arith
  failed_keeps (type_push int count) a c o h = ground arith
  failed_keeps (type_push double count) a c o h = ground arith
  failed_keeps (type_push bool count) a c o h = ground arith
  failed_keeps (type_push array count) a c o h = ground arith
  failed_keeps (type_push object count) a c o h = ground arith
  failed_keeps (type_push null count) a c o h = ground arith
  failed_keeps (type_add key string) a c o h = ground arith
  failed_keeps (type_add key int) a c o h = ground arith
  failed_keeps (type_add key double) a c o h = ground arith
  failed_keeps (type_add key bool) a c o h = ground arith
  failed_keeps (type_add key array) a c o h = ground arith
  failed_keeps (type_add key object) a c o h = ground arith
  failed_keeps (type_add key null) a c o h = ground arith
  failed_keeps (member_delete key) a c o h = ground arith
  failed_keeps call a c o h = ground arith

  -- On an available array whose lock can be taken, `operator[]` ends with SUCCESS exactly for the
  -- indices from 0 to the size, the size included, which is one behind the last element; it gives
  -- EBADARGS for every other index.
  pub at_index_bounds :
      (a : Answers) (c : ParserJson Document) (o : JsonObject)
      → o.init_flag ≡ true
      → is_array c.document o.value ≡ true
      → (r_lock c a).0 ≡ success
      → (n : ℕ)
      → (((at_index api (pos n) a c o).value.1.last_ret ≡ success) ↔ (n ≤ size c.document o.value))
        × (size c.document o.value < n → (at_index api (pos n) a c o).value.1.last_ret ≡ ebadargs)
        × ((at_index api (negsuc n) a c o).value.1.last_ret ≡ ebadargs)
  unfolding at_index select make_object
  at_index_bounds a c o init listed lock n = ground arith
