-- ===== src/Parser/Json/Examples.antt =====
-- The theorems on libparser/parser_json.cc at one document.
use comm_libs.Common.{◌+◌, true, false, none, some, List, [], ◌∷◌, ◌≡◌, ◌≢◌, refl, length}
use comm_libs.Integer.{ℤ, pos}
use comm_libs.Parser.Json.{
  success, string, Rapidjson, Answers, ParserJson, JsonObject, r_lock, w_lock,
}
use comm_libs.Parser.Json.Changes.{change_typed}
use comm_libs.Parser.Json.Calls.{
  Request, perform, serve, int_push, int_read, type_push, array_count,
}
use comm_libs.Parser.Json.Locking.{free, writing, lock_step, strict_step, replay}
use comm_libs.Parser.Json.Holds.{perform-Hold, reads_unlocked, serve-free}

-- A document of one value: an array of numbers.
abbrev toy : Rapidjson
toy = record {
  Document = List ℤ;
  Item = ℤ;
  Double = ℤ;
  is_string = λ d p. false;
  is_int = λ d p. false;
  is_int64 = λ d p. false;
  is_double = λ d p. false;
  is_null = λ d p. false;
  is_bool = λ d p. false;
  is_array = λ d p. true;
  is_object = λ d p. false;
  get_string = λ d p. [];
  get_int = λ d p. pos 0;
  get_int64 = λ d p. pos 0;
  get_double = λ d p. pos 0;
  get_bool = λ d p. false;
  elements = λ d p. [];
  members = λ d p. [];
  set_string = λ v p d. d;
  set_int = λ v p d. v ∷ [];
  set_int64 = λ v p d. v ∷ [];
  set_double = λ v p d. v ∷ [];
  set_null = λ p d. [];
  set_bool = λ v p d. [];
  set_array = λ p d. [];
  set_object = λ p d. [];
  size = λ d p. length d;
  element = λ d p i. i + 2;
  text_item = λ v. pos 0;
  bytes_item = λ v n. pos n;
  int_item = λ v. v;
  int64_item = λ v. v;
  double_item = λ v. v;
  bool_item = λ v. pos 1;
  array_item = pos 0;
  object_item = pos 0;
  null_item = pos 0;
  number_item = pos 0;
  copy_item = λ d p. pos 0;
  push_back = λ v p d. v ∷ d;
  pop_back = λ p d. [];
  clear = λ p d. [];
  member_count = λ d p. 0;
  find_member = λ k d p. none;
  add_member = λ k v p d. d;
  erase_member = λ k p d. none;
  remove_all_members = λ p d. d;
  at_path = λ k d p. none;
}

abbrev granted_both : Answers
granted_both = record { granted = true; released = true }

abbrev center : ParserJson (List ℤ)
center = record { thread_safe = true; document = pos 7 ∷ [] }

abbrev root : JsonObject
root = record { init_flag = true; value = 1; last_ret = success }

perform-Hold_example :
    replay lock_step free (perform toy (type_push string 2) granted_both center root).events
    ≡ some writing
perform-Hold_example = perform-Hold toy granted_both center root refl refl (type_push string 2)

reads_unlocked_example :
    replay strict_step free (perform toy (array_count 0) granted_both center root).events ≡ none
reads_unlocked_example = reads_unlocked toy granted_both center root refl refl (array_count 0) refl

abbrev requests : List (Request toy)
requests =
    record { call = int_push (pos 5); answers = granted_both; object = root }
    ∷ record { call = int_read (pos 0); answers = granted_both; object = root }
    ∷ []

serve-free_example : replay lock_step free (serve toy requests center).1 ≡ some free
serve-free_example = serve-free toy requests center refl (refl, refl, (refl, refl, tt))

fails : (perform toy (type_push string 2) granted_both center root).value.0 ≢ success
unfolding perform change_typed w_lock
fails = λ h. cc

opened : (r_lock center granted_both).0 ≡ success
unfolding r_lock
opened = refl
