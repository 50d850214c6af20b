-- ===== src/Parser/Json.antt =====
-- libparser/parser_json.cc: ParserJsonObject and ParserJson over rapidjson, which is a parameter. A
-- call returns its value and the document after it, with the accesses of the document and the calls
-- of the lock that it makes, in order. What the lock answers is an argument. Texts are the bytes
-- before the null byte; an address is a number, 0 for a null pointer.
pub mod Values
pub mod Changes
pub mod Trees
pub mod Calls
pub mod Locking
pub mod Holds
pub mod Documents
mod Examples
use comm_libs.Common.{
  ℕ, Bool, true, false, not, Option, none, some, List, [], ◌∷◌, ◌++◌, map, ltb, if◌then◌else◌, ◌==◌,
  length, drop, ℕ_discrete,
}
use mathlib.Core.List.{List-discrete}
use comm_libs.StdMap
use comm_libs.StdMap.{Map}
use comm_libs.Integer.{ℤ}

pub data Ret : Type 0 where
  success einit ebadargs error enotfound elock egetrlock egetwlock etype espace : Ret

pub data JsonType : Type 0 where
  string int double bool array object null : JsonType

-- What the code calls of rapidjson: a document is the memory of all its values, and an `Item` a value
-- that is not yet part of it.
pub record Rapidjson : Type 1 where
  pub Document : Type 0
  pub Item : Type 0
  pub Double : Type 0
  pub is_string : Document → ℕ → Bool
  pub is_int : Document → ℕ → Bool
  pub is_int64 : Document → ℕ → Bool
  pub is_double : Document → ℕ → Bool
  pub is_null : Document → ℕ → Bool
  pub is_bool : Document → ℕ → Bool
  pub is_array : Document → ℕ → Bool
  pub is_object : Document → ℕ → Bool
  pub get_string : Document → ℕ → List ℕ
  pub get_int : Document → ℕ → ℤ
  pub get_int64 : Document → ℕ → ℤ
  pub get_double : Document → ℕ → Double
  pub get_bool : Document → ℕ → Bool
  pub elements : Document → ℕ → List ℕ
  pub members : Document → ℕ → List (List ℕ × ℕ)
  pub set_string : List ℕ → ℕ → Document → Document
  pub set_int : ℤ → ℕ → Document → Document
  pub set_int64 : ℤ → ℕ → Document → Document
  pub set_double : Double → ℕ → Document → Document
  pub set_null : ℕ → Document → Document
  pub set_bool : Bool → ℕ → Document → Document
  pub set_array : ℕ → Document → Document
  pub set_object : ℕ → Document → Document
  pub size : Document → ℕ → ℕ
  pub element : Document → ℕ → ℕ → ℕ
  pub text_item : List ℕ → Item
  pub bytes_item : List ℕ → ℕ → Item
  pub int_item : ℤ → Item
  pub int64_item : ℤ → Item
  pub double_item : Double → Item
  pub bool_item : Bool → Item
  pub array_item : Item
  pub object_item : Item
  pub null_item : Item
  pub number_item : Item
  pub copy_item : Document → ℕ → Item
  pub push_back : Item → ℕ → Document → Document
  pub pop_back : ℕ → Document → Document
  pub clear : ℕ → Document → Document
  pub member_count : Document → ℕ → ℕ
  pub find_member : List ℕ → Document → ℕ → Option ℕ
  pub add_member : List ℕ → Item → ℕ → Document → Document
  pub erase_member : List ℕ → ℕ → Document → Option Document
  pub remove_all_members : ℕ → Document → Document
  pub at_path : List ℕ → Document → ℕ → Option ℕ

pub data Event : Type 0 where
  read_locked write_locked refused unlocked unlock_failed looked changed : Event

-- What the lock answers to the call's request and to its release.
pub record Answers : Type 0 where
  pub granted : Bool
  pub released : Bool

pub record ParserJson (D : Type 0) : Type 0 where
  pub thread_safe : Bool
  pub document : D

pub record JsonObject : Type 0 where
  pub init_flag : Bool
  pub value : ℕ
  pub last_ret : Ret

pub record Outcome (D A : Type 0) : Type 0 where
  pub value : A
  pub document : D
  pub events : List Event

abbrev pub is_success : Ret → Bool
is_success success = true
is_success _ = false

-- The constructor, from whether the center is not null and the address of the value.
unfoldable pub make_object : Bool → ℕ → JsonObject
make_object center address = record {
  init_flag = if center then not (address == 0) else false;
  value = address;
  last_ret = success;
}

-- The default constructor.
abbrev pub no_object : JsonObject
no_object = record { init_flag = false; value = 0; last_ret = success }

-- `operator=` and the copy constructor.
pub copy : JsonObject → JsonObject
copy other = record { init_flag = other.init_flag; value = other.value; last_ret = other.last_ret }

-- `hasError`
pub has_error : JsonObject → Bool
has_error o = not (is_success o.last_ret)

-- `_setret`
abbrev pub set_ret : Ret → JsonObject → JsonObject
set_ret ret o = record o { last_ret = ret }

module _ {D : Type 0} where
  unfoldable pub r_lock : ParserJson D → Answers → Ret × List Event
  r_lock c a =
      if c.thread_safe
      then if a.granted then (success, read_locked ∷ []) else (elock, refused ∷ [])
      else (success, [])

  unfoldable pub w_lock : ParserJson D → Answers → Ret × List Event
  w_lock c a =
      if c.thread_safe
      then if a.granted then (success, write_locked ∷ []) else (elock, refused ∷ [])
      else (success, [])

  unfoldable pub un_lock : ParserJson D → Answers → Ret × List Event
  un_lock c a =
      if c.thread_safe
      then if a.released then (success, unlocked ∷ []) else (elock, unlock_failed ∷ [])
      else (success, [])

  -- The functions `is...`, which take no lock; `matches` is what rapidjson says.
  unfoldable pub ask_type :
      (matches : Bool) → ParserJson D → JsonObject → Outcome D (Bool × JsonObject)
  ask_type matches c o =
      if o.init_flag
      then record {
        value = (matches, set_ret success o);
        document = c.document;
        events = looked ∷ [];
      }
      else record { value = (false, set_ret einit o); document = c.document; events = [] }

  -- The getters: `found` is the return value and what is left in the cache where the type is right.
  unfoldable pub fetch :
      {A : Type 0} (matches : Bool) (found : Ret × A) (cache : A)
      → Answers
      → ParserJson D
      → JsonObject
      → Outcome D (Ret × A)
  fetch matches found cache a c o =
      if o.init_flag
      then if is_success (r_lock c a).0
        then record {
          value = if matches then found else (enotfound, cache);
          document = c.document;
          events = (r_lock c a).1 ++ looked ∷ (un_lock c a).1;
        }
        else record {
          value = ((r_lock c a).0, cache);
          document = c.document;
          events = (r_lock c a).1;
        }
      else record { value = (einit, cache); document = c.document; events = [] }

  -- The setters: `document` is the document after rapidjson's call.
  unfoldable pub replace :
      (document : D) → Answers → ParserJson D → JsonObject → Outcome D JsonObject
  replace document a c o =
      if o.init_flag
      then if is_success (w_lock c a).0
        then record {
          value = set_ret success o;
          document = document;
          events = (w_lock c a).1 ++ changed ∷ (un_lock c a).1;
        }
        else record { value = set_ret egetwlock o; document = c.document; events = (w_lock c a).1 }
      else record { value = set_ret einit o; document = c.document; events = [] }
