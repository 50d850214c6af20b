-- ===== src/Parser/Json/Holds.antt =====
-- The lock through the calls of libparser/parser_json.cc, one and several.
use comm_libs.Common.{
  ℕ, Bool, true, false, not, none, some, List, [], ◌∷◌, ◌≡◌, refl, ◌∙◌, arith, if◌then◌else◌, ◌&&◌,
  ltb,
}
use comm_libs.Integer.{ℤ, pos, negsuc}
use comm_libs.Parser.Json.{
  JsonType, string, int, double, bool, array, object, null, Rapidjson, Answers, ParserJson,
  JsonObject, ask_type, fetch, replace, r_lock, w_lock, un_lock,
}
use comm_libs.Parser.Json.Changes.{change, change_typed, delete, measure, select}
use comm_libs.Parser.Json.Trees.{has_object, find_below, at_index, at_name}
use comm_libs.Parser.Json.Calls.{
  Call, perform, Request, serve, string_read, int_read, long_read, double_read, bool_read,
  array_read, object_read, string_write, int_write, long_write, double_write, bool_write,
  null_write, array_write, object_write, type_push, type_add, index_select, name_select,
}
use comm_libs.Parser.Json.Locking.{free, writing, lock_step, strict_step, replay, replay-append}

-- The types that the calls can push or add.
abbrev pub is_supported : JsonType → Bool
is_supported string = false
is_supported int = true
is_supported double = false
is_supported bool = false
is_supported array = true
is_supported object = true
is_supported null = true

module _ {D R : Type 0} where
  -- A call with a type other than these.
  abbrev pub is_unsupported : Call D R → Bool
  is_unsupported (type_push type count) = not (is_supported type)
  is_unsupported (type_add key type) = not (is_supported type)
  is_unsupported _ = false

  -- The getters, the setters and `operator[]`.
  abbrev pub is_guarded : Call D R → Bool
  is_guarded (string_read _ _) = true
  is_guarded (int_read _) = true
  is_guarded (long_read _) = true
  is_guarded (double_read _) = true
  is_guarded (bool_read _) = true
  is_guarded (array_read _) = true
  is_guarded (object_read _) = true
  is_guarded (string_write _) = true
  is_guarded (int_write _) = true
  is_guarded (long_write _) = true
  is_guarded (double_write _) = true
  is_guarded (bool_write _) = true
  is_guarded null_write = true
  is_guarded array_write = true
  is_guarded object_write = true
  is_guarded (index_select _) = true
  is_guarded (name_select _) = true
  is_guarded _ = false

module _ (api : Rapidjson) where
  open api use {Document, Double, is_array, is_object, size}

  -- The value has the type that a call with a type wants.
  abbrev pub right_type : Call Document Double → Document → ℕ → Bool
  right_type (type_push type count) d address = is_array d address
  right_type (type_add key type) d address = is_object d address
  right_type _ d address = true

  -- The index of an array that `operator[]` finds, its size included.
  abbrev pub finds_index : ℤ → Document → ℕ → Bool
  finds_index (pos n) d address = is_array d address && not (ltb (size d address) n)
  finds_index (negsuc n) d address = false

  abbrev pub is_indexed : Call Document Double → Document → ℕ → Bool
  is_indexed (index_select index) d address = finds_index index d address
  is_indexed _ d address = false

  module _ (a : Answers) (c : ParserJson Document) (o : JsonObject) (safe : c.thread_safe ≡ true)
      (released : a.released ≡ true) where
    -- In thread-safe mode, where a lock that is held can be released, a call that starts without the
    -- lock changes the document only while it holds the lock for writing, and ends without it; but a
    -- call that pushes or adds a value of an unsupported type on an available object of its kind, and
    -- is granted the lock, ends with the lock held for writing.
    pub perform-Hold :
        (call : Call Document Double)
        → replay lock_step free (perform api call a c o).events
          ≡ some (
              if is_unsupported call
                && (o.init_flag && (right_type call c.document o.value && a.granted))
              then writing
              else free)
    unfolding perform fetch replace change change_typed delete measure select ask_type has_object
        find_below at_index at_name r_lock w_lock un_lock
    perform-Hold (type_push string count) = ground arith
    perform-Hold (type_push int count) = ground arith
    perform-Hold (type_push double count) = ground arith
    perform-Hold (type_push bool count) = ground arith
    perform-Hold (type_push array count) = ground arith
    perform-Hold (type_push object count) = ground arith
    perform-Hold (type_push null count) = ground arith
    perform-Hold (type_add key string) = ground arith
    perform-Hold (type_add key int) = ground arith
    perform-Hold (type_add key double) = ground arith
    perform-Hold (type_add key bool) = ground arith
    perform-Hold (type_add key array) = ground arith
    perform-Hold (type_add key object) = ground arith
    perform-Hold (type_add key null) = ground arith
    perform-Hold (index_select (pos n)) = ground arith
    perform-Hold (index_select (negsuc n)) = ground arith
    perform-Hold call = ground arith

    -- In thread-safe mode, where a lock that is held can be released, the getters, the setters and
    -- `operator[]` on an available object read the document only while they hold the lock, and end
    -- without it, but for `operator[]` of an index that it finds in an array, granted the lock: that
    -- one reads the document again once the lock is released. Every other call on an available object
    -- reads the document without the lock.
    pub reads_unlocked :
        (call : Call Document Double)
        → o.init_flag ≡ true
        → replay strict_step free (perform api call a c o).events ≡ (
            if is_guarded call && not (is_indexed call c.document o.value && a.granted)
            then some free
            else none)
    unfolding perform fetch replace change change_typed delete measure select ask_type has_object
        find_below at_index at_name r_lock w_lock un_lock
    reads_unlocked (type_push string count) h = ground arith
    reads_unlocked (type_push int count) h = ground arith
    reads_unlocked (type_push double count) h = ground arith
    reads_unlocked (type_push bool count) h = ground arith
    reads_unlocked (type_push array count) h = ground arith
    reads_unlocked (type_push object count) h = ground arith
    reads_unlocked (type_push null count) h = ground arith
    reads_unlocked (type_add key string) h = ground arith
    reads_unlocked (type_add key int) h = ground arith
    reads_unlocked (type_add key double) h = ground arith
    reads_unlocked (type_add key bool) h = ground arith
    reads_unlocked (type_add key array) h = ground arith
    reads_unlocked (type_add key object) h = ground arith
    reads_unlocked (type_add key null) h = ground arith
    reads_unlocked (index_select (pos n)) h = ground arith
    reads_unlocked (index_select (negsuc n)) h = ground arith
    reads_unlocked call h = ground arith

  -- The lock can be released after each request, and no request has an unsupported type.
  abbrev pub AreSupported : List (Request api) → Type 0
  AreSupported [] = Unit
  AreSupported (r ∷ rest) =
      (r.answers.released ≡ true) × (is_unsupported r.call ≡ false) × AreSupported rest

  -- In thread-safe mode, a thread that sends any requests without an unsupported type, over any
  -- objects of one document, changes the document only while it holds the lock for writing, and ends
  -- without the lock, where a lock that is held can be released.
  pub serve-free :
      (requests : List (Request api)) (c : ParserJson Document)
      → c.thread_safe ≡ true
      → AreSupported requests
      → replay lock_step free (serve api requests c).1 ≡ some free
  unfolding serve
  serve-free [] c safe h = refl
  serve-free (r ∷ rest) c safe (released, supported, others) =
      let done = perform api r.call r.answers c r.object in
      let after = record c { document = done.document } in
      replay-append lock_step free {k = free} done.events (serve api rest after).1
        (perform-Hold r.answers c r.object safe released r.call ∙ rw supported)
      ∙ serve-free rest after safe others
