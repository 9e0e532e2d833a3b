-- ===== src/Validation/Field.antt =====
-- `FieldRef` and `AnyFields` of src/rhai_ctx/event_validation.rs: each method that a script may call.
use ingest4x.Prelude.{
  ℕ, ◌+◌, Bool, true, false, ◌||◌, not, Option, none, some, List, [], ◌∷◌, ◌++◌, leb, is_empty,
  if◌then◌else◌,
}
use ingest4x.Prelude.Int.{ℤ, pos, negsuc}
use ingest4x.Text.{Text, codes}
use ingest4x.Result.{Result, ok, err, ◌>>=◌, ◌>>◌, guard, ok_or, map_err}
use ingest4x.Wal.Segment.{decimal}
use ingest4x.Validation.Value.{
  Value, FieldType, string_type, NumberComparison, Numbers, is_null, as_str, lookup_path,
  is_present, exists_non_null, chars_count, strings_equal, field_type_display, description,
  type_matches, comparison_matches, value_as_f64, values_equal,
}

pub data FieldPresence : Type 0 where
  inspect required_field optional_field : FieldPresence

-- An element of a script's array: its text if it is a string, and its JSON value or an error.
pub record Dynamic (N : Type 0) : Type 0 where
  pub try_cast : Option Text
  pub from_dynamic : Result Text (Value N)

pub record FieldRef (N : Type 0) : Type 0 where
  pub payload : Value N
  pub path : Text
  pub presence : FieldPresence
  pub field_type : Option FieldType
  pub ignores_case : Bool

pub record AnyFields (N : Type 0) : Type 0 where
  pub any_payload : Value N
  pub paths : List Text

-- `{threshold}` of an `i64`
abbrev pub int_text : ℤ → Text
int_text (pos n) = decimal n
int_text (negsuc n) = codes "-" ++ decimal (n + 1)

-- `threshold.max(0) as usize`
abbrev pub at_least_zero : ℤ → ℕ
at_least_zero (pos n) = n
at_least_zero (negsuc n) = 0

pub join : Text → List Text → Text
join sep [] = []
join sep (t ∷ []) = t
join sep (t ∷ u ∷ ts) = t ++ (sep ++ join sep (u ∷ ts))

-- "field `path`", then the rest of the message
abbrev pub about_field : Text → Text → Text
about_field path rest = codes "field `" ++ (path ++ (codes "`" ++ rest))

abbrev pub is_string_type : Option FieldType → Bool
is_string_type (some string_type) = true
is_string_type _ = false

module _ {N F : Type 0} (numbers : Numbers N F) where
  abbrev pub field_new : Value N → Text → FieldPresence → FieldRef N
  field_new payload path presence = record {
    payload = payload;
    path = path;
    presence = presence;
    field_type = none;
    ignores_case = false;
  }

  abbrev pub looked_up : FieldRef N → Option (Value N)
  looked_up f = lookup_path f.payload f.path

  -- The event as JSON, or the error that its conversion had
  abbrev pub map_to_json : Result Text (Value N) → Result Text (Value N)
  map_to_json event = map_err (λ e. codes "failed to read processor event as json: " ++ e) event

  unfoldable pub map_required : Result Text (Value N) → Text → Result Text (FieldRef N)
  map_required event path = map_to_json event >>= λ payload.
      guard (exists_non_null (lookup_path payload path))
        (codes "missing required field `" ++ (path ++ codes "`"))
      >> ok (field_new payload path required_field)

  pub map_field : Result Text (Value N) → Text → Result Text (FieldRef N)
  map_field event path = map_to_json event >>= λ payload. ok (field_new payload path inspect)

  pub map_optional : Result Text (Value N) → Text → Result Text (FieldRef N)
  map_optional event path =
      map_to_json event >>= λ payload. ok (field_new payload path optional_field)

  abbrev pub not_null : Option (Value N) → Option (Value N)
  not_null none = none
  not_null (some v) = if is_null v then none else some v

  abbrev pub value_by : FieldPresence → Option (Value N) → Option (Value N)
  value_by optional_field value = if exists_non_null value then not_null value else none
  value_by _ value = not_null value

  unfoldable pub value_for_chained_validation : FieldRef N → Option (Value N)
  value_for_chained_validation f = value_by f.presence (looked_up f)

  -- A check of the value, if there is one
  abbrev pub tested :
      FieldRef N → Option (Value N) → (Value N → Result Text (Unit {0})) → Result Text (FieldRef N)
  tested f none test = ok f
  tested f (some v) test = test v >> ok f

  abbrev pub chained : FieldRef N → (Value N → Result Text (Unit {0})) → Result Text (FieldRef N)
  chained f test = tested f (value_for_chained_validation f) test

  abbrev pub type_mismatch_error : Text → FieldType → Text
  type_mismatch_error path t =
      about_field path (codes " expected type `" ++ (field_type_display t ++ codes "`"))

  abbrev pub of_text :
      FieldRef N → (Text → Result Text (Unit {0})) → Value N → Result Text (Unit {0})
  of_text f test v = ok_or (as_str v) (type_mismatch_error f.path string_type) >>= test

  abbrev pub after_string : FieldRef N → Text → Result Text (Unit {0})
  after_string f what =
      guard (is_string_type f.field_type)
        (what ++ (codes " for field `" ++ (f.path ++ codes "` must follow string()")))

  unfoldable pub validate_chained_type : FieldType → FieldRef N → Result Text (FieldRef N)
  validate_chained_type t f =
      let g = record f { field_type = some t } in
      chained g (λ v. guard (type_matches numbers t v) (type_mismatch_error g.path t))

  abbrev pub long_enough : FieldRef N → ℤ → Option Text → Result Text (Unit {0})
  long_enough f threshold none = ok tt
  long_enough f threshold (some t) =
      guard (leb (at_least_zero threshold) (chars_count t))
        (about_field f.path (codes " length must be at least " ++ int_text threshold))

  unfoldable pub min_int : ℤ → FieldRef N → Result Text (FieldRef N)
  min_int threshold f = chained f (λ v. long_enough f threshold (as_str v))

  abbrev pub ignore_case : FieldRef N → FieldRef N
  ignore_case f = record f { ignores_case = true }

  unfoldable pub any_equal : Text → Bool → List Text → Bool
  any_equal actual ignore [] = false
  any_equal actual ignore (t ∷ ts) = strings_equal actual t ignore || any_equal actual ignore ts

  unfoldable pub dynamic_array_to_string_enum : List (Dynamic N) → Text → Result Text (List Text)
  dynamic_array_to_string_enum [] path = ok []
  dynamic_array_to_string_enum (d ∷ ds) path =
      ok_or (d.try_cast)
        (codes "enum values for field `" ++ (path ++ codes "` must all be strings"))
      >>= λ t. dynamic_array_to_string_enum ds path >>= λ ts. ok (t ∷ ts)

  abbrev pub must_be_one_of : FieldRef N → List Text → Text
  must_be_one_of f ts =
      about_field f.path (codes " must be one of [" ++ (join (codes ", ") ts ++ codes "]"))

  unfoldable pub enum_strings : List (Dynamic N) → FieldRef N → Result Text (FieldRef N)
  enum_strings values f =
      after_string f (codes "enum")
      >> (dynamic_array_to_string_enum values f.path >>= λ ts.
          guard (not (is_empty ts))
            (codes "enum values for field `" ++ (f.path ++ codes "` must not be empty"))
          >> chained f (
              of_text f
                (λ actual. guard (any_equal actual f.ignores_case ts) (must_be_one_of f ts))))

  -- The regex that `RegexBuilder` builds, as its test, or its error
  unfoldable pub matches_pattern :
      Text → (Bool → Result Text (Text → Bool)) → FieldRef N → Result Text (FieldRef N)
  matches_pattern pattern build f =
      after_string f (codes "regex")
      >> (map_err (λ e. codes "invalid regex for field `" ++ (f.path ++ (codes "`: " ++ e)))
            (build f.ignores_case)
          >>= λ is_match. chained f (
              of_text f (λ actual.
                guard (is_match actual)
                  (about_field f.path (codes " must match regex `" ++ (pattern ++ codes "`"))))))

  -- `is_valid` is chrono's: it parses the text and formats it back to the same.
  unfoldable pub validate_temporal_string :
      Text → Text → (Text → Text → Bool) → FieldRef N → Result Text (FieldRef N)
  validate_temporal_string formatter kind is_valid f =
      after_string f kind
      >> chained f (
          of_text f (λ actual. guard (is_valid actual formatter) (
            about_field f.path (
              codes " must be a valid "
              ++ (kind ++ (codes " matching format `" ++ (formatter ++ codes "`")))))))

  pub dynamic_array_to_strings : List (Dynamic N) → List Text
  dynamic_array_to_strings [] = []
  dynamic_array_to_strings (d ∷ ds) =
      let rest = dynamic_array_to_strings ds in
      elim (d.try_cast) [ none ↦ rest | some t ↦ t ∷ rest ]

  unfoldable pub one_of : List (Dynamic N) → FieldRef N → Result Text (FieldRef N)
  one_of values f =
      let ts = dynamic_array_to_strings values in
      chained f (of_text f (λ actual. guard (any_equal actual true ts) (must_be_one_of f ts)))

  unfoldable pub compare_number : NumberComparison → F → FieldRef N → Result Text (FieldRef N)
  compare_number c threshold f = chained f (λ v.
      ok_or (value_as_f64 numbers v) (about_field f.path (codes " could not be represented as f64"))
      >>= λ n. guard (comparison_matches numbers c n threshold) (
          about_field f.path
            (codes " must be " ++ (description c ++ (codes " " ++ numbers.display_f64 threshold)))))

  abbrev pub eq_found : FieldRef N → Option (Value N) → Result Text (Value N) → Bool
  eq_found f none expected = false
  eq_found f (some actual) (err e) = false
  eq_found f (some actual) (ok expected) = values_equal numbers actual expected f.ignores_case

  pub eq : Dynamic N → FieldRef N → Bool
  eq expected f = eq_found f (looked_up f) expected.from_dynamic

  pub exists : FieldRef N → Bool
  exists f = is_present (looked_up f)

  pub missing : FieldRef N → Bool
  missing f = not (exists f)

  any_present : Value N → List Text → Bool
  any_present v [] = false
  any_present v (p ∷ ps) = is_present (lookup_path v p) || any_present v ps

  pub map_any : Result Text (Value N) → List (Dynamic N) → Result Text (AnyFields N)
  map_any event values = map_to_json event >>= λ payload.
      ok (record { any_payload = payload; paths = dynamic_array_to_strings values })

  pub any_required : AnyFields N → Result Text (AnyFields N)
  any_required a =
      guard (any_present a.any_payload a.paths)
        (codes "at least one field is required: " ++ join (codes ", ") a.paths)
      >> ok a
