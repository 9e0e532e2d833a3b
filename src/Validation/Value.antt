-- ===== src/Validation/Value.antt =====
-- The JSON values of an event and the tests on them in src/rhai_ctx/event_validation.rs.
use ingest4x.Prelude.{
  ℕ, ◌+◌, Bool, true, false, ◌&&◌, not, Option, none, some, List, [], ◌∷◌, leb, ◌==◌, is_empty,
  if◌then◌else◌,
}
use ingest4x.Prelude.Int.{ℤ}
use ingest4x.Text.{Text, codes, text_eq}
use ingest4x.Ingest.Request.{eq_ignore_ascii_case}

-- `serde_json::Value` over its numbers; an array and an object are chains.
mutual
  pub data Value (N : Type 0) : Type 0 where
    null : Value N
    boolean : Bool → Value N
    number : N → Value N
    string : Text → Value N
    array : Items N → Value N
    object : Members N → Value N

  pub data Items (N : Type 0) : Type 0 where
    no_items : Items N
    item : Value N → Items N → Items N

  pub data Members (N : Type 0) : Type 0 where
    no_members : Members N
    with_member : Text → Value N → Members N → Members N

pub data FieldType : Type 0 where
  string_type number_type integer_type boolean_type object_type array_type : FieldType

pub data NumberComparison : Type 0 where
  gt gte lt lte : NumberComparison

-- serde_json's numbers and the equality of its values, and `f64`
pub record Numbers (N F : Type 0) : Type 0 where
  pub is_i64_or_u64 : N → Bool
  pub as_f64 : N → Option F
  pub value_eq : Value N → Value N → Bool
  pub less : F → F → Bool
  pub less_or_equal : F → F → Bool
  pub of_int : ℤ → F
  pub display_f64 : F → Text

module _ {N : Type 0} where
  abbrev pub is_null : Value N → Bool
  is_null null = true
  is_null _ = false

  abbrev pub as_str : Value N → Option Text
  as_str (string t) = some t
  as_str _ = none

  unfoldable pub find_member : Text → Members N → Option (Value N)
  find_member k no_members = none
  find_member k (with_member j v ms) =
      let rest = find_member k ms in if text_eq j k then some v else rest

  -- `Value::get` by a name
  unfoldable pub get_member : Text → Value N → Option (Value N)
  get_member k (object ms) = find_member k ms
  get_member k _ = none

  unfoldable pub lookup_segments : List Text → Value N → Option (Value N)
  lookup_segments [] v = some v
  lookup_segments (s ∷ ss) v = elim (get_member s v) [ none ↦ none | some u ↦ lookup_segments ss u ]

  abbrev pub is_present : Option (Value N) → Bool
  is_present none = false
  is_present (some null) = false
  is_present (some (string t)) = not (is_empty t)
  is_present (some v) = true

  abbrev pub exists_non_null : Option (Value N) → Bool
  exists_non_null none = false
  exists_non_null (some v) = not (is_null v)

-- `split('.')`
abbrev pub put_byte : ℕ → List Text → List Text
put_byte b [] = (b ∷ []) ∷ []
put_byte b (s ∷ ss) = (b ∷ s) ∷ ss

unfoldable pub split_dots : Text → List Text
split_dots [] = [] ∷ []
split_dots (b ∷ bs) = let rest = split_dots bs in if b == 46 then [] ∷ rest else put_byte b rest

unfoldable pub lookup_path : {N : Type 0} → Value N → Text → Option (Value N)
lookup_path payload path = lookup_segments (split_dots path) payload

-- `chars().count()`: the bytes that begin a character
unfoldable pub chars_count : Text → ℕ
chars_count [] = 0
chars_count (b ∷ bs) =
    let rest = chars_count bs in if leb 128 b && leb b 191 then rest else rest + 1

abbrev pub strings_equal : Text → Text → Bool → Bool
strings_equal left right true = eq_ignore_ascii_case left right
strings_equal left right false = text_eq left right

abbrev pub field_type_display : FieldType → Text
field_type_display string_type = codes "String"
field_type_display number_type = codes "Number"
field_type_display integer_type = codes "Integer"
field_type_display boolean_type = codes "Boolean"
field_type_display object_type = codes "Object"
field_type_display array_type = codes "Array"

abbrev pub description : NumberComparison → Text
description gt = codes "greater than"
description gte = codes "greater than or equal to"
description lt = codes "less than"
description lte = codes "less than or equal to"

module _ {N F : Type 0} (numbers : Numbers N F) where
  abbrev pub type_matches : FieldType → Value N → Bool
  type_matches string_type (string t) = true
  type_matches number_type (number n) = true
  type_matches integer_type (number n) = numbers.is_i64_or_u64 n
  type_matches boolean_type (boolean b) = true
  type_matches object_type (object ms) = true
  type_matches array_type (array is) = true
  type_matches _ _ = false

  -- `a > b` is `b < a`, also where one is no number.
  abbrev pub comparison_matches : NumberComparison → F → F → Bool
  comparison_matches gt value threshold = numbers.less threshold value
  comparison_matches gte value threshold = numbers.less_or_equal threshold value
  comparison_matches lt value threshold = numbers.less value threshold
  comparison_matches lte value threshold = numbers.less_or_equal value threshold

  abbrev pub value_as_f64 : Value N → Option F
  value_as_f64 (number n) = numbers.as_f64 n
  value_as_f64 _ = none

  abbrev pub values_equal : Value N → Value N → Bool → Bool
  values_equal (string left) (string right) ignore_case = strings_equal left right ignore_case
  values_equal left right ignore_case = numbers.value_eq left right
