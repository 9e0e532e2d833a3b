-- ===== src/Tests/Validation.antt =====
-- The theorem on chains of checks, at an event with one text.
use ingest4x.Prelude.{ℕ, ◌≡◌, refl, true, false, some, List, [], ◌∷◌, ltb, leb}
use ingest4x.Prelude.Int.{pos, negsuc}
use ingest4x.Text.{Text, codes}
use ingest4x.Result.{Result, ok}
use ingest4x.Validation.Value.{
  Value, object, string, no_members, with_member, string_type, Numbers, is_null, find_member,
  get_member, lookup_segments, split_dots, lookup_path, chars_count,
}
use ingest4x.Validation.Field.{
  Dynamic, FieldRef, field_new, required_field, map_required, value_for_chained_validation,
  validate_chained_type, min_int, any_equal, dynamic_array_to_string_enum, enum_strings,
}
use ingest4x.Validation.Chain.{
  Check, type_check, min_check, ignore_check, enum_check, apply, run, AllMeet, map_required-AllMeet,
}

abbrev numbers : Numbers ℕ ℕ
numbers = record {
  is_i64_or_u64 = λ n. true;
  as_f64 = λ n. some n;
  value_eq = λ a b. false;
  less = ltb;
  less_or_equal = leb;
  of_int = λ i. elim i [ pos n ↦ n | negsuc n ↦ 0 ];
  display_f64 = λ n. [];
}

abbrev event : Value ℕ
event = object (with_member (codes "plan") (string (codes "Pro")) no_members)

abbrev plans : List (Dynamic ℕ)
plans = record { try_cast = some (codes "pro"); from_dynamic = ok (string (codes "pro")) } ∷ []

abbrev checks : List (Check ℕ ℕ)
checks = type_check string_type ∷ min_check (pos 2) ∷ ignore_check ∷ enum_check plans ∷ []

abbrev plan_field : FieldRef ℕ
plan_field = field_new numbers event (codes "plan") required_field

abbrev checked_field : FieldRef ℕ
checked_field = record plan_field { field_type = some string_type; ignores_case = true }

plan_is_required : map_required numbers (ok event) (codes "plan") ≡ ok plan_field
unfolding map_required lookup_path lookup_segments split_dots get_member find_member
plan_is_required = refl

checks_pass : run numbers checks plan_field ≡ ok checked_field
unfolding run apply validate_chained_type min_int enum_strings value_for_chained_validation
    any_equal dynamic_array_to_string_enum chars_count lookup_path lookup_segments split_dots
    get_member find_member
checks_pass = refl

map_required-AllMeet_example :
    (payload v : Value ℕ) × (◌≡◌ {A = Result Text (Value ℕ)} (ok event) (ok payload))
    × (lookup_path payload (codes "plan") ≡ some v)
    × (is_null v ≡ false)
    × AllMeet numbers checks plan_field v
map_required-AllMeet_example =
    map_required-AllMeet numbers (ok event) (codes "plan") checks plan_field checked_field
      plan_is_required checks_pass
