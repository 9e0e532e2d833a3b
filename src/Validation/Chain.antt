-- ===== src/Validation/Chain.antt =====
-- A chain of checks on one field, as a script writes it: what a chain that passes says of the value.
use ingest4x.Prelude.{
  ◌≤◌, ◌≡◌, refl, sym, ◌∙◌, subst, Bool, true, false, not, Option, none, some, List, [], ◌∷◌, ◌++◌,
  leb, is_empty, arith,
}
use ingest4x.Prelude.Int.{ℤ}
use ingest4x.Text.{Text, codes}
use ingest4x.Result.{Result, ok, err, ◌>>=◌, guard, ok_or, map_err, bind_elim}
use ingest4x.Validation.Value.{
  Value, FieldType, NumberComparison, Numbers, is_null, lookup_path, exists_non_null, as_str,
  chars_count, type_matches, comparison_matches, value_as_f64,
}
use ingest4x.Validation.Field.{
  field_new, required_field, map_required, Dynamic, FieldRef, at_least_zero, is_string_type,
  value_for_chained_validation, tested, of_text, after_string, validate_chained_type, long_enough,
  min_int, ignore_case, any_equal, dynamic_array_to_string_enum, must_be_one_of, enum_strings,
  matches_pattern, validate_temporal_string, dynamic_array_to_strings, one_of, compare_number,
}

pub data Check (N F : Type 0) : Type 0 where
  type_check : FieldType → Check N F
  min_check : ℤ → Check N F
  ignore_check : Check N F
  enum_check one_of_check : List (Dynamic N) → Check N F
  regex_check : Text → (Bool → Result Text (Text → Bool)) → Check N F
  temporal_check : Text → Text → (Text → Text → Bool) → Check N F
  compare_check : NumberComparison → F → Check N F

module _ {N F : Type 0} (numbers : Numbers N F) where
  -- The method that a script calls
  unfoldable pub apply : Check N F → FieldRef N → Result Text (FieldRef N)
  apply (type_check t) f = validate_chained_type numbers t f
  apply (min_check n) f = min_int numbers n f
  apply ignore_check f = ok (ignore_case numbers f)
  apply (enum_check ds) f = enum_strings numbers ds f
  apply (one_of_check ds) f = one_of numbers ds f
  apply (regex_check pattern build) f = matches_pattern numbers pattern build f
  apply (temporal_check formatter kind is_valid) f =
      validate_temporal_string numbers formatter kind is_valid f
  apply (compare_check c threshold) f = compare_number numbers c threshold f

  unfoldable pub run : List (Check N F) → FieldRef N → Result Text (FieldRef N)
  run [] f = ok f
  run (c ∷ cs) f = apply c f >>= run cs

  abbrev pub after : Check N F → FieldRef N → FieldRef N
  after (type_check t) f = record f { field_type = some t }
  after ignore_check f = record f { ignores_case = true }
  after _ f = f

  -- The value is a text with the property.
  abbrev pub IsText : (Text → Bool) → Value N → Type 0
  IsText p v = (t : Text) × (as_str v ≡ some t) × (p t ≡ true)

  -- What a check asks of a value, where the type that was checked last and the case are those of `f`
  abbrev pub Meets : Check N F → FieldRef N → Value N → Type 0
  Meets (type_check t) f v = type_matches numbers t v ≡ true
  Meets (min_check n) f v = (t : Text) → as_str v ≡ some t → at_least_zero n ≤ chars_count t
  Meets ignore_check f v = Unit {0}
  Meets (enum_check ds) f v =
      (is_string_type f.field_type ≡ true)
      × (ts : List Text) × (dynamic_array_to_string_enum numbers ds f.path ≡ ok ts)
      × IsText (λ t. any_equal numbers t f.ignores_case ts) v
  Meets (one_of_check ds) f v =
      IsText (λ t. any_equal numbers t true (dynamic_array_to_strings numbers ds)) v
  Meets (regex_check pattern build) f v =
      (is_string_type f.field_type ≡ true)
      × (is_match : Text → Bool) × (build f.ignores_case ≡ ok is_match)
      × IsText is_match v
  Meets (temporal_check formatter kind is_valid) f v =
      (is_string_type f.field_type ≡ true) × IsText (λ t. is_valid t formatter) v
  Meets (compare_check c threshold) f v =
      (n : F) × (value_as_f64 numbers v ≡ some n)
      × (comparison_matches numbers c n threshold ≡ true)

  abbrev pub AllMeet : List (Check N F) → FieldRef N → Value N → Type 0
  AllMeet [] f v = Unit {0}
  AllMeet (c ∷ cs) f v = Meets c f v × AllMeet cs (after c f) v

  guard-true : {E : Type 0} (b : Bool) (e : E) (u : Unit {0}) → guard b e ≡ ok u → b ≡ true
  guard-true true e u h = refl
  guard-true false e u h = absurd (let c : ⊥ = cc in c)

  ok_or-some : {E A : Type 0} (o : Option A) (e : E) (a : A) → ok_or o e ≡ ok a → o ≡ some a
  ok_or-some none e a h = absurd (let c : ⊥ = cc in c)
  ok_or-some (some b) e a h = cc

  map_err_value :
      {E G A : Type 0} (m : E → G) (r : Result E A) (a : A) → map_err m r ≡ ok a → r ≡ ok a
  map_err_value m (ok b) a h = cc
  map_err_value m (err e) a h = absurd (let c : ⊥ = cc in c)

  -- A check of the value gives the same field, and passes the value that is there.
  tested_ok :
      (f g : FieldRef N) (o : Option (Value N)) (test : Value N → Result Text (Unit {0}))
      → tested numbers f o test ≡ ok g
      → (f ≡ g) × ((v : Value N) → o ≡ some v → (u : Unit {0}) × (test v ≡ ok u))
  tested_ok f g none test h = (cc, λ v e. absurd (let c : ⊥ = cc in c))
  tested_ok f g (some w) test h =
      bind_elim (test w) (λ done. ok f) h
        (λ u e k. (cc, λ v q. let same : w ≡ v = cc in (u, subst (λ x. test x ≡ ok u) same e)))

  of_text-IsText :
      (f : FieldRef N) (p : Text → Bool) (message : Text → Text) (v : Value N) (u : Unit {0})
      → of_text numbers f (λ t. guard (p t) (message t)) v ≡ ok u
      → IsText p v
  of_text-IsText f p message v u h =
      bind_elim (ok_or (as_str v) _) (λ t. guard (p t) (message t)) h
        (λ t e k. (t, ok_or-some (as_str v) _ t e, guard-true (p t) (message t) u k))

  Applied : Check N F → FieldRef N → FieldRef N → Type 0
  Applied c f g =
      (after c f ≡ g)
      × ((v : Value N) → value_for_chained_validation numbers f ≡ some v → Meets c f v)

  long_enough-le :
      (f : FieldRef N) (n : ℤ) (o : Option Text) (u : Unit {0})
      → long_enough numbers f n o ≡ ok u
      → (t : Text) → o ≡ some t
      → at_least_zero n ≤ chars_count t
  long_enough-le f n none u h t e = absurd (let c : ⊥ = cc in c)
  long_enough-le f n (some s) u h t e =
      let same : s ≡ t = cc in
      let l : leb (at_least_zero n) (chars_count s) ≡ true =
        guard-true (leb (at_least_zero n) (chars_count s)) _ u h in
      subst (λ x. at_least_zero n ≤ chars_count x) same (ground (arith, l))

  apply-Meets : (c : Check N F) (f g : FieldRef N) → apply c f ≡ ok g → Applied c f g
  unfolding Applied apply validate_chained_type min_int enum_strings one_of matches_pattern
      validate_temporal_string compare_number value_for_chained_validation
  apply-Meets (type_check t) f g h =
      let (e, k) =
        tested_ok (record f { field_type = some t }) g (value_for_chained_validation numbers f)
          (λ v. guard (type_matches numbers t v) _) h in
      (e, λ v q. guard-true (type_matches numbers t v) _ ((k v q).0) ((k v q).1))
  apply-Meets (min_check n) f g h =
      let (e, k) =
        tested_ok f g (value_for_chained_validation numbers f)
          (λ v. long_enough numbers f n (as_str v)) h in
      (e, λ v q. long_enough-le f n (as_str v) ((k v q).0) ((k v q).1))
  apply-Meets ignore_check f g h = (cc, λ v q. tt)
  apply-Meets (one_of_check ds) f g h =
      let ts = dynamic_array_to_strings numbers ds in
      let (e, k) =
        tested_ok f g (value_for_chained_validation numbers f)
          (of_text numbers f
            (λ t. guard (any_equal numbers t true ts) (must_be_one_of numbers f ts)))
          h in
      (
        e,
        λ v q.
            of_text-IsText f (λ t. any_equal numbers t true ts) (λ t. must_be_one_of numbers f ts) v
              ((k v q).0) ((k v q).1),
      )
  apply-Meets (compare_check c threshold) f g h =
      let (e, k) = tested_ok f g (value_for_chained_validation numbers f) _ h in
      (
        e,
        λ v q. bind_elim (ok_or (value_as_f64 numbers v) _) _ ((k v q).1) (λ n e' k'. (
          n,
          ok_or-some (value_as_f64 numbers v) _ n e',
          guard-true (comparison_matches numbers c n threshold) _ ((k v q).0) k',
        )),
      )
  apply-Meets (temporal_check formatter kind is_valid) f g h =
      bind_elim (after_string numbers f kind) _ h (λ u s k'.
        let (e, k) = tested_ok f g (value_for_chained_validation numbers f) _ k' in
        (
          e,
          λ v q. (
            guard-true (is_string_type f.field_type) _ u s,
            of_text-IsText f (λ t. is_valid t formatter) _ v ((k v q).0) ((k v q).1),
          ),
        ))
  apply-Meets (regex_check pattern build) f g h =
      bind_elim (after_string numbers f (codes "regex")) _ h (λ u s k1.
        bind_elim (map_err _ (build f.ignores_case)) _ k1 (λ is_match b k2.
          let (e, k) = tested_ok f g (value_for_chained_validation numbers f) _ k2 in
          (
            e,
            λ v q. (
              guard-true (is_string_type f.field_type) _ u s,
              is_match,
              map_err_value _ (build f.ignores_case) is_match b,
              of_text-IsText f is_match _ v ((k v q).0) ((k v q).1),
            ),
          )))
  apply-Meets (enum_check ds) f g h =
      bind_elim (after_string numbers f (codes "enum")) _ h (λ u s k1.
        bind_elim (dynamic_array_to_string_enum numbers ds f.path) _ k1 (λ ts d k2.
          bind_elim (guard (not (is_empty ts)) _) _ k2 (λ u' n k3.
            let (e, k) = tested_ok f g (value_for_chained_validation numbers f) _ k3 in
            (
              e,
              λ v q. (
                guard-true (is_string_type f.field_type) _ u s,
                ts,
                d,
                of_text-IsText f (λ t. any_equal numbers t f.ignores_case ts) _ v ((k v q).0)
                    ((k v q).1),
              ),
            ))))

  same_value :
      (c : Check N F) (f : FieldRef N)
      → value_for_chained_validation numbers (after c f) ≡ value_for_chained_validation numbers f
  unfolding value_for_chained_validation
  same_value (type_check t) f = refl
  same_value (min_check n) f = refl
  same_value ignore_check f = refl
  same_value (enum_check ds) f = refl
  same_value (one_of_check ds) f = refl
  same_value (regex_check pattern build) f = refl
  same_value (temporal_check formatter kind is_valid) f = refl
  same_value (compare_check c threshold) f = refl

  run-AllMeet :
      (cs : List (Check N F)) (f g : FieldRef N) (v : Value N)
      → run cs f ≡ ok g
      → value_for_chained_validation numbers f ≡ some v
      → AllMeet cs f v
  unfolding run Applied
  run-AllMeet [] f g v h q = tt
  run-AllMeet (c ∷ cs) f g v h q = bind_elim (apply c f) (run cs) h (λ f' e k.
      let (same, meets) = apply-Meets c f f' e in
      (
        meets v q,
        run-AllMeet cs (after c f) g v (subst (λ x. run cs x ≡ ok g) (sym same) k)
            (same_value c f ∙ q),
      ))

  -- A required field has a value.
  required_value :
      (payload : Value N) (path : Text) (o : Option (Value N))
      → lookup_path payload path ≡ o
      → exists_non_null o ≡ true
      → (v : Value N) × (lookup_path payload path ≡ some v)
        × (is_null v ≡ false)
        × (value_for_chained_validation numbers (field_new numbers payload path required_field)
            ≡ some v)
  unfolding value_for_chained_validation
  required_value payload path none e h = absurd (let c : ⊥ = cc in c)
  required_value payload path (some v) e h =
      let there : is_null v ≡ false = not_true (is_null v) h in
      (v, e, there, rw (e) (rw (there) refl))
    where
      not_true : (b : Bool) → not b ≡ true → b ≡ false
      not_true true h = absurd (let c : ⊥ = cc in c)
      not_true false h = refl

-- When `required(path)` and a chain of checks behind it pass: the event has a value at the path, it is not
-- null, and it meets every check of the chain: the type, the length, the list, the regex, the format
-- or the bound, each with the case and the type that the chain had set before it.
pub map_required-AllMeet :
    {N F : Type 0} (numbers : Numbers N F) (event : Result Text (Value N)) (path : Text)
    (cs : List (Check N F)) (f g : FieldRef N)
    → map_required numbers event path ≡ ok f
    → run numbers cs f ≡ ok g
    → (payload v : Value N) × (event ≡ ok payload)
      × (lookup_path payload path ≡ some v)
      × (is_null v ≡ false)
      × AllMeet numbers cs f v
unfolding map_required
map_required-AllMeet numbers event path cs f g h passed =
    bind_elim (map_err (λ e. codes "failed to read processor event as json: " ++ e) event) _ h
      (λ payload e k.
        bind_elim (guard (exists_non_null (lookup_path payload path)) _) _ k (λ u s k'.
          let (v, there, value, chained_value) =
            required_value numbers payload path (lookup_path payload path) refl
              (guard-true numbers (exists_non_null (lookup_path payload path)) _ u s) in
          let made : field_new numbers payload path required_field ≡ f = cc in
          (
            payload,
            v,
            map_err_value numbers _ event payload e,
            there,
            value,
            subst (λ x. AllMeet numbers cs x v) made
                (run-AllMeet numbers cs (field_new numbers payload path required_field) g v
                  (subst (λ x. run numbers cs x ≡ ok g) (sym made) passed) chained_value),
          )))
