-- ===== src/Ingest/Request.antt =====
-- Requests of src/ingest/endpoint.rs and how their payload and their token are read.
use ingest4x.Prelude.{
  ℕ, ◌+◌, Bool, true, false, ◌&&◌, ◌||◌, Option, none, some, List, [], ◌∷◌, map, leb, ltb, ◌==◌,
  is_empty, get_or, if◌then◌else◌,
}
use ingest4x.Bytes.{Bytes}
use ingest4x.Text.{Text, codes, text_eq, trim}
use ingest4x.Result.{Result, ok, err, ◌>>=◌, map_err}
use ingest4x.Ingest.Issue.{
  IngestIssue, method_not_allowed, missing_request_body, query_ingest_token_not_supported,
  invalid_form, invalid_json, conflicting_ingest_token,
}

pub data Method : Type 0 where
  get post : Method
  other_method : Text → Method

-- What actix-web gives of a request. The names of its headers are in lower case.
pub record HttpRequest : Type 0 where
  pub method : Method
  pub path : Text
  pub query : Option Text
  pub query_params : List (Text × Text)
  pub peer_ip : Option Text
  pub headers : List (Text × Bytes)
  pub match_project_key : Option Text

-- serde_json on the values `V`, serde_urlencoded, and `HeaderValue::to_str`. An error is its text.
pub record Parsers (V : Type 0) : Type 0 where
  pub from_slice : Bytes → Result Text V
  pub to_vec : V → Result Text Bytes
  -- the field of an object, and the value without it
  pub member : Text → V → Option V
  pub without : Text → V → V
  pub as_str : V → Option Text
  pub of_fields : List (Text × Text) → V
  pub from_urlencoded : Bytes → Result Text (List (Text × Text))
  pub to_str : Bytes → Option Text

abbrev pub token_name : Text
token_name = codes "x-ingest-token"

pub record ParsedIngestRequest : Type 0 where
  pub body : Bytes
  pub body_token : Option Text

unfoldable pub non_empty_token : Text → Option Text
non_empty_token value = let token = trim value in if is_empty token then none else some token

abbrev pub then_some {ℓ κ} : {A : Type ℓ} {B : Type κ} → Option A → (A → Option B) → Option B
then_some none f = none
then_some (some a) f = f a

-- The order of a `BTreeMap`
abbrev pub text_lt : Text → Text → Bool
text_lt [] [] = false
text_lt [] (c ∷ cs) = true
text_lt (b ∷ bs) [] = false
text_lt (b ∷ bs) (c ∷ cs) = ltb b c || (b == c && text_lt bs cs)

unfoldable pub insert_field : Text → Text → List (Text × Text) → List (Text × Text)
insert_field k v [] = (k, v) ∷ []
insert_field k v ((j, w) ∷ fs) =
    let rest = insert_field k v fs in
    if text_eq j k then (k, v) ∷ fs else if text_lt k j then (k, v) ∷ (j, w) ∷ fs else (j, w) ∷ rest

-- `to_ascii_lowercase`
abbrev pub lower : ℕ → ℕ
lower b = if leb 65 b && leb b 90 then b + 32 else b

abbrev pub to_ascii_lowercase : Text → Text
to_ascii_lowercase = map lower

abbrev pub eq_ignore_ascii_case : Text → Text → Bool
eq_ignore_ascii_case a b = text_eq (to_ascii_lowercase a) (to_ascii_lowercase b)

-- `split(';').next()`
pub before_semicolon : Text → Text
before_semicolon [] = []
before_semicolon (b ∷ bs) = let rest = before_semicolon bs in if b == 59 then [] else b ∷ rest

unfoldable pub get_header : Text → List (Text × Bytes) → Option Bytes
get_header name [] = none
get_header name ((n, v) ∷ hs) = if text_eq n name then some v else get_header name hs

-- `get_ip` of src/utils/mod.rs
abbrev pub get_ip : HttpRequest → Option Text
get_ip req = some (get_or req.peer_ip [])

module _ {V : Type 0} (parsers : Parsers V) where
  pub is_form_urlencoded : HttpRequest → Bool
  is_form_urlencoded req =
      elim (then_some (get_header (codes "content-type") req.headers) parsers.to_str) [
        | none ↦ false
        | some value ↦
            eq_ignore_ascii_case (trim (before_semicolon value))
              (codes "application/x-www-form-urlencoded")
      ]

  abbrev pub with_body : Option Text → V → Result IngestIssue ParsedIngestRequest
  with_body token v = map_err invalid_json (parsers.to_vec v) >>= λ bytes.
      ok (record { body = bytes; body_token = token })

  abbrev pub remove_string_field : Text → V → Option Text
  remove_string_field field v =
      then_some (then_some (parsers.member field v) parsers.as_str) non_empty_token

  unfoldable pub decode_json_payload : Bytes → Result IngestIssue ParsedIngestRequest
  decode_json_payload bytes = map_err invalid_json (parsers.from_slice bytes) >>= λ v.
      with_body (remove_string_field token_name v) (parsers.without token_name v)

  -- The fields so far, and the token
  abbrev pub FormFields : Type 0
  FormFields = List (Text × Text) × Option Text

  unfoldable pub form_step : Text → Text → FormFields → FormFields
  form_step k v (fields, token) =
      if text_eq k token_name then (fields, non_empty_token v) else (insert_field k v fields, token)

  unfoldable pub form_loop : List (Text × Text) → FormFields → FormFields
  form_loop [] acc = acc
  form_loop ((k, v) ∷ pairs) acc = form_loop pairs (form_step k v acc)

  abbrev pub of_form : FormFields → Result IngestIssue ParsedIngestRequest
  of_form (fields, token) = with_body token (parsers.of_fields fields)

  unfoldable pub decode_form_payload : Bytes → Result IngestIssue ParsedIngestRequest
  decode_form_payload bytes = map_err invalid_form (parsers.from_urlencoded bytes) >>= λ pairs.
      of_form (form_loop pairs ([], none))

  unfoldable pub query_loop :
      List (Text × Text) → List (Text × Text) → Result IngestIssue (List (Text × Text))
  query_loop [] fields = ok fields
  query_loop ((k, v) ∷ pairs) fields =
      let rest = query_loop pairs (insert_field k v fields) in
      if text_eq k token_name then err query_ingest_token_not_supported else rest

  unfoldable pub decode_query_payload : List (Text × Text) → Result IngestIssue ParsedIngestRequest
  decode_query_payload pairs =
      query_loop pairs [] >>= λ fields. with_body none (parsers.of_fields fields)

  unfoldable pub decode_post_payload : HttpRequest → Bytes → Result IngestIssue ParsedIngestRequest
  decode_post_payload req bytes =
      if is_empty bytes
      then err missing_request_body
      else if is_form_urlencoded req
      then decode_form_payload bytes
      else decode_json_payload bytes

  abbrev pub payload_of : Method → HttpRequest → Bytes → Result IngestIssue ParsedIngestRequest
  payload_of get req bytes = decode_query_payload req.query_params
  payload_of post req bytes = decode_post_payload req bytes
  payload_of (other_method m) req bytes = err method_not_allowed

  unfoldable pub request_payload : HttpRequest → Bytes → Result IngestIssue ParsedIngestRequest
  request_payload req bytes = payload_of req.method req bytes

  unfoldable pub ingest_token_from_request : HttpRequest → Option Text
  ingest_token_from_request req =
      then_some (then_some (get_header token_name req.headers) parsers.to_str)
        (λ value. let token = trim value in if is_empty token then none else some token)

  abbrev pub agreed_token : Option Text → Option Text → Result IngestIssue (Option Text)
  agreed_token (some header) (some token) =
      if text_eq header token then ok (some header) else err conflicting_ingest_token
  agreed_token (some header) none = ok (some header)
  agreed_token none token = ok token

  unfoldable pub request_ingest_token :
      HttpRequest → ParsedIngestRequest → Result IngestIssue (Option Text)
  request_ingest_token req parsed = agreed_token (ingest_token_from_request req) parsed.body_token
