-- ===== src/Ingest/Secret.antt =====
-- The ingest token is not stored: neither in the payload nor among the headers of the record.
use ingest4x.Prelude.{
  ℕ, ◌≡◌, ◌∙◌, ap, inl, inr, refl, subst, Bool, true, false, Option, none, some, List, [], ◌∷◌,
  Bool-cases, All, if◌then◌else◌, is_empty,
}
use ingest4x.Bytes.{Bytes}
use ingest4x.Text.{Text, text_eq}
use ingest4x.Result.{Result, ok, err, map_err, bind_elim}
use ingest4x.Wal.Record.{http}
use ingest4x.Services.Project.{Project, Registry}
use ingest4x.Ingest.Issue.{
  missing_request_body, query_ingest_token_not_supported, invalid_form, invalid_json,
}
use ingest4x.Ingest.Request.{
  Method, get, post, other_method, HttpRequest, Parsers, ParsedIngestRequest, token_name, text_lt,
  insert_field, to_ascii_lowercase, is_form_urlencoded, with_body, remove_string_field,
  decode_json_payload, FormFields, form_step, form_loop, of_form, decode_form_payload, query_loop,
  decode_query_payload, decode_post_payload, payload_of, request_payload,
}
use ingest4x.Ingest.Endpoint.{
  new_record, header_kept, headers_loop, request_headers, admit, record_of,
}
use ingest4x.Ingest.Admitted.{Accepted, admit-Accepted}

abbrev pub HasNo : Text → List (Text × Text) → Type 0
HasNo name = All (λ f. text_eq f.0 name ≡ false)

-- What the documentation of serde_json promises of objects: a removed field and one that was never put in
-- are not there, and what was written is read back with no field more. Numbers may change.
pub record IsJson {V : Type 0} (p : Parsers V) : Type 0 where
  pub member-without : (f : Text) (v : V) → p.member f (p.without f v) ≡ none
  pub member-of_fields :
      (f : Text) (fs : List (Text × Text)) → HasNo f fs → p.member f (p.of_fields fs) ≡ none
  pub member-read_back :
      (f : Text) (v u : V) (bytes : Bytes)
      → p.to_vec v ≡ ok bytes
      → p.from_slice bytes ≡ ok u
      → p.member f v ≡ none
      → p.member f u ≡ none

insert_field-All :
    (P : Text → Type 0) (k v : Text) (fs : List (Text × Text))
    → P k
    → All (λ f. P f.0) fs
    → All (λ f. P f.0) (insert_field k v fs)
unfolding insert_field
insert_field-All P k v [] p a = (p, tt)
insert_field-All P k v ((j, w) ∷ fs) p a = elim (Bool-cases (text_eq j k)) [
  | inl e ↦ rw (e) (p, a.1)
  | inr e ↦ elim (Bool-cases (text_lt k j)) [
    | inl q ↦ rw (e, q) ((p, a))
    | inr q ↦ rw (e, q) (a.0, insert_field-All P k v fs p (a.1))
  ]
]

map_err_value :
    {E F A : Type 0} (f : E → F) (r : Result E A) (a : A) → map_err f r ≡ ok a → r ≡ ok a
map_err_value f (ok b) a h = cc
map_err_value f (err e) a h = absurd (let c : ⊥ = cc in c)

module _ {V : Type 0} (p : Parsers V) (law : IsJson p) where
  -- What the payload reads as has not the field.
  abbrev Clean : ParsedIngestRequest → Type 0
  Clean parsed = (u : V) → p.from_slice parsed.body ≡ ok u → p.member token_name u ≡ none

  with_body-Clean :
      (token : Option Text) (v : V) (parsed : ParsedIngestRequest)
      → p.member token_name v ≡ none
      → with_body p token v ≡ ok parsed
      → Clean parsed
  with_body-Clean token v parsed m h =
      bind_elim (map_err invalid_json (p.to_vec v)) _ h (λ bytes e k.
        let same : bytes ≡ parsed.body = cc in
        λ u read.
          law.member-read_back token_name v u bytes
            (map_err_value invalid_json (p.to_vec v) bytes e) (ap p.from_slice same ∙ read) m)

  form_loop-HasNo :
      (pairs : List (Text × Text)) (acc : FormFields p)
      → HasNo token_name (acc.0)
      → HasNo token_name (form_loop p pairs acc).0
  unfolding form_loop form_step
  form_loop-HasNo [] acc a = a
  form_loop-HasNo ((k, v) ∷ pairs) (fields, token) a =
      form_loop-HasNo pairs (form_step p k v (fields, token))
        (elim (Bool-cases (text_eq k token_name)) [
          | inl e ↦ rw (e) a
          | inr e ↦ rw (e) (insert_field-All (λ n. text_eq n token_name ≡ false) k v fields e a)
        ])

  query_loop-HasNo :
      (pairs fields result : List (Text × Text))
      → HasNo token_name fields
      → query_loop p pairs fields ≡ ok result
      → HasNo token_name result
  unfolding query_loop
  query_loop-HasNo [] fields result a h =
      let same : fields ≡ result = cc in subst (HasNo token_name) same a
  query_loop-HasNo ((k, v) ∷ pairs) fields result a h =
      go (text_eq k token_name) refl h (query_loop-HasNo pairs (insert_field k v fields) result)
    where
      go :
          (b : Bool)
          → text_eq k token_name ≡ b
          → (if b
              then err query_ingest_token_not_supported
              else query_loop p pairs (insert_field k v fields))
            ≡ ok result
          → (HasNo token_name (insert_field k v fields)
              → query_loop p pairs (insert_field k v fields) ≡ ok result
              → HasNo token_name result)
          → HasNo token_name result
      go true e h ih = absurd (let c : ⊥ = cc in c)
      go false e h ih = ih (insert_field-All (λ n. text_eq n token_name ≡ false) k v fields e a) h

  decode_json_payload-Clean :
      (bytes : Bytes) (parsed : ParsedIngestRequest)
      → decode_json_payload p bytes ≡ ok parsed
      → Clean parsed
  unfolding decode_json_payload
  decode_json_payload-Clean bytes parsed h =
      bind_elim (map_err invalid_json (p.from_slice bytes)) _ h (λ v e k.
        with_body-Clean (remove_string_field p token_name v) (p.without token_name v) parsed
          (law.member-without token_name v) k)

  decode_form_payload-Clean :
      (bytes : Bytes) (parsed : ParsedIngestRequest)
      → decode_form_payload p bytes ≡ ok parsed
      → Clean parsed
  unfolding decode_form_payload
  decode_form_payload-Clean bytes parsed h =
      bind_elim (map_err invalid_form (p.from_urlencoded bytes)) _ h
        (λ pairs e k. go (form_loop p pairs ([], none)) (form_loop-HasNo pairs ([], none) tt) k)
    where
      go :
          (acc : FormFields p) → HasNo token_name (acc.0) → of_form p acc ≡ ok parsed → Clean parsed
      go (fields, token) a k =
          with_body-Clean token (p.of_fields fields) parsed
            (law.member-of_fields token_name fields a) k

  decode_query_payload-Clean :
      (pairs : List (Text × Text)) (parsed : ParsedIngestRequest)
      → decode_query_payload p pairs ≡ ok parsed
      → Clean parsed
  unfolding decode_query_payload
  decode_query_payload-Clean pairs parsed h = bind_elim (query_loop p pairs []) _ h (λ fields e k.
      with_body-Clean none (p.of_fields fields) parsed
        (law.member-of_fields token_name fields (query_loop-HasNo pairs [] fields tt e)) k)

  decode_post_payload-Clean :
      (req : HttpRequest) (bytes : Bytes) (parsed : ParsedIngestRequest)
      → decode_post_payload p req bytes ≡ ok parsed
      → Clean parsed
  unfolding decode_post_payload
  decode_post_payload-Clean req bytes parsed h = go (is_empty bytes) (is_form_urlencoded p req) h
    where
      go :
          (a b : Bool)
          → (if a
              then err missing_request_body
              else if b
              then decode_form_payload p bytes
              else decode_json_payload p bytes)
            ≡ ok parsed
          → Clean parsed
      go true b h = absurd (let c : ⊥ = cc in c)
      go false true h = decode_form_payload-Clean bytes parsed h
      go false false h = decode_json_payload-Clean bytes parsed h

  request_payload-Clean :
      (req : HttpRequest) (bytes : Bytes) (parsed : ParsedIngestRequest)
      → request_payload p req bytes ≡ ok parsed
      → Clean parsed
  unfolding request_payload
  request_payload-Clean req bytes parsed h = go req.method h
    where
      go : (m : Method) → payload_of p m req bytes ≡ ok parsed → Clean parsed
      go get h = decode_query_payload-Clean req.query_params parsed h
      go post h = decode_post_payload-Clean req bytes parsed h
      go (other_method m) h = absurd (let c : ⊥ = cc in c)

  abbrev Named : List (Text × Text) → Type 0
  Named = All (λ f. text_eq (to_ascii_lowercase f.0) token_name ≡ false)

  header_kept-Named :
      (name : Text) (value : Option Text) (kept : List (Text × Text))
      → Named kept
      → Named (header_kept p name value kept)
  header_kept-Named name none kept a = a
  header_kept-Named name (some value) kept a =
      elim (Bool-cases (text_eq (to_ascii_lowercase name) token_name)) [
        | inl e ↦ rw (e) a
        | inr e ↦ rw (e) (
            insert_field-All (λ n. text_eq (to_ascii_lowercase n) token_name ≡ false) name value
              kept e a)
      ]

  headers_loop-Named :
      (hs : List (Text × Bytes)) (kept : List (Text × Text))
      → Named kept
      → Named (headers_loop p hs kept)
  unfolding headers_loop
  headers_loop-Named [] kept a = a
  headers_loop-Named ((name, value) ∷ hs) kept a =
      headers_loop-Named hs (header_kept p name (p.to_str value) kept)
        (header_kept-Named name (p.to_str value) kept a)

-- Let serde_json keep its promises, and let the handler admit a request. In the record that it then
-- appends, the payload is JSON, and it has no field `x-ingest-token`, also where the token was sent in the
-- body or in a form; and no header has that name in whatever case.
pub record_of-HasNo :
    {V : Type 0} (p : Parsers V) (now sequence : ℕ) (req : HttpRequest) (bytes : Bytes)
    (registry : Registry) (limit : Option ℕ) (parsed : ParsedIngestRequest) (project : Project)
    (event_name : Text)
    → IsJson p
    → admit p req bytes registry limit ≡ ok (parsed, project, event_name)
    → ((v : V) × (p.from_slice (record_of p now sequence req parsed project).payload ≡ ok v)
        × (p.member token_name v ≡ none))
      × All
          (λ f. text_eq (to_ascii_lowercase f.0) token_name ≡ false)
          (http (record_of p now sequence req parsed project)).headers
unfolding new_record request_headers http
record_of-HasNo p now sequence req bytes registry limit parsed project event_name law h =
    let a : Accepted p req bytes registry limit parsed project =
      admit-Accepted p req bytes registry limit parsed project event_name h in
    (
      (
        a.value,
        a.is_json,
        request_payload-Clean p law req bytes parsed a.is_parsed a.value a.is_json,
      ),
      headers_loop-Named p law req.headers [] tt,
    )
