-- ===== src/Ingest/Endpoint.antt =====
-- `ingest` of src/ingest/endpoint.rs: the authorization of a request, the checks of its payload, and the
-- record that is appended to the log. Metrics are output only and not modelled.
use ingest4x.Prelude.{
  ℕ, Bool, false, ◌||◌, Option, none, some, List, [], ◌∷◌, ◌++◌, length, ltb, get_or, is_empty, ◌⊎◌,
  inl, inr, if◌then◌else◌,
}
use ingest4x.Prelude.Int.{ℤ}
use ingest4x.Bytes.{Bytes}
use ingest4x.Text.{Text, codes, text_eq}
use ingest4x.Result.{Result, ok, err, ◌>>=◌, ◌>>◌, guard, map_err, ok_or, IoError}
use ingest4x.Wal.Record.{WalRecord, WalPosition, http_source}
use ingest4x.Wal.Segment.{decimal}
use ingest4x.Wal.Writer.State.{WriterEnv, WriterState}
use ingest4x.Wal.Writer.Flush.{append}
use ingest4x.Services.Project.{
  Project, ProjectAuthMode, token_auth, public_auth, Registry, project_by_key,
}
use ingest4x.Ingest.Issue.{
  IngestIssue, project_not_found, missing_ingest_token, invalid_ingest_token, ip_not_allowed,
  payload_too_large, invalid_json, wal_append_failed, HttpResponse, text_body, into_response,
}
use ingest4x.Ingest.Request.{
  Method, get, post, other_method, HttpRequest, Parsers, ParsedIngestRequest, token_name, then_some,
  to_ascii_lowercase, get_ip, insert_field, request_payload, request_ingest_token,
}

abbrev pub method_name : Method → Text
method_name get = codes "GET"
method_name post = codes "POST"
method_name (other_method m) = m

unfoldable pub is_one_of : Text → List Text → Bool
is_one_of t [] = false
is_one_of t (s ∷ ss) = text_eq s t || is_one_of t ss

-- `new_record` of src/wal/mod.rs; `sequence` is the number that its counter gives.
unfoldable pub new_record :
    ℕ → ℕ → Text → Text → Option Text → Option Text → List (Text × Text) → ℤ → Bytes → WalRecord
new_record received_at_ms sequence method path query remote_addr headers project_id body = record {
  record_id = codes "wal-" ++ (decimal received_at_ms ++ (codes "-" ++ decimal sequence));
  lsn = 0;
  node_id = [];
  envelope = record {
    project_id = project_id;
    received_at_ms = received_at_ms;
    source = http_source (record {
      method = method;
      path = path;
      query = query;
      remote_addr = remote_addr;
      headers = headers;
    });
  };
  payload = body;
}

-- `default_max_event_bytes` of src/settings.rs
abbrev pub default_max_event_bytes : ℕ
default_max_event_bytes = 262144

module _ {V : Type 0} (parsers : Parsers V) where
  abbrev pub by_mode :
      ProjectAuthMode → HttpRequest → ParsedIngestRequest → Project → Result IngestIssue (Unit {0})
  by_mode public_auth req parsed project = ok tt
  by_mode token_auth req parsed project = request_ingest_token parsers req parsed >>= λ found.
      ok_or found missing_ingest_token >>= λ token.
      guard (text_eq token project.ingest_token) invalid_ingest_token

  unfoldable pub authorize_project :
      HttpRequest → ParsedIngestRequest → Project → Result IngestIssue (Unit {0})
  authorize_project req parsed project =
      guard (is_empty project.allowed_ips || is_one_of (get_or (get_ip req) []) project.allowed_ips)
        ip_not_allowed
      >> by_mode project.auth_mode req parsed project

  unfoldable pub authenticate_project :
      HttpRequest → ParsedIngestRequest → Registry → Result IngestIssue Project
  authenticate_project req parsed registry =
      ok_or req.match_project_key project_not_found >>= λ key.
      ok_or (project_by_key registry key) project_not_found >>= λ project.
      authorize_project req parsed project >> ok project

  unfoldable pub validate_ingest_payload : Bytes → Result IngestIssue Text
  validate_ingest_payload body = map_err invalid_json (parsers.from_slice body) >>= λ v.
      ok (get_or (then_some (parsers.member (codes "xwhat") v) parsers.as_str) (codes "default"))

  unfoldable pub reject_if_payload_too_large : ℕ → Option ℕ → Option IngestIssue
  reject_if_payload_too_large payload_len max_event_bytes =
      if ltb (get_or max_event_bytes default_max_event_bytes) payload_len
      then some payload_too_large
      else none

  abbrev pub unless : Option IngestIssue → Result IngestIssue (Unit {0})
  unless none = ok tt
  unless (some issue) = err issue

  -- All checks of `ingest`, in its order
  unfoldable pub admit :
      HttpRequest
      → Bytes
      → Registry
      → Option ℕ
      → Result IngestIssue (ParsedIngestRequest × Project × Text)
  admit req bytes registry max_event_bytes = request_payload parsers req bytes >>= λ parsed.
      authenticate_project req parsed registry >>= λ project.
      unless (reject_if_payload_too_large (length parsed.body) max_event_bytes)
      >> (validate_ingest_payload parsed.body >>= λ event_name. ok (parsed, project, event_name))

  -- Whether the name is kept, then whether the value is text
  abbrev pub header_kept : Text → Option Text → List (Text × Text) → List (Text × Text)
  header_kept name none rest = rest
  header_kept name (some value) rest =
      if text_eq (to_ascii_lowercase name) token_name then rest else insert_field name value rest

  unfoldable pub headers_loop : List (Text × Bytes) → List (Text × Text) → List (Text × Text)
  headers_loop [] kept = kept
  headers_loop ((name, value) ∷ hs) kept =
      headers_loop hs (header_kept name (parsers.to_str value) kept)

  unfoldable pub request_headers : HttpRequest → List (Text × Text)
  request_headers req = headers_loop req.headers []

  abbrev pub record_of : ℕ → ℕ → HttpRequest → ParsedIngestRequest → Project → WalRecord
  record_of now sequence req parsed project =
      new_record now sequence (method_name req.method) req.path req.query (get_ip req)
        (request_headers req) project.id parsed.body

-- What the handler has: a response, or the channel of the log that it waits on.
pub data Reply : Type 0 where
  answered : HttpResponse → Reply
  waiting : ℕ → Reply

-- The response to what the log answers
unfoldable pub finish : {A : Type 0} → Result IoError A → HttpResponse
finish (ok a) = record { status = 200; response_body = text_body (codes "200") }
finish (err e) = into_response wal_append_failed

abbrev pub reply_of : Result IoError (ℕ ⊎ WalPosition) → Reply
reply_of (err e) = answered (finish {A = WalPosition} (err e))
reply_of (ok (inr p)) = answered (finish (ok p))
reply_of (ok (inl n)) = waiting n

unfoldable pub append_wal_record : WriterEnv → WalRecord → WriterState → Reply × WriterState
append_wal_record env r w = let a = append env r w in (reply_of (a.0), a.1)

module _ {V : Type 0} (parsers : Parsers V) (env : WriterEnv) (now sequence : ℕ) where
  abbrev pub admitted :
      HttpRequest
      → Result IngestIssue (ParsedIngestRequest × Project × Text)
      → WriterState
      → Reply × WriterState
  admitted req (err issue) w = (answered (into_response issue), w)
  admitted req (ok (parsed, project, event_name)) w =
      append_wal_record env (record_of parsers now sequence req parsed project) w

  unfoldable pub ingest :
      HttpRequest → Bytes → Registry → Option ℕ → WriterState → Reply × WriterState
  ingest req bytes registry max_event_bytes w =
      admitted req (admit parsers req bytes registry max_event_bytes) w
